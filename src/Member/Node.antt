-- ===== src/Member/Node.antt =====
-- A well-formed member with its inbox, what its user has taken and what has left its socket: the
-- steps of Node that neither change the peers nor send a payload.
use view_sync.Prelude.{ℕ, ◌≢◌, List, [], ◌∷◌, All, All-append}
use view_sync.Prelude.Safe.{Safe, fine, Safe-bind}
use view_sync.Message.{SockAddr, ReceivedMessage}
use view_sync.State.{Cbcast}
use view_sync.Receive.{receive_from, cbc_receive}
use view_sync.Receive.Thread.{Datagram}
use view_sync.Node.{Node, receives, arrives, recv_thread_runs, send_thread_runs, to_list, step}
use view_sync.Member.{Promises, Came, Speaks, IsHealthy}
use view_sync.Member.Incoming.{IsTrusted, recv_round-Safe}
use view_sync.Member.Outgoing.{send_round-Safe}

module _ (w : Promises) (apart : (pid : ℕ) (addr : SockAddr) → w.Knows pid addr → pid ≢ w.self)
    (inet_addr : List ℕ → ℕ) (rand : ℕ → ℕ) where
  pub record IsHealthyNode (n : Node) : Type 0 where
    pub cbc : IsHealthy w n.cbc
    pub inbox : All (IsTrusted w apart) n.inbox
    pub taken : All (Came w) n.taken
    pub sent : All (λ p. Speaks w.Says p.bytes) n.sent

  receive_from-IsHealthy :
      (cbc : Cbcast) (queue : List ReceivedMessage)
      → All (Came w) queue
      → IsHealthy w cbc
      → IsHealthy w (receive_from cbc queue).1 × All (Came w) (to_list (receive_from cbc queue).0)
  receive_from-IsHealthy cbc [] q h = (h, tt)
  receive_from-IsHealthy cbc (m ∷ rest) q h = (
    record {
      own = h.own;
      inside = h.inside;
      clock = h.clock;
      sound = record { known = h.sound.known; resendable = h.sound.resendable };
      outgoing = h.outgoing;
      held = h.held;
      queue = q.1;
    },
    (q.0, tt),
  )

  pub receives-Safe :
      (n : Node) → IsHealthyNode n → Safe IsHealthyNode (step inet_addr rand n receives)
  unfolding step cbc_receive
  receives-Safe n h =
      let (c, got) = receive_from-IsHealthy n.cbc n.cbc.delivery_queue h.cbc.queue h.cbc in
      fine (record {
        cbc = c;
        inbox = h.inbox;
        taken = All-append (Came w) n.taken _ h.taken got;
        sent = h.sent;
      })

  pub arrives-Safe :
      (n : Node) (d : Datagram)
      → IsTrusted w apart d
      → IsHealthyNode n
      → Safe IsHealthyNode (step inet_addr rand n (arrives d))
  unfolding step
  arrives-Safe n d t h = fine (record {
    cbc = h.cbc;
    inbox = All-append (IsTrusted w apart) n.inbox (d ∷ []) h.inbox (t, tt);
    taken = h.taken;
    sent = h.sent;
  })

  pub recv_thread_runs-Safe :
      (n : Node) → IsHealthyNode n → Safe IsHealthyNode (step inet_addr rand n recv_thread_runs)
  unfolding step
  recv_thread_runs-Safe n h =
      Safe-bind (recv_round-Safe w apart n.cbc n.inbox h.inbox h.cbc)
        λ r (c, i). fine (record { cbc = c; inbox = i; taken = h.taken; sent = h.sent })

  pub send_thread_runs-Safe :
      (n : Node) → IsHealthyNode n → Safe IsHealthyNode (step inet_addr rand n send_thread_runs)
  unfolding step
  send_thread_runs-Safe n h = Safe-bind (send_round-Safe w rand n.cbc n.draws h.cbc) λ r (c, ps).
      fine (record {
        cbc = c;
        inbox = h.inbox;
        taken = h.taken;
        sent = All-append (λ p. Speaks w.Says p.bytes) n.sent r.1 h.sent ps;
      })
