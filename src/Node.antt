-- ===== src/Node.antt =====
-- One member of the group at work: the calls of its user (include/cbcast.h), the rounds of its two
-- threads, and the datagrams that reach its socket, in any order that the scheduler and the
-- network choose. A call or a round is one step.
use view_sync.Prelude.{ℕ, Option, none, some, List, [], ◌∷◌, ◌++◌}
use view_sync.Prelude.Outcome.{Outcome, done, Result, result_ok, result_err, ◌>>=◌}
use view_sync.Message.{ReceivedMessage}
use view_sync.State.{Cbcast}
use view_sync.Peer.{cbc_add_peer, cbc_remove_peer}
use view_sync.Receive.{cbc_receive}
use view_sync.Receive.Thread.{Datagram, recv_round}
use view_sync.Send.{cbc_send}
use view_sync.Send.Thread.{Packet, send_round}

-- `taken` is what `cbc_receive` has returned so far, `sent` what has left the socket, and `draws`
-- counts the calls of `rand()`.
pub record Node : Type 0 where
  pub cbc : Cbcast
  pub inbox : List Datagram
  pub taken : List ReceivedMessage
  pub sent : List Packet
  pub draws : ℕ

pub data Event : Type 0 where
  adds_peer : ℕ → Option (List ℕ) → ℕ → Event
  removes_peer : ℕ → Event
  sends : Option (List ℕ) → ℕ → Event
  receives : Event
  arrives : Datagram → Event
  recv_thread_runs : Event
  send_thread_runs : Event

-- An error leaves the state as it was.
abbrev pub or_same : Cbcast → Result Cbcast → Cbcast
or_same cbc (result_err e) = cbc
or_same cbc (result_ok cbc') = cbc'

abbrev pub to_list : Option ReceivedMessage → List ReceivedMessage
to_list none = []
to_list (some m) = m ∷ []

abbrev pub start : Cbcast → Node
start cbc = record { cbc = cbc; inbox = []; taken = []; sent = []; draws = 0 }

module _ (inet_addr : List ℕ → ℕ) (rand : ℕ → ℕ) where
  unfoldable pub step : Node → Event → Outcome Node
  step n (adds_peer pid ipv4 port) =
      done (record n { cbc = or_same n.cbc (cbc_add_peer inet_addr n.cbc pid ipv4 port) })
  step n (removes_peer pid) = done (record n { cbc = cbc_remove_peer n.cbc pid })
  step n (sends payload len) = do
    result ← cbc_send n.cbc payload len
    done (record n { cbc = or_same n.cbc result })
  step n receives =
      let (got, cbc) = cbc_receive n.cbc in
      done (record n { cbc = cbc; taken = n.taken ++ to_list got })
  step n (arrives d) = done (record n { inbox = n.inbox ++ (d ∷ []) })
  step n recv_thread_runs = do
    (cbc, inbox) ← recv_round n.cbc n.inbox
    done (record n { cbc = cbc; inbox = inbox })
  step n send_thread_runs = do
    (cbc, packets, draws) ← send_round rand n.cbc n.draws
    done (record n { cbc = cbc; sent = n.sent ++ packets; draws = draws })

  unfoldable pub run : Node → List Event → Outcome Node
  unfolding step
  run n [] = done n
  run n (e ∷ es) = do n' ← step n e; run n' es
