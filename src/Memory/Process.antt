-- ===== src/Memory/Process.antt =====
-- A member at work, as in Node, with its blocks: from `cbc_init` over the calls of its user and the
-- rounds of its threads to `cbc_free`. The user frees a message that it has received, as main.c
-- does. The threads have been stopped between two rounds when `cbc_free` is called.
use view_sync.Prelude.{ℕ, Bool, Option, none, some, List, [], ◌∷◌, ◌++◌}
use view_sync.Prelude.Outcome.{Outcome, done, result_unwrap, ◌>>=◌}
use view_sync.Message.{ReceivedMessage}
use view_sync.Receive.Thread.{Datagram}
use view_sync.Send.Thread.{Packet}
use view_sync.Node.{
  Node, Event, adds_peer, removes_peer, sends, receives, arrives, recv_thread_runs,
  send_thread_runs,
}
use view_sync.Memory.Heap.{Heap}
use view_sync.Memory.Objects.{ReceivedPtr, received_value}
use view_sync.Memory.Context.{Context, forget, cbc_init_in, cbc_free}
use view_sync.Memory.Peers.{cbc_add_peer_in, cbc_remove_peer_in}
use view_sync.Memory.Reads.{received_blocks}
use view_sync.Memory.Receiving.{looks, cbc_receive_in, free_received_in}
use view_sync.Memory.Arriving.{recv_round_in}
use view_sync.Memory.Sending.{send_round_in}
use view_sync.Memory.Aging.{cbc_send_in}

pub record Process : Type 0 where
  pub st : Context
  pub inbox : List Datagram
  pub taken : List ReceivedMessage
  pub sent : List Packet
  pub draws : ℕ

abbrev pub start_in : Context → Process
start_in st = record { st = st; inbox = []; taken = []; sent = []; draws = 0 }

-- The process without the addresses.
abbrev pub forget_process : Process → Node
forget_process n = record {
  cbc = forget n.st;
  inbox = n.inbox;
  taken = n.taken;
  sent = n.sent;
  draws = n.draws;
}

-- What is received is looked at and freed.
abbrev pub take_received : Process → Option ReceivedPtr → Context → Outcome Process
take_received n none st = done (record n { st = st })
take_received n (some p) st = do
  seen ← looks st (received_blocks p)
  st' ← free_received_in seen p
  done (record n { st = st'; taken = n.taken ++ (received_value p ∷ []) })

module _ (inet_addr : List ℕ → ℕ) (rand : ℕ → ℕ) where
  unfoldable pub step_in : Process → Event → Outcome Process
  step_in n (adds_peer pid ipv4 port) = do
    (st, answer) ← cbc_add_peer_in inet_addr n.st pid ipv4 port
    done (record n { st = st })
  step_in n (removes_peer pid) = do st ← cbc_remove_peer_in n.st pid; done (record n { st = st })
  step_in n (sends payload len) = do
    (st, answer) ← cbc_send_in n.st payload len
    done (record n { st = st })
  step_in n receives = let (got, st) = cbc_receive_in n.st in take_received n got st
  step_in n (arrives d) = done (record n { inbox = n.inbox ++ (d ∷ []) })
  step_in n recv_thread_runs = do
    (st, inbox) ← recv_round_in n.st n.inbox
    done (record n { st = st; inbox = inbox })
  step_in n send_thread_runs = do
    (st, packets, draws) ← send_round_in rand n.st n.draws
    done (record n { st = st; sent = n.sent ++ packets; draws = draws })

  unfoldable pub run_in : Process → List Event → Outcome Process
  unfolding step_in
  run_in n [] = done n
  run_in n (e ∷ es) = do n' ← step_in n e; run_in n' es

  -- The process at its end, and what is allocated then.
  unfoldable pub life_in :
      Bool → (ℕ → Bool) → Heap → ℕ → ℕ → ℕ → List Event → Outcome (Process × Heap)
  unfolding run_in
  life_in socket_ok bind_ok h pid max_p port events = do
    (opened, h₁) ← cbc_init_in socket_ok bind_ok h pid max_p port
    st ← result_unwrap opened
    n ← run_in (start_in st) events
    h₂ ← cbc_free n.st
    done (n, h₂)
