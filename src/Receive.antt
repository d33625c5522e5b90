-- ===== src/Receive.antt =====
-- The receiving side: src/cbcast/receive.c. A handler takes the state and returns the new one.
-- The log lines that it prints are left out.
pub mod Data
pub mod Rounds
pub mod Control
pub mod Branches
pub mod Acked
pub mod Handled
pub mod Wire
pub mod Arrival
pub mod Acks
pub mod Thread
use view_sync.Prelude.{
  ℕ, ◌+◌, ◌%◌, ◌^◌, Bool, true, false, Option, none, some, List, [], ◌∷◌, ◌++◌, length, get_elem?,
  get_or, set, ltb, leb, ◌==◌, if◌then◌else◌,
}
use view_sync.Prelude.Outcome.{Outcome, done, exit, result_unwrap, deref, ◌>>=◌}
use view_sync.Message.{
  Kind, cbc_ack, cbc_retransmit_req, Message, SockAddr, ReceivedMessage, OutgoingMessage, set_clock,
  cbc_msg_create, cbc_outgoing_msg_create,
}
use view_sync.State.{Cbcast}
use view_sync.Peer.{uint16_max, cbc_peer_get_addr_copy}

-- A `uint64_t` counter steps.
abbrev pub inc64 : ℕ → ℕ
inc64 n = (n + 1) % 2 ^ 64

-- The first message of the delivery queue, if there is one, goes to the caller and is counted.
abbrev pub receive_from : Cbcast → List ReceivedMessage → Option ReceivedMessage × Cbcast
receive_from cbc [] = (none, cbc)
receive_from cbc (msg ∷ rest) = (
  some msg,
  record cbc {
    delivery_queue = rest;
    stats = record (cbc.stats) { delivered_msg_count = inc64 cbc.stats.delivered_msg_count };
  },
)

unfoldable pub cbc_receive : Cbcast → Option ReceivedMessage × Cbcast
cbc_receive cbc = receive_from cbc cbc.delivery_queue

-- `enum CausalityType`.
pub data Causality : Type 0 where
  causality_error causality_deliver causality_hold : Causality

unfoldable pub check_msg_causality : List ℕ → ℕ → ℕ → Causality
check_msg_causality vclock pid clock =
    if leb (length vclock) pid
    then causality_error
    else if inc64 (get_or vclock pid 0) == clock
    then causality_deliver
    else if ltb (inc64 (get_or vclock pid 0)) clock
    then causality_hold
    else causality_error

abbrev pub is_deliver : Causality → Bool
is_deliver causality_deliver = true
is_deliver _ = false

-- `arrput(cbc->send_queue, outgoing)`.
abbrev pub enqueue : Cbcast → OutgoingMessage → Cbcast
enqueue cbc out = record cbc { send_queue = cbc.send_queue ++ (out ∷ []) }

-- The message is queued for the address; with none, the peer is not known, and nothing is queued.
abbrev pub queue_to : Cbcast → Message → Option SockAddr → Outcome Cbcast
queue_to cbc msg none = done cbc
queue_to cbc msg (some addr) = do
  out ← result_unwrap (cbc_outgoing_msg_create msg (some addr))
  done (enqueue cbc out)

-- A header-only message to a peer.
unfoldable pub queue_control : Cbcast → Kind → ℕ → ℕ → Outcome Cbcast
queue_control cbc kind clock pid = do
  made ← cbc_msg_create kind none 0
  msg ← result_unwrap made
  queue_to cbc (set_clock msg clock) (cbc_peer_get_addr_copy cbc pid)

unfoldable pub ack_received_message : Cbcast → ℕ → ℕ → Outcome Cbcast
ack_received_message cbc ack_clock sender_pid =
    if ack_clock == uint16_max then exit else queue_control cbc cbc_ack ack_clock sender_pid

unfoldable pub request_retransmission : Cbcast → ℕ → Outcome Cbcast
request_retransmission cbc sender_pid = if sender_pid == uint16_max then exit else do
  clock ← deref (get_elem? cbc.vclock sender_pid)
  queue_control cbc cbc_retransmit_req (inc64 clock) sender_pid

-- A message goes to the delivery queue and its sender's clock steps.
abbrev pub deliver : Cbcast → ReceivedMessage → ℕ → Cbcast
deliver cbc rcvd pid = record cbc {
  delivery_queue = cbc.delivery_queue ++ (rcvd ∷ []);
  vclock = set cbc.vclock pid (inc64 (get_or cbc.vclock pid 0));
}
