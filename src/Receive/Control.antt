-- ===== src/Receive/Control.antt =====
-- What acking and asking again put into the send queue.
use view_sync.Prelude.{
  ℕ, zero, suc, ◌%◌, ◌^◌, ◌<◌, ◌≡◌, ◌≢◌, refl, Option, none, some, List, [], ◌∷◌, length, get_elem?,
  get_or, ==_ne, arith,
}
use view_sync.Prelude.Outcome.{done, deref}
use view_sync.Message.{
  Kind, cbc_ack, cbc_retransmit_req, Message, SockAddr, cbc_msg_create, cbc_outgoing_msg_create,
}
use view_sync.State.{Cbcast}
use view_sync.Peer.{uint16_max, cbc_peer_get_addr_copy}
use view_sync.Receive.{
  enqueue, inc64, queue_to, queue_control, ack_received_message, request_retransmission,
}

abbrev pub control_msg : Kind → ℕ → Message
control_msg k clock = record {
  header = record { kind = k; clock = clock % 2 ^ 16; len = 0 };
  payload = none;
}

-- The state with a control message for the address queued, if there is one.
abbrev pub with_control : Cbcast → Kind → ℕ → Option SockAddr → Cbcast
with_control cbc k clock none = cbc
with_control cbc k clock (some addr) =
    enqueue cbc (record { message = control_msg k clock; addr = some addr; socket_flags = 0 })

queue_to_lem :
    (cbc : Cbcast) (k : Kind) (clock : ℕ) (o : Option SockAddr)
    → queue_to cbc (control_msg k clock) o ≡ done (with_control cbc k clock o)
unfolding cbc_outgoing_msg_create
queue_to_lem cbc k clock none = refl
queue_to_lem cbc k clock (some addr) = refl

pub ack_received_message_lem :
    (cbc : Cbcast) (clock pid : ℕ)
    → clock ≢ uint16_max
    → ack_received_message cbc clock pid
      ≡ done (with_control cbc cbc_ack clock (cbc_peer_get_addr_copy cbc pid))
unfolding ack_received_message queue_control cbc_msg_create
ack_received_message_lem cbc clock pid h =
    rw (==_ne clock uint16_max h) (queue_to_lem cbc cbc_ack clock (cbc_peer_get_addr_copy cbc pid))

deref_elem : (xs : List ℕ) (i : ℕ) → i < length xs → deref (get_elem? xs i) ≡ done (get_or xs i 0)
deref_elem [] i h = absurd (omega arith)
deref_elem (x ∷ xs) zero h = refl
deref_elem (x ∷ xs) (suc i) h = deref_elem xs i (omega arith)

pub request_retransmission_lem :
    (cbc : Cbcast) (pid : ℕ)
    → pid ≢ uint16_max
    → pid < length cbc.vclock
    → request_retransmission cbc pid
      ≡ done (
          with_control cbc cbc_retransmit_req
            (inc64 (get_or cbc.vclock pid 0))
            (cbc_peer_get_addr_copy cbc pid))
unfolding request_retransmission queue_control cbc_msg_create
request_retransmission_lem cbc pid h inside =
    rw (==_ne pid uint16_max h, deref_elem cbc.vclock pid inside)
      (queue_to_lem cbc cbc_retransmit_req (inc64 (get_or cbc.vclock pid 0))
        (cbc_peer_get_addr_copy cbc pid))

-- Queueing a control message leaves what is delivered and held alone.
pub with_control-core :
    (cbc : Cbcast) (k : Kind) (clock : ℕ) (o : Option SockAddr)
    → ((with_control cbc k clock o).vclock ≡ cbc.vclock)
      × ((with_control cbc k clock o).held_msg_buffer ≡ cbc.held_msg_buffer)
      × ((with_control cbc k clock o).delivery_queue ≡ cbc.delivery_queue)
with_control-core cbc k clock none = (refl, refl, refl)
with_control-core cbc k clock (some addr) = (refl, refl, refl)
