-- ===== src/Delivery/Frame.antt =====
-- The operations that neither deliver nor hold a message.
use view_sync.Prelude.{ℕ, Option, none, some, refl, inl, inr, Bool-cases, not, get_elem?, ◌==◌}
use view_sync.Prelude.Outcome.{Ensures, returned, exited, Ensures-then, result_unwrap, deref}
use view_sync.Prelude.Bits.{shl_one}
use view_sync.Message.{
  Kind, Message, SockAddr, is_ack, cbc_retransmit, cbc_msg_create, cbc_outgoing_msg_create,
  set_clock,
}
use view_sync.Peer.{uint16_max, cbc_peer_get_addr_copy}
use view_sync.State.{Cbcast}
use view_sync.Receive.{queue_to, queue_control, ack_received_message, request_retransmission}
use view_sync.Receive.Acks.{register_ack, ack_at, queue_retransmission, retransmit_at}
use view_sync.Delivery.{Frame}

queue_to-Frame :
    (cbc : Cbcast) (msg : Message) (o : Option SockAddr) → Ensures (Frame cbc) (queue_to cbc msg o)
queue_to-Frame cbc msg none = returned refl
queue_to-Frame cbc msg (some addr) =
    Ensures-then (result_unwrap (cbc_outgoing_msg_create msg (some addr))) (λ out. returned refl)

pub queue_control-Frame :
    (cbc : Cbcast) (k : Kind) (clock pid : ℕ) → Ensures (Frame cbc) (queue_control cbc k clock pid)
unfolding queue_control
queue_control-Frame cbc k clock pid =
    Ensures-then (cbc_msg_create k none 0)
      λ made. Ensures-then (result_unwrap made) λ msg. queue_to-Frame cbc (set_clock msg clock) _

pub ack_received_message-Frame :
    (cbc : Cbcast) (clock pid : ℕ) → Ensures (Frame cbc) (ack_received_message cbc clock pid)
unfolding ack_received_message
ack_received_message-Frame cbc clock pid = elim (Bool-cases (clock == uint16_max)) [
  | inl e ↦ rw e exited
  | inr e ↦ rw e (queue_control-Frame cbc _ clock pid)
]

pub request_retransmission-Frame :
    (cbc : Cbcast) (pid : ℕ) → Ensures (Frame cbc) (request_retransmission cbc pid)
unfolding request_retransmission
request_retransmission-Frame cbc pid = elim (Bool-cases (pid == uint16_max)) [
  | inl e ↦ rw e exited
  | inr e ↦
      rw e
        (Ensures-then (deref (get_elem? cbc.vclock pid)) λ clock. queue_control-Frame cbc _ _ pid)
]

ack_at-Frame : (cbc : Cbcast) (pid : ℕ) (o : Option ℕ) → Ensures (Frame cbc) (ack_at cbc pid o)
unfolding ack_at
ack_at-Frame cbc pid none = returned refl
ack_at-Frame cbc pid (some i) =
    Ensures-then (deref (get_elem? cbc.sent_msg_buffer i))
      λ sent. Ensures-then (shl_one pid) λ mask. returned refl

pub register_ack-Frame :
    (cbc : Cbcast) (ack : Message) (pid : ℕ) → Ensures (Frame cbc) (register_ack cbc ack pid)
unfolding register_ack
register_ack-Frame cbc ack pid = elim (Bool-cases (not (is_ack ack.header.kind))) [
  | inl e ↦ rw e exited
  | inr e ↦ rw e (ack_at-Frame cbc pid _)
]

retransmit_at-Frame :
    (cbc : Cbcast) (req : Message) (pid : ℕ) (o : Option ℕ)
    → Ensures (Frame cbc) (retransmit_at cbc req pid o)
unfolding retransmit_at
retransmit_at-Frame cbc req pid none = returned refl
retransmit_at-Frame cbc req pid (some i) =
    Ensures-then (deref (get_elem? cbc.sent_msg_buffer i)) λ sent.
      Ensures-then (cbc_msg_create cbc_retransmit sent.message.payload sent.message.header.len)
        λ made. Ensures-then (result_unwrap made) λ msg.
          Ensures-then
            (result_unwrap (
              cbc_outgoing_msg_create (set_clock msg req.header.clock)
                (cbc_peer_get_addr_copy cbc pid)))
            λ out. returned refl

pub queue_retransmission-Frame :
    (cbc : Cbcast) (req : Message) (pid : ℕ)
    → Ensures (Frame cbc) (queue_retransmission cbc req pid)
unfolding queue_retransmission
queue_retransmission-Frame cbc req pid = elim (Bool-cases (pid == uint16_max)) [
  | inl e ↦ rw e exited
  | inr e ↦ rw e (retransmit_at-Frame cbc req pid _)
]
