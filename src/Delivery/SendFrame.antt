-- ===== src/Delivery/SendFrame.antt =====
-- Sending, in the caller's thread and in the send thread, and the part of the state that decides
-- on delivery.
use mathlib.Core.List.{reverse}
use view_sync.Prelude.{
  ℕ, suc, Option, List, [], ◌∷◌, refl, ◌∙◌, inl, inr, Bool, true, false, Bool-cases, length, ◌==◌,
}
use view_sync.Prelude.Outcome.{
  Ensures, returned, exited, Ensures-bind, Ensures-then, Ensures-map, result_unwrap,
}
use view_sync.Message.{
  cbc_data, cbc_ack, cbc_retransmit_req, unknown, OutgoingMessage, cbc_sent_msg_create, Kind,
  SentMessage, cbc_retransmit, cbc_msg_create, cbc_outgoing_msg_create, set_clock,
}
use view_sync.Peer.{cbc_peer_get_addr_copy}
use view_sync.Message.Wire.{cbc_msg_serialize}
use view_sync.State.{Cbcast}
use view_sync.Receive.{enqueue}
use view_sync.Send.Old.{
  get_current_clock, find_old_messages, filter_dead_messages, retransmit_messages,
  retransmit_from_end, queue_retransmit_messages, find_unacked_peers,
}
use view_sync.Send.Dead.{
  find_dead_peers, handle_dead_peers, mark_all, purge_acked, disconnect_if, must_disconnect,
}
use view_sync.Send.{handle_old_messages, handle_old_found, handle_dead_messages, give_up}
use view_sync.Send.Thread.{
  broadcast, broadcast_to, send_round, send_first, send_as, is_dropped, send_control,
}
use view_sync.Delivery.{Frame}

queue_retransmit_messages-Frame :
    (cbc : Cbcast) (s : SentMessage) (pids : List ℕ)
    → Ensures (Frame cbc) (queue_retransmit_messages cbc s pids)
unfolding queue_retransmit_messages
queue_retransmit_messages-Frame cbc s [] = returned refl
queue_retransmit_messages-Frame cbc s (pid ∷ pids) =
    Ensures-then (cbc_msg_create cbc_retransmit s.message.payload s.message.header.len) λ made.
      Ensures-then (result_unwrap made) λ msg.
        Ensures-then
          (result_unwrap (
            cbc_outgoing_msg_create (set_clock msg s.message.header.clock)
              (cbc_peer_get_addr_copy cbc pid)))
          λ out. queue_retransmit_messages-Frame (enqueue cbc out) s pids

retransmit_from_end-Frame :
    (cbc : Cbcast) (old : List SentMessage) → Ensures (Frame cbc) (retransmit_from_end cbc old)
unfolding retransmit_from_end
retransmit_from_end-Frame cbc [] = returned refl
retransmit_from_end-Frame cbc (s ∷ rest) = Ensures-then (find_unacked_peers cbc s) λ targets.
    elim (Bool-cases (length targets == 0)) [
      | inl e ↦ rw e (returned refl)
      | inr e ↦ rw e (
          Ensures-bind (queue_retransmit_messages-Frame cbc s targets) λ cbc' same.
            Ensures-map (λ _ later. later ∙ same) (retransmit_from_end-Frame cbc' rest))
    ]

disconnect_if-Frame : (b : Bool) (cbc : Cbcast) → Frame cbc (disconnect_if b cbc)
disconnect_if-Frame true cbc = refl
disconnect_if-Frame false cbc = refl

handle_dead_peers-Frame :
    (cbc : Cbcast) (dead : List ℕ) → Ensures (Frame cbc) (handle_dead_peers cbc dead)
unfolding handle_dead_peers
handle_dead_peers-Frame cbc [] = exited
handle_dead_peers-Frame cbc (d ∷ ds) = elim (Bool-cases (length cbc.peers == 0)) [
  | inl e ↦ rw e exited
  | inr e ↦ rw e (
      Ensures-then (mark_all (d ∷ ds) cbc.sent_msg_buffer) λ marked.
        Ensures-then (purge_acked marked) λ buffer.
          returned (disconnect_if-Frame (must_disconnect (length cbc.peers) (length (d ∷ ds))) cbc))
]

give_up-Frame :
    (cbc : Cbcast) (old : List SentMessage) (dead : List ℕ)
    → Ensures (λ r. Frame cbc r.0) (give_up cbc old dead)
unfolding give_up
give_up-Frame cbc old [] = returned refl
give_up-Frame cbc old (d ∷ ds) =
    Ensures-bind (handle_dead_peers-Frame cbc (d ∷ ds))
      λ cbc' same. Ensures-then (mark_all (d ∷ ds) old) λ old'. returned same

handle_dead_messages-Frame :
    (cbc : Cbcast) (dead old : List SentMessage)
    → Ensures (λ r. Frame cbc r.0) (handle_dead_messages cbc dead old)
handle_dead_messages-Frame cbc [] old = returned refl
handle_dead_messages-Frame cbc (s ∷ ss) old =
    Ensures-then (find_dead_peers cbc (s ∷ ss)) λ dead_peers. give_up-Frame cbc old dead_peers

handle_old_found-Frame :
    (cbc : Cbcast) (current : ℕ) (old : List SentMessage)
    → Ensures (Frame cbc) (handle_old_found cbc current old)
unfolding retransmit_messages
handle_old_found-Frame cbc current [] = returned refl
handle_old_found-Frame cbc current (s ∷ ss) =
    Ensures-then (filter_dead_messages current (s ∷ ss)) λ split.
      Ensures-bind (handle_dead_messages-Frame cbc split.0 split.1) λ r same.
        Ensures-map (λ _ later. later ∙ same) (retransmit_from_end-Frame r.0 (reverse r.1))

pub handle_old_messages-Frame : (cbc : Cbcast) → Ensures (Frame cbc) (handle_old_messages cbc)
unfolding handle_old_messages
handle_old_messages-Frame cbc = elim (Bool-cases (length cbc.sent_msg_buffer == 0)) [
  | inl e ↦ rw e (returned refl)
  | inr e ↦ rw e (elim (Bool-cases (length cbc.peers == 0)) [
    | inl z ↦ rw z (returned refl)
    | inr z ↦ rw z (
        Ensures-then (get_current_clock cbc)
          λ current. handle_old_found-Frame cbc current (find_old_messages cbc current))
  ])
]

broadcast-Frame :
    (rand : ℕ → ℕ) (cbc : Cbcast) (bytes : Option (List ℕ)) (draws : ℕ)
    → Ensures (λ r. Frame cbc r.0) (broadcast rand cbc bytes draws)
unfolding broadcast
broadcast-Frame rand cbc bytes draws =
    Ensures-then
      (broadcast_to rand cbc.peers bytes
        (record { ack_target = 0; packets = []; n_sent = 0; n_dropped = 0; draws = draws }))
      λ b. returned refl

send_control-Frame :
    (k : Kind) (cbc : Cbcast) (out : OutgoingMessage) (bytes : Option (List ℕ)) (drop : Bool)
    → Frame cbc (send_control k cbc out bytes drop).0
send_control-Frame k cbc out bytes true = refl
send_control-Frame k cbc out bytes false = refl

send_as-Frame :
    (rand : ℕ → ℕ) (k : Kind) (cbc : Cbcast) (out : OutgoingMessage) (bytes : Option (List ℕ))
    (draws : ℕ)
    → Ensures (λ r. Frame cbc r.0) (send_as rand k cbc out bytes draws)
send_as-Frame rand cbc_data cbc out bytes draws =
    Ensures-bind (broadcast-Frame rand cbc bytes (suc draws)) λ r same.
      Ensures-then (result_unwrap (cbc_sent_msg_create out.message r.1.ack_target))
        λ sent. returned same
send_as-Frame rand cbc_ack cbc out bytes draws =
    returned (send_control-Frame cbc_ack cbc out bytes (is_dropped (rand draws)))
send_as-Frame rand cbc_retransmit_req cbc out bytes draws =
    returned (send_control-Frame cbc_retransmit_req cbc out bytes (is_dropped (rand draws)))
send_as-Frame rand cbc_retransmit cbc out bytes draws =
    returned (send_control-Frame cbc_retransmit cbc out bytes (is_dropped (rand draws)))
send_as-Frame rand (unknown c) cbc out bytes draws = returned refl

send_first-Frame :
    (rand : ℕ → ℕ) (cbc : Cbcast) (queue : List OutgoingMessage) (draws : ℕ)
    → Ensures (λ r. Frame cbc r.0) (send_first rand cbc queue draws)
send_first-Frame rand cbc [] draws = returned refl
send_first-Frame rand cbc (out ∷ rest) draws = Ensures-then (cbc_msg_serialize out.message) λ bytes.
    send_as-Frame rand out.message.header.kind (record cbc { send_queue = rest }) out bytes draws

pub send_round-Frame :
    (rand : ℕ → ℕ) (cbc : Cbcast) (draws : ℕ)
    → Ensures (λ r. Frame cbc r.0) (send_round rand cbc draws)
unfolding send_round
send_round-Frame rand cbc draws = send_first-Frame rand cbc cbc.send_queue draws
