-- ===== src/Delivery/Handlers.antt =====
-- The receive thread of src/cbcast/receive.c and the order of delivery.
use Prim.Native.Nat.{min}
use view_sync.Prelude.{
  ℕ, suc, ◌+◌, ◌^◌, ◌<◌, ◌≡◌, refl, sym, ap, subst, inl, inr, true, not, Bool-cases, some, List, [],
  ◌∷◌, length, take, ltb, ◌==◌, if◌then◌else◌, arith, All-append, All-elem, All-arrdelswap, ==_iff,
  &&-split,
}
use view_sync.Prelude.Outcome.{
  Ensures, returned, exited, faulted, Ensures-bind, Ensures-map, Result, result_ok, result_err,
}
use view_sync.Message.{
  Kind, cbc_data, cbc_ack, cbc_retransmit_req, cbc_retransmit, unknown, Header, Message,
  ReceivedMessage, cbc_received_msg_create, is_retransmit,
}
use view_sync.Message.Wire.{
  read_header, cbc_msg_deserialize, deserialize_as, deserialize_payload, header_size,
}
use view_sync.State.{Cbcast}
use view_sync.Peer.{uint16_max, cbc_peer_find_by_addr}
use view_sync.Receive.{
  Causality, causality_error, causality_deliver, causality_hold, check_msg_causality, is_deliver,
  deliver,
}
use view_sync.Receive.Data.{
  deliverable, try_deliver_held_msgs, handle_by, handle_data_msg, already_held, hold,
}
use view_sync.Receive.Rounds.{deliver_rounds_inv}
use view_sync.Receive.Thread.{Datagram, dispatch, dispatch_result, handle_datagram, recv_round}
use view_sync.Delivery.{Core, core, Frame}
use view_sync.Delivery.Frame.{
  ack_received_message-Frame, request_retransmission-Frame, register_ack-Frame,
  queue_retransmission-Frame,
}
use view_sync.Delivery.Order.{Fifo, IsSmall, delivered-Fifo}

deliverable-split :
    (vclock : List ℕ) (pid : ℕ) (m : ReceivedMessage)
    → deliverable vclock pid m ≡ true
    → (m.sender_pid ≡ pid)
      × (is_deliver (check_msg_causality vclock pid m.message.header.clock) ≡ true)
unfolding deliverable
deliverable-split vclock pid m h =
    let both =
      &&-split (m.sender_pid == pid)
        (is_deliver (check_msg_causality vclock pid m.message.header.clock)) h in
    ((==_iff m.sender_pid pid).0 both.0, both.1)

-- A clock comes off the wire as 16 bits.
abbrev HasSmallClock : Result Message → Type 0
HasSmallClock (result_err e) = Unit
HasSmallClock (result_ok msg) = msg.header.clock < 2 ^ 16

payload-clock_small :
    (h : Header) (bytes : List ℕ)
    → h.clock < 2 ^ 16
    → Ensures HasSmallClock (deserialize_payload h bytes)
payload-clock_small h bytes small = elim (Bool-cases (h.len == 0)) [
  | inl e ↦ rw e (returned tt)
  | inr e ↦ rw e (elim (Bool-cases (ltb (length bytes) (header_size + h.len))) [
    | inl short ↦ rw short faulted
    | inr whole ↦ rw whole (returned small)
  ])
]

deserialize_as-clock_small :
    (k : Kind) (h : Header) (bytes : List ℕ)
    → h.clock < 2 ^ 16
    → Ensures HasSmallClock (deserialize_as k h bytes)
deserialize_as-clock_small cbc_data h bytes small = payload-clock_small h bytes small
deserialize_as-clock_small cbc_ack h bytes small = returned small
deserialize_as-clock_small cbc_retransmit_req h bytes small = returned small
deserialize_as-clock_small cbc_retransmit h bytes small = payload-clock_small h bytes small
deserialize_as-clock_small (unknown c) h bytes small = payload-clock_small h bytes small

deserialize-clock_small :
    (bytes : List ℕ) → Ensures HasSmallClock (cbc_msg_deserialize (some bytes))
unfolding cbc_msg_deserialize
deserialize-clock_small bytes = elim (Bool-cases (ltb (length bytes) header_size)) [
  | inl short ↦ rw short faulted
  | inr whole ↦
      rw whole (
        deserialize_as-clock_small (read_header bytes).kind (read_header bytes) bytes (omega arith))
]

module _ (self : ℕ) (base : ℕ → ℕ) (log : List ReceivedMessage) where
  abbrev pub InOrder : Cbcast → Type 0
  InOrder cbc = Fifo self base log (core cbc)

  pub Frame-InOrder : (cbc cbc' : Cbcast) → InOrder cbc → Frame cbc cbc' → InOrder cbc'
  Frame-InOrder cbc cbc' f same = subst (Fifo self base log) (sym same) f

  try_deliver_held_msgs-InOrder :
      (cbc : Cbcast) (pid : ℕ) → InOrder cbc → Ensures InOrder (try_deliver_held_msgs cbc pid)
  unfolding try_deliver_held_msgs
  try_deliver_held_msgs-InOrder cbc pid f =
      deliver_rounds_inv InOrder pid
        (λ c i m at may g.
          let (from, next) = deliverable-split c.vclock pid m may in
          let after =
            delivered-Fifo self base log (core c) m pid from next
              (All-elem IsSmall c.held_msg_buffer i m g.held_small at) g in
          record {
            own = after.own;
            in_order = after.in_order;
            at_least = after.at_least;
            clock_small = after.clock_small;
            held_small = All-arrdelswap IsSmall c.held_msg_buffer i g.held_small;
          })
        (suc (length cbc.held_msg_buffer)) cbc f

  hold-InOrder :
      (cbc : Cbcast) (m : ReceivedMessage) → IsSmall m → InOrder cbc → InOrder (hold cbc m)
  hold-InOrder cbc m small f = record {
    own = f.own;
    in_order = f.in_order;
    at_least = f.at_least;
    clock_small = f.clock_small;
    held_small = All-append IsSmall cbc.held_msg_buffer (m ∷ []) f.held_small (small, tt);
  }

  handle_by-InOrder :
      (k : Causality) (cbc : Cbcast) (m : ReceivedMessage)
      → check_msg_causality cbc.vclock m.sender_pid m.message.header.clock ≡ k
      → IsSmall m
      → InOrder cbc
      → Ensures InOrder (handle_by k cbc m.message m m.sender_pid)
  handle_by-InOrder causality_error cbc m e small f =
      elim (Bool-cases (is_retransmit m.message.header.kind)) [
        | inl r ↦ rw r (
            Ensures-map (λ c same. Frame-InOrder cbc c f same)
              (ack_received_message-Frame cbc m.message.header.clock m.sender_pid))
        | inr r ↦ rw r exited
      ]
  handle_by-InOrder causality_deliver cbc m e small f =
      Ensures-bind (ack_received_message-Frame cbc m.message.header.clock m.sender_pid)
        λ acked same.
          let may : is_deliver
                (check_msg_causality acked.vclock m.sender_pid m.message.header.clock)
              ≡ true =
            rw (ap (λ (c : Core). c.vclock) same, e) refl in
          let g =
            delivered-Fifo self base log (core acked) m m.sender_pid refl may small
              (Frame-InOrder cbc acked f same) in
          elim (Bool-cases (is_retransmit m.message.header.kind)) [
            | inl r ↦
                rw r (try_deliver_held_msgs-InOrder (deliver acked m m.sender_pid) m.sender_pid g)
            | inr r ↦ rw r (returned g)
          ]
  handle_by-InOrder causality_hold cbc m e small f =
      Ensures-bind (ack_received_message-Frame cbc m.message.header.clock m.sender_pid)
        λ acked same.
          let g = Frame-InOrder cbc acked f same in
          let again = already_held acked.held_msg_buffer m.message.header.clock m.sender_pid in
          let kept = if again then acked else hold acked m in
          let h : InOrder kept = elim (Bool-cases again) [
            | inl r ↦ rw r g
            | inr r ↦ rw r (hold-InOrder acked m small g)
          ] in
          Ensures-map (λ c same'. Frame-InOrder kept c h same')
            (request_retransmission-Frame kept m.sender_pid)

  handle_data_msg-InOrder :
      (cbc : Cbcast) (msg : Message) (pid : ℕ)
      → msg.header.clock < 2 ^ 16
      → InOrder cbc
      → Ensures InOrder (handle_data_msg cbc msg pid)
  unfolding handle_data_msg cbc_received_msg_create
  handle_data_msg-InOrder cbc msg pid small f =
      handle_by-InOrder _ cbc (record { message = msg; sender_pid = pid }) refl small f

  dispatch-InOrder :
      (k : Kind) (cbc : Cbcast) (msg : Message) (pid : ℕ)
      → msg.header.clock < 2 ^ 16
      → InOrder cbc
      → Ensures InOrder (dispatch k cbc msg pid)
  dispatch-InOrder cbc_data cbc msg pid small f = handle_data_msg-InOrder cbc msg pid small f
  dispatch-InOrder cbc_retransmit cbc msg pid small f = handle_data_msg-InOrder cbc msg pid small f
  dispatch-InOrder cbc_ack cbc msg pid small f =
      Ensures-map (λ c same. Frame-InOrder cbc c f same) (register_ack-Frame cbc msg pid)
  dispatch-InOrder cbc_retransmit_req cbc msg pid small f =
      Ensures-map (λ c same. Frame-InOrder cbc c f same) (queue_retransmission-Frame cbc msg pid)
  dispatch-InOrder (unknown c) cbc msg pid small f = returned f

  dispatch_result-InOrder :
      (r : Result Message) (cbc : Cbcast) (pid : ℕ)
      → HasSmallClock r
      → InOrder cbc
      → Ensures InOrder (dispatch_result r cbc pid)
  dispatch_result-InOrder (result_err e) cbc pid small f = returned f
  dispatch_result-InOrder (result_ok msg) cbc pid small f =
      dispatch-InOrder msg.header.kind cbc msg pid small f

  handle_datagram-InOrder :
      (cbc : Cbcast) (d : Datagram) → InOrder cbc → Ensures InOrder (handle_datagram cbc d)
  unfolding handle_datagram
  handle_datagram-InOrder cbc d f =
      let size = header_size + (read_header d.bytes).len in
      elim (Bool-cases (not (min (length d.bytes) size == size))) [
        | inl short ↦ rw short (returned f)
        | inr whole ↦
            rw whole (elim (Bool-cases (cbc_peer_find_by_addr cbc d.source == uint16_max)) [
              | inl stranger ↦ rw stranger (returned f)
              | inr peer ↦ rw peer (
                  Ensures-bind (deserialize-clock_small (take size d.bytes))
                    λ r small. dispatch_result-InOrder r cbc _ small f)
            ])
      ]

  -- A round of the receive thread keeps the order.
  pub recv_round-InOrder :
      (cbc : Cbcast) (inbox : List Datagram)
      → InOrder cbc
      → Ensures (λ r. InOrder r.0) (recv_round cbc inbox)
  unfolding recv_round
  recv_round-InOrder cbc [] f = returned f
  recv_round-InOrder cbc (d ∷ ds) f =
      elim (Bool-cases (ltb (min (length d.bytes) header_size) header_size)) [
        | inl short ↦ rw short (returned f)
        | inr whole ↦ rw whole (Ensures-bind (handle_datagram-InOrder cbc d f) λ cbc' g. returned g)
      ]
