-- ===== src/Memory/Handles.antt =====
-- A data message: what is allocated, and what is computed.
use view_sync.Prelude.{◌∷◌, ap, ℕ, ◌+◌, ◌≡◌, inl, inr, Bool-cases, arith}
use view_sync.Message.{Message, ReceivedMessage, is_retransmit}
use view_sync.Receive.{
  check_msg_causality, Causality, causality_error, causality_deliver, causality_hold,
  request_retransmission,
}
use view_sync.Receive.Data.{try_deliver_held_msgs, already_held, handle_by, handle_data_msg}
use view_sync.Memory.Heap.{Holds-as}
use view_sync.Memory.Objects.{
  MessagePtr, ReceivedPtr, message_weight, received_weight, received_value,
}
use view_sync.Memory.Matches.{Matches-as, Matches, both, ends}
use view_sync.Memory.Makes.{cbc_received_msg_create_in-Made}
use view_sync.Memory.Context.{Context, forget, Owned, Agrees, with_heap}
use view_sync.Memory.Reads.{received_blocks, often-received, often-one_received}
use view_sync.Memory.Receiving.{deliver_in, handle_by_in, handle_data_msg_in}
use view_sync.Memory.Controls.{
  Matches-then, Matches-last, beside, ack_received_message_in-Agrees,
  request_retransmission_in-Agrees,
}
use view_sync.Memory.Looks.{Matches-looks, free_received_in-Agrees}
use view_sync.Memory.Delivers.{deliver_in-Agrees, hold_in-Agrees, try_deliver_held_msgs_in-Agrees}

handle_by_in-Agrees :
    (e : ℕ → ℕ) (c : Causality) (st : Context) (msg : Message) (p : ReceivedPtr)
    (v : ReceivedMessage) (pid : ℕ)
    → received_value p ≡ v
    → Owned (λ a. received_weight p a + e a) st
    → Matches (Agrees e) (handle_by_in c st msg p pid) (handle_by c (forget st) msg v pid)
handle_by_in-Agrees e causality_error st msg p v pid same owned =
    elim (Bool-cases (is_retransmit msg.header.kind)) [
      | inl z ↦ rw z (
          Matches-last _ e _ (ack_received_message_in-Agrees _ st msg.header.clock pid owned)
            λ acked o.
              Matches-looks _ acked (received_blocks p) _
                (λ a. omega (arith, often-one_received p a)) o
                (free_received_in-Agrees e acked p o))
      | inr z ↦ rw z ends
    ]
handle_by_in-Agrees e causality_deliver st msg p v pid same owned =
    Matches-then _ e _ _ (ack_received_message_in-Agrees _ st msg.header.clock pid owned) λ acked o.
      let (is, o') = deliver_in-Agrees e acked p v pid same o in
      elim (Bool-cases (is_retransmit msg.header.kind)) [
        | inl z ↦ rw z (
            Matches-as (ap (λ c. try_deliver_held_msgs c pid) is)
              (try_deliver_held_msgs_in-Agrees e (deliver_in acked p pid) pid o'))
        | inr z ↦ rw z (both (is, o'))
      ]
handle_by_in-Agrees e causality_hold st msg p v pid same owned =
    Matches-then _ e _ _ (ack_received_message_in-Agrees _ st msg.header.clock pid owned) λ acked o.
      Matches-looks _ acked _ _ (λ a. omega (arith, often-received (p ∷ acked.held_msg_buffer) a)) o
        (elim (Bool-cases (already_held (forget acked).held_msg_buffer msg.header.clock pid)) [
          | inl z ↦ rw z (
              Matches-then e e _ (λ c. request_retransmission c pid)
                (free_received_in-Agrees e acked p o)
                λ held o'. request_retransmission_in-Agrees e held pid o')
          | inr z ↦ rw z (
              Matches-then e e _ (λ c. request_retransmission c pid)
                (both (hold_in-Agrees e acked p v same o))
                λ held o'. request_retransmission_in-Agrees e held pid o')
        ])

pub handle_data_msg_in-Agrees :
    (e : ℕ → ℕ) (st : Context) (p : MessagePtr) (pid : ℕ)
    → Owned (λ a. message_weight p a + e a) st
    → Matches (Agrees e) (handle_data_msg_in st p pid) (handle_data_msg (forget st) p.message pid)
unfolding handle_data_msg_in handle_data_msg
handle_data_msg_in-Agrees e st p pid owned =
    cbc_received_msg_create_in-Made st.heap (beside e st) p pid
      (Holds-as st.heap _ _ (λ a. omega arith) owned)
      λ q h v _ (same, o).
        let owned' : Owned (λ a. received_weight q a + e a) (with_heap st h) =
          Holds-as h _ _ (λ a. omega arith) o in
        Matches-looks _ (with_heap st h) (received_blocks q)
          (λ seen.
            handle_by_in (check_msg_causality st.vclock pid p.message.header.clock) seen p.message q
              pid)
          (λ a. omega (arith, often-one_received q a)) owned'
          (handle_by_in-Agrees e _ (with_heap st h) p.message q v pid same owned')
