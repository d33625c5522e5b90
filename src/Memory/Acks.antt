-- ===== src/Memory/Acks.antt =====
-- An ack and a request for a retransmission: what is allocated and freed, and what is computed.
use view_sync.Prelude.{
  ℕ, ◌+◌, ◌≡◌, refl, ap, ap₂, inl, inr, Bool-cases, Option, none, some, not, get_elem?, arrdel,
  ◌==◌, arith,
}
use view_sync.Prelude.Outcome.{Outcome, done, deref, result_unwrap, ◌>>=◌}
use view_sync.Prelude.Bits.{shl_one}
use view_sync.Message.{
  Message, SentMessage, cbc_retransmit, is_ack, set_clock, cbc_outgoing_msg_create,
}
use view_sync.Peer.{uint16_max, cbc_peer_get_addr_copy}
use view_sync.Receive.{enqueue}
use view_sync.Receive.Acks.{
  with_ack, fully_acked, ack_at, register_ack, retransmit_at, queue_retransmission,
}
use view_sync.Memory.Heap.{Heap, Holds, Holds-as, total-arrdel, total-set}
use view_sync.Memory.Objects.{
  MessagePtr, SentPtr, message_weight, addr_weight, sent_weight, sent_value,
  cbc_outgoing_msg_create_in,
}
use view_sync.Memory.Blocks.{cbc_sent_msg_free-Holds}
use view_sync.Memory.Matches.{Matches-as, Matches, both, ends, breaks, Matches-same, Matches-heap}
use view_sync.Memory.Makes.{cbc_msg_create_in-Made, cbc_outgoing_msg_create_in-Made}
use view_sync.Memory.Values.{get_elem?-map-some, get_elem?-map-none, map-arrdel, map-set}
use view_sync.Memory.Context.{Context, forget, Owned, Agrees}
use view_sync.Memory.Reads.{often-sent}
use view_sync.Memory.Peers.{get_addr_copy_in, get_addr_copy_in-Copied}
use view_sync.Memory.Receiving.{set_clock_in, enqueue_in}
use view_sync.Memory.Controls.{beside, enqueue_in-Agrees, set_clock_in-Holds}
use view_sync.Memory.Looks.{Matches-looks}
use view_sync.Memory.Arriving.{
  with_ack_in, ack_at_in, register_ack_in, retransmit_at_in, queue_retransmission_in,
}

module _ {B D : Type 0} {R : B → D → Type 0} where
  found_as :
      (st : Context) (i : ℕ) (f : SentPtr → Outcome B) (g : SentMessage → Outcome D)
      (o : Option SentPtr)
      → get_elem? st.sent_msg_buffer i ≡ o
      → ((p : SentPtr)
          → get_elem? st.sent_msg_buffer i ≡ some p
          → Matches R (f p) (g (sent_value p)))
      → Matches R (deref o >>= f) (deref (get_elem? (forget st).sent_msg_buffer i) >>= g)
  found_as st i f g none at next = rw (get_elem?-map-none sent_value st.sent_msg_buffer i at) breaks
  found_as st i f g (some p) at next =
      rw (get_elem?-map-some sent_value st.sent_msg_buffer i p at) (next p at)

  -- The same message is found on both sides, or none.
  found-Matches :
      (st : Context) (i : ℕ) (f : SentPtr → Outcome B) (g : SentMessage → Outcome D)
      → ((p : SentPtr)
          → get_elem? st.sent_msg_buffer i ≡ some p
          → Matches R (f p) (g (sent_value p)))
      → Matches R
          (deref (get_elem? st.sent_msg_buffer i) >>= f)
          (deref (get_elem? (forget st).sent_msg_buffer i) >>= g)
  found-Matches st i f g next = found_as st i f g _ refl next

ack_at_in-Agrees :
    (e : ℕ → ℕ) (st : Context) (pid : ℕ) (o : Option ℕ)
    → Owned e st
    → Matches (Agrees e) (ack_at_in st pid o) (ack_at (forget st) pid o)
unfolding ack_at_in ack_at sent_weight
ack_at_in-Agrees e st pid none owned = both (refl, owned)
ack_at_in-Agrees e st pid (some i) owned = found-Matches st i _ _ λ p at.
    Matches-same (shl_one pid) λ mask.
      let left = arrdel st.sent_msg_buffer i in
      elim (Bool-cases (fully_acked (with_ack mask (sent_value p)))) [
        | inl z ↦ rw z (
            Matches-heap
              (cbc_sent_msg_free-Holds st.heap (with_ack_in mask p)
                (beside e (record st { sent_msg_buffer = left }))
                (Holds-as st.heap _ _
                  (λ a. omega (arith, total-arrdel sent_weight a st.sent_msg_buffer i p at)) owned))
              λ h o. both (
                ap (λ b. record (forget st) { sent_msg_buffer = b })
                    (map-arrdel sent_value st.sent_msg_buffer i),
                o,
              ))
        | inr z ↦ rw z (
            both (
              ap (λ b. record (forget st) { sent_msg_buffer = b })
                  (map-set sent_value st.sent_msg_buffer i (with_ack_in mask p)),
              Holds-as st.heap _ _
                  (λ a. omega (
                    arith,
                    total-set sent_weight a st.sent_msg_buffer i p (with_ack_in mask p) at refl,
                  ))
                  owned,
            ))
      ]

pub register_ack_in-Agrees :
    (e : ℕ → ℕ) (st : Context) (ack : Message) (pid : ℕ)
    → Owned e st
    → Matches (Agrees e) (register_ack_in st ack pid) (register_ack (forget st) ack pid)
unfolding register_ack_in register_ack
register_ack_in-Agrees e st ack pid owned = elim (Bool-cases (not (is_ack ack.header.kind))) [
  | inl z ↦ rw z ends
  | inr z ↦ rw z (
      Matches-looks e st _ _ (λ a. omega (arith, often-sent st.sent_msg_buffer a)) owned
        (ack_at_in-Agrees e st pid _ owned))
]

-- A copy is queued for the peer.
pub copy_in-Agrees :
    (e : ℕ → ℕ) (st : Context) (h : Heap) (p : MessagePtr) (m : Message) (clock pid : ℕ)
    → p.message ≡ m
    → Holds h (λ a. message_weight p a + beside e st a)
    → Matches
        (Agrees e)
        (do
          (addr, h₂) ← get_addr_copy_in h st.peers pid
          let (made', h₃) = cbc_outgoing_msg_create_in h₂ (set_clock_in p clock) addr
          out ← result_unwrap made'
          done (enqueue_in st h₃ out))
        (do
          out ←
              result_unwrap (
                cbc_outgoing_msg_create
                  (set_clock m clock)
                  (cbc_peer_get_addr_copy (forget st) pid))
          done (enqueue (forget st) out))
unfolding cbc_peer_get_addr_copy
copy_in-Agrees e st h p m clock pid same holds =
    Matches-heap
      (get_addr_copy_in-Copied h st.peers pid (λ a. message_weight p a + beside e st a)
        (λ a. omega arith) holds)
      λ (addr, h₂) (found, o₂).
        Matches-as
          (ap₂
            (λ x y. result_unwrap (cbc_outgoing_msg_create (set_clock x clock) y) >>= λ out.
              done (enqueue (forget st) out))
            same found)
          (cbc_outgoing_msg_create_in-Made h₂ (beside e st) (set_clock_in p clock) addr
            (set_clock_in-Holds h₂ p clock (λ a. addr_weight addr a + beside e st a)
              (Holds-as h₂ _ _ (λ a. omega arith) o₂))
            λ q h₃ v (is, o₃). both (enqueue_in-Agrees e st h₃ q v is o₃))

retransmit_at_in-Agrees :
    (e : ℕ → ℕ) (st : Context) (req : Message) (pid : ℕ) (o : Option ℕ)
    → Owned e st
    → Matches (Agrees e) (retransmit_at_in st req pid o) (retransmit_at (forget st) req pid o)
unfolding retransmit_at_in retransmit_at
retransmit_at_in-Agrees e st req pid none owned = both (refl, owned)
retransmit_at_in-Agrees e st req pid (some i) owned = found-Matches st i _ _ λ sent at.
    cbc_msg_create_in-Made st.heap (beside e st) cbc_retransmit sent.message.message.payload
      sent.message.message.header.len owned
      λ p h₁ m (same, o₁). copy_in-Agrees e st h₁ p m req.header.clock pid same o₁

pub queue_retransmission_in-Agrees :
    (e : ℕ → ℕ) (st : Context) (req : Message) (pid : ℕ)
    → Owned e st
    → Matches
        (Agrees e)
        (queue_retransmission_in st req pid)
        (queue_retransmission (forget st) req pid)
unfolding queue_retransmission_in queue_retransmission
queue_retransmission_in-Agrees e st req pid owned = elim (Bool-cases (pid == uint16_max)) [
  | inl z ↦ rw z ends
  | inr z ↦ rw z (
      Matches-looks e st _ _ (λ a. omega (arith, often-sent st.sent_msg_buffer a)) owned
        (retransmit_at_in-Agrees e st req pid _ owned))
]
