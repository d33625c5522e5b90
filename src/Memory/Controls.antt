-- ===== src/Memory/Controls.antt =====
-- Queueing a control message: what is allocated, and what is computed.
use mathlib.Core.List.{map-append}
use view_sync.Prelude.{
  ℕ, ◌+◌, ◌≡◌, refl, ap, ap₂, ◌∙◌, inl, inr, Bool-cases, Option, none, some, [], ◌∷◌, ◌==◌,
  get_elem?, arith,
}
use view_sync.Prelude.Outcome.{Outcome, done, deref, ◌>>=◌}
use view_sync.Message.{
  Kind, cbc_ack, cbc_retransmit_req, OutgoingMessage, Message, SockAddr, set_clock,
}
use view_sync.State.{Cbcast}
use view_sync.Peer.{uint16_max, cbc_peer_get_addr_copy}
use view_sync.Receive.{
  inc64, enqueue, queue_to, queue_control, ack_received_message, request_retransmission,
}
use view_sync.Memory.Heap.{Heap, Holds, Holds-as, total-append}
use view_sync.Memory.Objects.{
  MessagePtr, AddrPtr, OutgoingPtr, message_weight, addr_weight, outgoing_weight, outgoing_value,
  addr_value,
}
use view_sync.Memory.Matches.{
  Matches-as, Matches, both, ends, breaks, loops, Matches-bind, Matches-same, Matches-heap,
}
use view_sync.Memory.Makes.{cbc_msg_create_in-Made, cbc_outgoing_msg_create_in-Made}
use view_sync.Memory.Context.{Context, forget, reached, lost, Owned, Agrees}
use view_sync.Memory.Peers.{get_addr_copy_in-Copied}
use view_sync.Memory.Receiving.{
  set_clock_in, enqueue_in, queue_to_in, queue_control_in, ack_received_message_in,
  request_retransmission_in,
}

-- A call on the context, then another.
pub Matches-then :
    (e k : ℕ → ℕ) (f : Context → Outcome Context) (g : Cbcast → Outcome Cbcast)
    → {m : Outcome Context} → {n : Outcome Cbcast} → Matches (Agrees e) m n
    → ((st : Context) → Owned e st → Matches (Agrees k) (f st) (g (forget st)))
    → Matches (Agrees k) (m >>= f) (n >>= g)
Matches-then e k f g first next =
    Matches-bind first λ st cbc (same, owned). Matches-as (ap g same) (next st owned)

-- The same where the second side makes no other call.
pub Matches-last :
    (e k : ℕ → ℕ) (f : Context → Outcome Context)
    → {m : Outcome Context} → {n : Outcome Cbcast} → Matches (Agrees e) m n
    → ((st : Context) → Owned e st → Matches (Agrees k) (f st) (done (forget st)))
    → Matches (Agrees k) (m >>= f) n
Matches-last e k f (both {a = st} (same, owned)) next = Matches-as (ap done same) (next st owned)
Matches-last e k f ends next = ends
Matches-last e k f breaks next = breaks
Matches-last e k f loops next = loops

-- What is allocated beside the context's blocks.
abbrev pub beside : (ℕ → ℕ) → Context → ℕ → ℕ
beside e st a = e a + (reached st a + lost st a)

-- Owned blocks of an object that is at hand.
pub enqueue_in-Agrees :
    (e : ℕ → ℕ) (st : Context) (h : Heap) (q : OutgoingPtr) (v : OutgoingMessage)
    → outgoing_value q ≡ v
    → Holds h (λ a. outgoing_weight q a + beside e st a)
    → Agrees e (enqueue_in st h q) (enqueue (forget st) v)
enqueue_in-Agrees e st h q v same holds = (
  ap (λ qs. record (forget st) { send_queue = qs })
        (map-append outgoing_value st.send_queue (q ∷ []))
      ∙ ap (enqueue (forget st)) same,
  Holds-as h _ _ (λ a. omega (arith, total-append outgoing_weight a st.send_queue (q ∷ []))) holds,
)

queue_to_in-Agrees :
    (e : ℕ → ℕ) (st : Context) (h : Heap) (p : MessagePtr) (o : Option AddrPtr)
    → Holds h (λ a. message_weight p a + (addr_weight o a + beside e st a))
    → Matches (Agrees e) (queue_to_in st h p o) (queue_to (forget st) p.message (addr_value o))
unfolding addr_weight
queue_to_in-Agrees e st h p none holds = both (
  refl,
  Holds-as h _ _ (λ a. omega (arith, total-append message_weight a st.lost_messages (p ∷ [])))
      holds,
)
queue_to_in-Agrees e st h p (some a) holds =
    cbc_outgoing_msg_create_in-Made h (beside e st) p (some a) holds
      λ q h' v (same, o). both (enqueue_in-Agrees e st h' q v same o)

queue_to_in-as :
    (e : ℕ → ℕ) (st : Context) (h : Heap) (p : MessagePtr) (o : Option AddrPtr) (m : Message)
    (found : Option SockAddr)
    → p.message ≡ m
    → addr_value o ≡ found
    → Holds h (λ a. message_weight p a + (addr_weight o a + beside e st a))
    → Matches (Agrees e) (queue_to_in st h p o) (queue_to (forget st) m found)
queue_to_in-as e st h p o m found same copied holds =
    Matches-as (ap₂ (queue_to (forget st)) same copied) (queue_to_in-Agrees e st h p o holds)

pub set_clock_in-Holds :
    (h : Heap) (p : MessagePtr) (clock : ℕ) (n : ℕ → ℕ)
    → Holds h (λ a. message_weight p a + n a)
    → Holds h (λ a. message_weight (set_clock_in p clock) a + n a)
unfolding message_weight
set_clock_in-Holds h p clock n holds = holds

pub queue_control_in-Agrees :
    (e : ℕ → ℕ) (st : Context) (kind : Kind) (clock pid : ℕ)
    → Owned e st
    → Matches
        (Agrees e)
        (queue_control_in st kind clock pid)
        (queue_control (forget st) kind clock pid)
unfolding queue_control_in queue_control cbc_peer_get_addr_copy
queue_control_in-Agrees e st kind clock pid owned =
    cbc_msg_create_in-Made st.heap (beside e st) kind none 0 owned λ p h₁ m (same, o₁).
      Matches-heap
        (get_addr_copy_in-Copied h₁ st.peers pid (λ a. message_weight p a + beside e st a)
          (λ a. omega arith) o₁)
        λ (addr, h₂) (found, o₂).
          queue_to_in-as e st h₂ (set_clock_in p clock) addr _ _ (ap (λ x. set_clock x clock) same)
            found
            (set_clock_in-Holds h₂ p clock (λ a. addr_weight addr a + beside e st a)
              (Holds-as h₂ _ _ (λ a. omega arith) o₂))

pub ack_received_message_in-Agrees :
    (e : ℕ → ℕ) (st : Context) (clock pid : ℕ)
    → Owned e st
    → Matches
        (Agrees e)
        (ack_received_message_in st clock pid)
        (ack_received_message (forget st) clock pid)
unfolding ack_received_message_in ack_received_message
ack_received_message_in-Agrees e st clock pid owned = elim (Bool-cases (clock == uint16_max)) [
  | inl z ↦ rw z ends
  | inr z ↦ rw z (queue_control_in-Agrees e st cbc_ack clock pid owned)
]

pub request_retransmission_in-Agrees :
    (e : ℕ → ℕ) (st : Context) (pid : ℕ)
    → Owned e st
    → Matches (Agrees e) (request_retransmission_in st pid) (request_retransmission (forget st) pid)
unfolding request_retransmission_in request_retransmission
request_retransmission_in-Agrees e st pid owned = elim (Bool-cases (pid == uint16_max)) [
  | inl z ↦ rw z ends
  | inr z ↦ rw z (
      Matches-same (deref (get_elem? st.vclock pid))
        λ clock. queue_control_in-Agrees e st cbc_retransmit_req (inc64 clock) pid owned)
]
