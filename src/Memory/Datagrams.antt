-- ===== src/Memory/Datagrams.antt =====
-- One round of the receive thread: what is allocated and freed, and what is computed.
use Prim.Native.Nat.{min}
use view_sync.Prelude.{
  ℕ, ◌+◌, ◌≡◌, refl, ap, inl, inr, Bool-cases, List, [], ◌∷◌, not, length, take, ltb, ◌==◌, arith,
}
use view_sync.Prelude.Outcome.{done, Result, ◌>>=◌}
use view_sync.Message.{
  Kind, cbc_data, cbc_ack, cbc_retransmit_req, cbc_retransmit, unknown, Message,
}
use view_sync.Message.Wire.{header_size, read_header}
use view_sync.Peer.{uint16_max, cbc_peer_find_by_addr}
use view_sync.Receive.Thread.{Datagram, dispatch, dispatch_result, handle_datagram, recv_round}
use view_sync.Memory.Heap.{Heap, calloc, one, Holds-as, calloc-Holds, free-Holds, total-append}
use view_sync.Memory.Objects.{MessagePtr, message_weight}
use view_sync.Memory.Blocks.{cbc_msg_free-Holds}
use view_sync.Memory.Matches.{Matches-as, Matches, both, Matches-bind, Matches-heap}
use view_sync.Memory.Makes.{Parsed, parsed, not_parsed, cbc_msg_deserialize_in-Parsed}
use view_sync.Memory.Context.{Context, forget, Owned, Agrees, with_heap}
use view_sync.Memory.Reads.{message_blocks, often-message, often-peers}
use view_sync.Memory.Controls.{Matches-then, Matches-last, beside}
use view_sync.Memory.Looks.{Matches-looks}
use view_sync.Memory.Handles.{handle_data_msg_in-Agrees}
use view_sync.Memory.Acks.{register_ack_in-Agrees, queue_retransmission_in-Agrees}
use view_sync.Memory.Arriving.{
  free_message_in, free_buffer_in, dispatch_in, dispatch_result_in, handle_datagram_in,
  recv_round_in,
}

free_message_in-Agrees :
    (e : ℕ → ℕ) (st : Context) (p : MessagePtr)
    → Owned (λ a. message_weight p a + e a) st
    → Matches (Agrees e) (free_message_in st p) (done (forget st))
free_message_in-Agrees e st p owned =
    Matches-heap
      (cbc_msg_free-Holds st.heap p (beside e st) (Holds-as st.heap _ _ (λ a. omega arith) owned))
      λ h o. both (refl, o)

free_buffer_in-Agrees :
    (e : ℕ → ℕ) (st : Context) (buffer : ℕ)
    → Owned (λ a. one buffer a + e a) st
    → Matches (Agrees e) (free_buffer_in st buffer) (done (forget st))
free_buffer_in-Agrees e st buffer owned =
    Matches-heap
      (free-Holds st.heap buffer (beside e st) (Holds-as st.heap _ _ (λ a. omega arith) owned))
      λ h o. both (refl, o)

-- A message at hand is kept, freed or lost.
dispatch_in-Agrees :
    (e : ℕ → ℕ) (kind : Kind) (st : Context) (p : MessagePtr) (pid : ℕ)
    → Owned (λ a. message_weight p a + e a) st
    → Matches (Agrees e) (dispatch_in kind st p pid) (dispatch kind (forget st) p.message pid)
dispatch_in-Agrees e cbc_data st p pid owned = handle_data_msg_in-Agrees e st p pid owned
dispatch_in-Agrees e cbc_retransmit st p pid owned = handle_data_msg_in-Agrees e st p pid owned
dispatch_in-Agrees e cbc_ack st p pid owned =
    Matches-last _ e _ (register_ack_in-Agrees _ st p.message pid owned) λ st' o.
      Matches-looks _ st' (message_blocks p) _ (λ a. omega (arith, often-message p a)) o
        (free_message_in-Agrees e st' p o)
dispatch_in-Agrees e cbc_retransmit_req st p pid owned =
    Matches-last _ e _ (queue_retransmission_in-Agrees _ st p.message pid owned) λ st' o.
      Matches-looks _ st' (message_blocks p) _ (λ a. omega (arith, often-message p a)) o
        (free_message_in-Agrees e st' p o)
dispatch_in-Agrees e (unknown c) st p pid owned = both (
  refl,
  Holds-as st.heap _ _ (λ a. omega (arith, total-append message_weight a st.lost_messages (p ∷ [])))
      owned,
)

Parsed-Agrees :
    (e : ℕ → ℕ) (st : Context) (buffer pid : ℕ) (r : Result MessagePtr × Heap) (v : Result Message)
    → Parsed (λ a. one buffer a + beside e st a) r v
    → Matches
        (Agrees e)
        (free_buffer_in (with_heap st r.1) buffer >>= λ st'. dispatch_result_in r.0 st' pid)
        (dispatch_result v (forget st) pid)
Parsed-Agrees e st buffer pid _ _ (parsed {p = p} {h = h} {m = m} (same, o)) =
    Matches-then (λ a. message_weight p a + e a) e _ (λ c. dispatch m.header.kind c m pid)
      (free_buffer_in-Agrees _ (with_heap st h) buffer (Holds-as h _ _ (λ a. omega arith) o))
      λ st' o'. Matches-as (ap (λ (x : Message). dispatch x.header.kind (forget st') x pid) same) (
        Matches-looks _ st' (message_blocks p) _ (λ a. omega (arith, often-message p a)) o'
          (dispatch_in-Agrees e p.message.header.kind st' p pid o'))
Parsed-Agrees e st buffer pid _ _ (not_parsed {e = x} {h = h} o) =
    Matches-then e e _ done
      (free_buffer_in-Agrees e (with_heap st h) buffer (Holds-as h _ _ (λ a. omega arith) o))
      λ st' o'. both (refl, o')

handle_datagram_in-Agrees :
    (e : ℕ → ℕ) (st : Context) (d : Datagram)
    → Owned e st
    → Matches (Agrees e) (handle_datagram_in st d) (handle_datagram (forget st) d)
unfolding handle_datagram_in handle_datagram
handle_datagram_in-Agrees e st d owned =
    let (buffer, h) = calloc st.heap in
    let size = header_size + (read_header d.bytes).len in
    let st₁ = with_heap st h in
    let o₁ : Owned (λ a. one buffer a + e a) st₁ =
      Holds-as h _ _ (λ a. omega arith) (calloc-Holds st.heap _ owned) in
    elim (Bool-cases (not (min (length d.bytes) size == size))) [
      | inl z ↦ rw z (free_buffer_in-Agrees e st₁ buffer o₁)
      | inr z ↦ rw z (
          Matches-looks _ st₁ _ _ (λ a. omega (arith, often-peers st.peers a)) o₁
            (elim (Bool-cases (cbc_peer_find_by_addr (forget st) d.source == uint16_max)) [
              | inl y ↦ rw y (free_buffer_in-Agrees e st₁ buffer o₁)
              | inr y ↦ rw y (
                  Matches-bind
                    (cbc_msg_deserialize_in-Parsed h buffer (λ a. one buffer a + beside e st a)
                      (take size d.bytes) (ground arith) (Holds-as h _ _ (λ a. omega arith) o₁))
                    λ r v is. Parsed-Agrees e st₁ buffer _ r v is)
            ]))
    ]

pub recv_round_in-Agrees :
    (e : ℕ → ℕ) (st : Context) (inbox : List Datagram)
    → Owned e st
    → Matches
        (λ r v. Agrees e r.0 v.0 × (r.1 ≡ v.1))
        (recv_round_in st inbox)
        (recv_round (forget st) inbox)
unfolding recv_round_in recv_round
recv_round_in-Agrees e st [] owned = both ((refl, owned), refl)
recv_round_in-Agrees e st (d ∷ ds) owned =
    elim (Bool-cases (ltb (min (length d.bytes) header_size) header_size)) [
      | inl z ↦ rw z (both ((refl, owned), refl))
      | inr z ↦
          rw z (Matches-bind (handle_datagram_in-Agrees e st d owned) λ st' cbc is. both (is, refl))
    ]
