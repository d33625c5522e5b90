-- ===== src/Memory/Makes.antt =====
-- Making an object is what Message computes, with its blocks.
use view_sync.Prelude.{
  ◌<◌, ℕ, ◌+◌, ◌≡◌, refl, inl, inr, Bool-cases, Option, none, some, List, arith,
}
use view_sync.Prelude.Outcome.{
  Outcome, done, exit, fault, spin, Error, Result, result_ok, result_err, result_unwrap, ◌>>=◌,
}
use view_sync.Message.{
  Kind, is_data, Message, OutgoingMessage, SentMessage, ReceivedMessage, cbc_msg_create,
  cbc_outgoing_msg_create, cbc_sent_msg_create, cbc_received_msg_create,
}
use view_sync.Message.Wire.{cbc_msg_deserialize}
use view_sync.Memory.Heap.{reads-Holds, Heap, one, Holds, Holds-as, calloc-Holds, free-Holds}
use view_sync.Memory.Objects.{
  MessagePtr, AddrPtr, OutgoingPtr, SentPtr, ReceivedPtr, message_weight, addr_weight,
  outgoing_weight, sent_weight, received_weight, addr_value, outgoing_value, sent_value,
  received_value, new_payload, put_message, finish_message, cbc_msg_create_in,
  cbc_msg_deserialize_in, cbc_outgoing_msg_create_in, cbc_sent_msg_create_in,
  cbc_received_msg_create_in,
}
use view_sync.Memory.Matches.{Matches, both, ends, breaks, loops, Matches-heap}

-- A new object with its value, over what was allocated.
abbrev pub Made : {P V : Type 0} → (P → ℕ → ℕ) → (P → V) → (ℕ → ℕ) → P → Heap → V → Type 0
Made weight value n p h v = (value p ≡ v) × Holds h (λ a. weight p a + n a)

new_payload-Made :
    (h : Heap) (n : ℕ → ℕ) (header at : ℕ) (m : Message) (o : Option (List ℕ))
    → Holds h (λ a. one at a + (one header a + n a))
    → Made message_weight
        (λ p. p.message)
        n
        (record { at = at; header = header; payload = (new_payload h o).0; message = m })
        (new_payload h o).1
        m
unfolding message_weight
new_payload-Made h n header at m none holds = (refl, Holds-as h _ _ (λ a. omega arith) holds)
new_payload-Made h n header at m (some bytes) holds =
    (refl, Holds-as _ _ _ (λ a. omega arith) (calloc-Holds h _ holds))

module _ {A B : Type 0} {R : A → B → Type 0} where
  created :
      (h : Heap) (n : ℕ → ℕ) (made : Outcome (Result Message))
      → {f : MessagePtr → Heap → Outcome A} {g : Message → Outcome B} → Holds h n
      → ((p : MessagePtr) (h' : Heap) (m : Message)
          → Made message_weight (λ q. q.message) n p h' m
          → Matches R (f p h') (g m))
      → Matches R
          (made >>= (λ r. done (put_message h r)) >>= (λ (r, h'). result_unwrap r >>= λ p. f p h'))
          (made >>= λ r. result_unwrap r >>= g)
  created h n (done (result_ok m)) holds k =
      k _ _ m (new_payload-Made _ n _ _ m m.payload (calloc-Holds _ _ (calloc-Holds h n holds)))
  created h n (done (result_err e)) holds k = ends
  created h n exit holds k = ends
  created h n fault holds k = breaks
  created h n spin holds k = loops

  pub cbc_msg_create_in-Made :
      (h : Heap) (n : ℕ → ℕ) (kind : Kind) (payload : Option (List ℕ)) (len : ℕ)
      → {f : MessagePtr → Heap → Outcome A} {g : Message → Outcome B} → Holds h n
      → ((p : MessagePtr) (h' : Heap) (m : Message)
          → Made message_weight (λ q. q.message) n p h' m
          → Matches R (f p h') (g m))
      → Matches R
          (cbc_msg_create_in h kind payload len >>= (λ (r, h'). result_unwrap r >>= λ p. f p h'))
          (cbc_msg_create kind payload len >>= λ r. result_unwrap r >>= g)
  unfolding cbc_msg_create_in
  cbc_msg_create_in-Made h n kind payload len holds k =
      created h n (cbc_msg_create kind payload len) holds k

  pub cbc_outgoing_msg_create_in-Made :
      (h : Heap) (n : ℕ → ℕ) (p : MessagePtr) (o : Option AddrPtr)
      → {f : OutgoingPtr → Heap → Outcome A} → {g : OutgoingMessage → Outcome B}
      → Holds h (λ a. message_weight p a + (addr_weight o a + n a))
      → ((q : OutgoingPtr) (h' : Heap) (v : OutgoingMessage)
          → Made outgoing_weight outgoing_value n q h' v
          → Matches R (f q h') (g v))
      → Matches R
          (let (r, h') = cbc_outgoing_msg_create_in h p o in result_unwrap r >>= λ q. f q h')
          (result_unwrap (cbc_outgoing_msg_create p.message (addr_value o)) >>= g)
  unfolding cbc_outgoing_msg_create_in cbc_outgoing_msg_create outgoing_weight
  cbc_outgoing_msg_create_in-Made h n p (some a) holds k =
      k _ _ _ (refl, Holds-as _ _ _ (λ a. omega arith) (calloc-Holds h _ holds))
  cbc_outgoing_msg_create_in-Made h n p none holds k =
      elim (Bool-cases (is_data p.message.header.kind)) [
        | inl e ↦ rw e (k _ _ _ (refl, Holds-as _ _ _ (λ a. omega arith) (calloc-Holds h _ holds)))
        | inr e ↦ rw e ends
      ]

  pub cbc_sent_msg_create_in-Made :
      (h : Heap) (n : ℕ → ℕ) (p : MessagePtr) (target : ℕ)
      → {f : SentPtr → Heap → Outcome A} → {g : SentMessage → Outcome B}
      → Holds h (λ a. message_weight p a + n a)
      → ((q : SentPtr) (h' : Heap) (v : SentMessage)
          → Made sent_weight sent_value n q h' v
          → Matches R (f q h') (g v))
      → Matches R
          (let (r, h') = cbc_sent_msg_create_in h p target in result_unwrap r >>= λ q. f q h')
          (result_unwrap (cbc_sent_msg_create p.message target) >>= g)
  unfolding cbc_sent_msg_create_in cbc_sent_msg_create sent_weight
  cbc_sent_msg_create_in-Made h n p target holds k =
      k _ _ _ (refl, Holds-as _ _ _ (λ a. omega arith) (calloc-Holds h _ holds))

  pub cbc_received_msg_create_in-Made :
      (h : Heap) (n : ℕ → ℕ) (p : MessagePtr) (pid : ℕ)
      → {f : ReceivedPtr → Heap → Outcome A} → {g : ReceivedMessage → Outcome B}
      → Holds h (λ a. message_weight p a + n a)
      → ((q : ReceivedPtr) (h' : Heap) (v : ReceivedMessage)
          → (q.message ≡ p)
          → Made received_weight received_value n q h' v
          → Matches R (f q h') (g v))
      → Matches R
          (let (r, h') = cbc_received_msg_create_in h p pid in result_unwrap r >>= λ q. f q h')
          (result_unwrap (cbc_received_msg_create p.message pid) >>= g)
  unfolding cbc_received_msg_create_in cbc_received_msg_create received_weight
  cbc_received_msg_create_in-Made h n p pid holds k =
      k _ _ _ refl (refl, Holds-as _ _ _ (λ a. omega arith) (calloc-Holds h _ holds))

-- A parsed message has its blocks; an error has freed them.
pub data Parsed (n : ℕ → ℕ) : Result MessagePtr × Heap → Result Message → Type 0 where
  parsed :
      {p : MessagePtr}
      → {h : Heap} → {m : Message} → Made message_weight (λ q. q.message) n p h m
      → Parsed n (result_ok p, h) (result_ok m)
  not_parsed : {e : Error} → {h : Heap} → Holds h n → Parsed n (result_err e, h) (result_err e)

finish_message-Parsed :
    (h : Heap) (n : ℕ → ℕ) (header at : ℕ) (made : Outcome (Result Message))
    → Holds h (λ a. one header a + (one at a + n a))
    → Matches (Parsed n) (made >>= finish_message h at header) made
finish_message-Parsed h n header at (done (result_ok m)) holds =
    both (
      parsed (new_payload-Made h n header at m m.payload (Holds-as h _ _ (λ a. omega arith) holds)))
finish_message-Parsed h n header at (done (result_err e)) holds =
    Matches-heap (free-Holds h header (λ a. one at a + n a) holds)
      λ h₁ o₁. Matches-heap (free-Holds h₁ at n o₁) λ h₂ o₂. both (not_parsed o₂)
finish_message-Parsed h n header at exit holds = ends
finish_message-Parsed h n header at fault holds = breaks
finish_message-Parsed h n header at spin holds = loops

pub cbc_msg_deserialize_in-Parsed :
    (h : Heap) (buffer : ℕ) (n : ℕ → ℕ) (bytes : List ℕ)
    → 0 < n buffer
    → Holds h n
    → Matches (Parsed n) (cbc_msg_deserialize_in h buffer bytes) (cbc_msg_deserialize (some bytes))
unfolding cbc_msg_deserialize_in
cbc_msg_deserialize_in-Parsed h buffer n bytes there holds =
    let both_made = calloc-Holds _ _ (calloc-Holds h n holds) in
    Matches-heap (reads-Holds _ buffer _ (omega (arith, there)) both_made)
      λ h₃ o. finish_message-Parsed h₃ n _ _ (cbc_msg_deserialize (some bytes)) o

put_message-Parsed :
    (h : Heap) (n : ℕ → ℕ) (made : Outcome (Result Message))
    → Holds h n
    → Matches (Parsed n) (made >>= λ r. done (put_message h r)) made
put_message-Parsed h n (done (result_ok m)) holds =
    both (parsed (new_payload-Made _ n _ _ m m.payload (calloc-Holds _ _ (calloc-Holds h n holds))))
put_message-Parsed h n (done (result_err e)) holds = both (not_parsed holds)
put_message-Parsed h n exit holds = ends
put_message-Parsed h n fault holds = breaks
put_message-Parsed h n spin holds = loops

pub cbc_msg_create_in-Parsed :
    (h : Heap) (n : ℕ → ℕ) (kind : Kind) (payload : Option (List ℕ)) (len : ℕ)
    → Holds h n
    → Matches (Parsed n) (cbc_msg_create_in h kind payload len) (cbc_msg_create kind payload len)
unfolding cbc_msg_create_in
cbc_msg_create_in-Parsed h n kind payload len holds =
    put_message-Parsed h n (cbc_msg_create kind payload len) holds
