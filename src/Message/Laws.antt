-- ===== src/Message/Laws.antt =====
-- Well-formed messages, and the constructors of src/cbcast/message.c.
use view_sync.Prelude.{
  ℕ, ◌%◌, ◌^◌, ◌<◌, ◌≡◌, refl, Option, none, some, List, [], ◌∷◌, ◌++◌, length, take,
  length-take_of_le, Bool-cases, inl, inr, ◌==◌, subst, sym, ltb, arith,
}
use view_sync.Prelude.Outcome.{Outcome, done, Result, result_ok}
use view_sync.Message.{
  Kind, cbc_data, cbc_ack, cbc_retransmit_req, cbc_retransmit, unknown, Message, set_clock,
  cbc_msg_create, create_msg_with_payload,
}

-- A payload of `n` bytes and its terminator.
abbrev pub Terminated : Option (List ℕ) → ℕ → Type 0
Terminated p n = (bs : List ℕ) × (p ≡ some (bs ++ 0 ∷ [])) × (length bs ≡ n) × (0 < n)

abbrev pub Shape : Kind → Option (List ℕ) → ℕ → Type 0
Shape cbc_ack p n = (p ≡ none) × (n ≡ 0)
Shape cbc_retransmit_req p n = (p ≡ none) × (n ≡ 0)
Shape cbc_data p n = Terminated p n
Shape cbc_retransmit p n = Terminated p n
Shape (unknown c) p n = ⊥

-- A message of one of the four kinds, with a payload exactly where its kind carries one.
pub record IsMessage (m : Message) : Type 0 where
  pub clock_fits : m.header.clock < 2 ^ 16
  pub len_fits : m.header.len < 2 ^ 16
  pub shape : Shape m.header.kind m.payload m.header.len

-- What holds of the message that a creating call returns, if it returns one.
abbrev Makes : (Message → Type 0) → Outcome (Result Message) → Type 0
Makes P (done (result_ok m)) = P m
Makes P _ = Unit

abbrev WithPayload : Kind → ℕ → Message → Type 0
WithPayload k n m = (m.header.kind ≡ k) × (m.header.len ≡ n) × Terminated m.payload n

create_msg_with_payload_lem :
    (k : Kind) (p : Option (List ℕ)) (n : ℕ)
    → Makes (WithPayload k n) (create_msg_with_payload k p n)
unfolding create_msg_with_payload
create_msg_with_payload_lem k none n = tt
create_msg_with_payload_lem k (some payload) n = elim (Bool-cases (n == 0)) [
  | inl z ↦ rw z tt
  | inr nz ↦ rw nz (elim (Bool-cases (ltb (length payload) n)) [
    | inl short ↦ rw short tt
    | inr enough ↦ rw enough (
      refl,
      refl,
      (take n payload, refl, length-take_of_le n payload (ground arith), ground arith),
    )
  ])
]

-- A message of a known shape, with a length that fits, is well formed under any clock.
pub shaped-IsMessage :
    (k : Kind) (c : ℕ) (m : Message)
    → m.header.kind ≡ k
    → m.header.len < 2 ^ 16
    → Shape k m.payload m.header.len
    → IsMessage (set_clock m c) × (m.header.kind ≡ k)
shaped-IsMessage k c m e fits s = (
  record {
    clock_fits = omega arith;
    len_fits = fits;
    shape = subst (λ j. Shape j m.payload m.header.len) (sym e) s;
  },
  e,
)

carried-IsMessage :
    (k : Kind) (c n : ℕ) (m : Message)
    → ((p : Option (List ℕ)) → Terminated p m.header.len → Shape k p m.header.len)
    → WithPayload k (n % 2 ^ 16) m
    → IsMessage (set_clock m c) × (m.header.kind ≡ k)
carried-IsMessage k c n m carries (e, l, t) =
    shaped-IsMessage k c m e (omega (arith, l))
      (carries m.payload (subst (Terminated m.payload) (sym l) t))

abbrev header_only : Kind → Message
header_only k = record { header = record { kind = k; clock = 0; len = 0 }; payload = none }

-- `cbc_msg_create` makes well-formed messages of the kind that is asked for, whatever clock is
-- then written in.
pub cbc_msg_create-IsMessage :
    (k : Kind) (p : Option (List ℕ)) (n c : ℕ) (m : Message)
    → cbc_msg_create k p n ≡ done (result_ok m)
    → IsMessage (set_clock m c) × (m.header.kind ≡ k)
unfolding cbc_msg_create
cbc_msg_create-IsMessage cbc_ack p n c m e =
    subst (Makes (λ t. IsMessage (set_clock t c) × (t.header.kind ≡ cbc_ack))) e
      (shaped-IsMessage cbc_ack c (header_only cbc_ack) refl (omega arith) (refl, refl))
cbc_msg_create-IsMessage cbc_retransmit_req p n c m e =
    subst (Makes (λ t. IsMessage (set_clock t c) × (t.header.kind ≡ cbc_retransmit_req))) e (
      shaped-IsMessage cbc_retransmit_req c (header_only cbc_retransmit_req) refl (omega arith)
        (refl, refl))
cbc_msg_create-IsMessage cbc_data p n c m e =
    carried-IsMessage cbc_data c n m (λ _ t. t)
      (subst (Makes (WithPayload cbc_data (n % 2 ^ 16))) e
        (create_msg_with_payload_lem cbc_data p (n % 2 ^ 16)))
cbc_msg_create-IsMessage cbc_retransmit p n c m e =
    carried-IsMessage cbc_retransmit c n m (λ _ t. t)
      (subst (Makes (WithPayload cbc_retransmit (n % 2 ^ 16))) e
        (create_msg_with_payload_lem cbc_retransmit p (n % 2 ^ 16)))
cbc_msg_create-IsMessage (unknown k) p n c m e = cc
