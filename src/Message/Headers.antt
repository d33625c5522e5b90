-- ===== src/Message/Headers.antt =====
-- Reading what serialisation writes: the header and the payload of a datagram.
use view_sync.Prelude.{
  ℕ, suc, ◌+◌, ◌*◌, ◌/◌, ◌%◌, ◌^◌, ◌<◌, ◌≡◌, refl, ap, some, List, [], ◌∷◌, ◌++◌, length, take,
  drop, ltb, false, arith,
}
use view_sync.Message.{Kind, cbc_data, cbc_ack, cbc_retransmit_req, cbc_retransmit, unknown, Header}
use view_sync.Message.Wire.{
  header_bytes, read_header, cbc_msg_deserialize, header_size, deserialize_as,
}

pub u16_split : (x : ℕ) → x < 2 ^ 16 → (x % 256 + 256 * (x / 256 % 256)) % 2 ^ 16 ≡ x
u16_split x h = omega arith

-- The kinds that a sender makes are known ones.
abbrev pub Known : Kind → Type 0
Known (unknown c) = ⊥
Known _ = Unit

pub read_kind :
    (k : Kind) (c n : ℕ) (rest : List ℕ)
    → Known k
    → (read_header (header_bytes (record { kind = k; clock = c; len = n }) ++ rest)).kind ≡ k
unfolding read_header header_bytes
read_kind cbc_data c n rest known = refl
read_kind cbc_ack c n rest known = refl
read_kind cbc_retransmit_req c n rest known = refl
read_kind cbc_retransmit c n rest known = refl
read_kind (unknown k) c n rest known = absurd known

pub read_header_of :
    (h : Header) (rest : List ℕ)
    → Known h.kind
    → h.clock < 2 ^ 16
    → h.len < 2 ^ 16
    → read_header (header_bytes h ++ rest) ≡ h
read_header_of h rest known c l = λ i. record {
  kind = read_kind h.kind h.clock h.len rest known i;
  clock = read_clock i;
  len = read_len i;
}
  where
    read_clock : (read_header (header_bytes h ++ rest)).clock ≡ h.clock
    read_clock = unfold read_header header_bytes in u16_split h.clock c

    read_len : (read_header (header_bytes h ++ rest)).len ≡ h.len
    read_len = unfold read_header header_bytes in u16_split h.len l

pub take_header :
    (h : Header) (n : ℕ) (rest : List ℕ)
    → take (header_size + n) (header_bytes h ++ rest) ≡ header_bytes h ++ take n rest
unfolding header_bytes
take_header h n rest =
    let eight : header_size + n ≡ suc (suc (suc (suc (suc (suc (suc (suc n))))))) = omega arith in
    rw eight

pub length-header :
    (h : Header) (rest : List ℕ) → length (header_bytes h ++ rest) ≡ header_size + length rest
unfolding header_bytes
length-header h rest = omega arith

pub drop_header : (h : Header) (rest : List ℕ) → drop header_size (header_bytes h ++ rest) ≡ rest
unfolding header_bytes
drop_header h rest = refl

pub deserialize_of :
    (h : Header) (rest : List ℕ)
    → Known h.kind
    → h.clock < 2 ^ 16
    → h.len < 2 ^ 16
    → cbc_msg_deserialize (some (header_bytes h ++ rest))
      ≡ deserialize_as h.kind h (header_bytes h ++ rest)
unfolding cbc_msg_deserialize
deserialize_of h rest known c l =
    let whole : ltb (length (header_bytes h ++ rest)) header_size ≡ false =
      ground (arith, length-header h rest) in
    rw whole
      (ap (λ g. deserialize_as g.kind g (header_bytes h ++ rest)) (read_header_of h rest known c l))

-- The terminator is sent, and cut off by a receiver that reads `len` bytes.
pub take_inner : (xs : List ℕ) (z : ℕ) → take (length xs) (take (length xs + 1) (xs ++ z ∷ [])) ≡ xs
take_inner [] z = refl
take_inner (x ∷ xs) z =
    let step : suc (length xs) + 1 ≡ suc (length xs + 1) = omega arith in
    rw step (ap (◌∷◌ x) (take_inner xs z))
