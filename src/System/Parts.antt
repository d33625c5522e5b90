-- ===== src/System/Parts.antt =====
-- What `cbc_send` of src/cbcast/send.c puts of a payload into a message: the length is cut to 16
-- bits by `cbc_msg_create` of src/cbcast/message.c.
use view_sync.Prelude.{
  ℕ, zero, suc, ◌%◌, ◌^◌, ◌≤◌, ◌<◌, ◌≡◌, refl, ap, ap₂, inl, inr, Bool-cases, List, [], ◌∷◌, ◌++◌,
  map, length, take, All, ◌==◌, arith,
}
use view_sync.Member.Sending.{text_of}
use view_sync.System.{update}

-- A text of fewer than 65536 bytes is put into a message whole, and of a longer one as many bytes as
-- its length modulo 65536 says.
abbrev pub sent_part : List ℕ → List ℕ
sent_part text = take (length text % 2 ^ 16) text

abbrev pub sent_parts : (ℕ → List (List ℕ)) → ℕ → List (List ℕ)
sent_parts said i = map sent_part (said i)

abbrev pub IsShort : List ℕ → Type 0
IsShort text = length text < 2 ^ 16

take-length : (xs : List ℕ) → take (length xs) xs ≡ xs
take-length [] = refl
take-length (x ∷ xs) = ap (◌∷◌ x) (take-length xs)

length-take : (n : ℕ) (xs : List ℕ) → n ≤ length xs → length (take n xs) ≡ n
length-take zero xs h = refl
length-take (suc n) [] h = absurd (omega arith)
length-take (suc n) (x ∷ xs) h = ap suc (length-take n xs (omega arith))

take-take : (m n : ℕ) (xs : List ℕ) → m ≤ n → take m (take n xs) ≡ take m xs
take-take zero n xs h = refl
take-take (suc m) zero xs h = absurd (omega arith)
take-take (suc m) (suc n) [] h = refl
take-take (suc m) (suc n) (x ∷ xs) h = ap (◌∷◌ x) (take-take m n xs (omega arith))

sent_part-take :
    (payload : List ℕ) (len : ℕ)
    → len ≤ length payload
    → sent_part (take len payload) ≡ text_of payload len
sent_part-take payload len enough =
    rw (length-take len payload enough) (take-take (len % 2 ^ 16) len payload (omega arith))

-- What is short is sent whole.
pub sent_part-short : (texts : List (List ℕ)) → All IsShort texts → map sent_part texts ≡ texts
sent_part-short [] h = refl
sent_part-short (t ∷ ts) h =
    ap₂ (λ x xs. x ∷ xs) (rw whole (take-length t)) (sent_part-short ts h.1)
  where
    whole : length t % 2 ^ 16 ≡ length t
    whole = omega (arith, h.0)

pub length-sent_parts : (texts : List (List ℕ)) → length (map sent_part texts) ≡ length texts
length-sent_parts [] = refl
length-sent_parts (t ∷ ts) = ap suc (length-sent_parts ts)

sent_parts-append :
    (texts : List (List ℕ)) (payload : List ℕ) (len : ℕ)
    → len ≤ length payload
    → map sent_part (texts ++ (take len payload ∷ []))
      ≡ map sent_part texts ++ (text_of payload len ∷ [])
sent_parts-append [] payload len enough = ap (λ t. t ∷ []) (sent_part-take payload len enough)
sent_parts-append (t ∷ ts) payload len enough =
    ap (◌∷◌ (sent_part t)) (sent_parts-append ts payload len enough)

-- Saying one more text.
pub sent_parts-update :
    (said : ℕ → List (List ℕ)) (j : ℕ) (payload : List ℕ) (len : ℕ)
    → len ≤ length payload
    → (i : ℕ)
    → sent_parts (update said j (said j ++ (take len payload ∷ []))) i
      ≡ update (sent_parts said) j (sent_parts said j ++ (text_of payload len ∷ [])) i
sent_parts-update said j payload len enough i = elim (Bool-cases (i == j)) [
  | inl same ↦ rw same (sent_parts-append (said j) payload len enough)
  | inr other ↦ rw other refl
]
