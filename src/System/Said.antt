-- ===== src/System/Said.antt =====
-- What the messages of a member say: the texts that its user has sent, by their clocks.
use view_sync.Prelude.{
  ℕ, zero, suc, ◌+◌, ◌-◌, ◌^◌, ◌≤◌, ◌<◌, ◌≡◌, refl, sym, ap, subst, ◌∙◌, inl, inr, Bool-cases,
  Option, none, some, List, [], ◌∷◌, ◌++◌, map, length, length-append, get_elem?, take, All, ◌==◌,
  arith, ==_iff,
}
use view_sync.Message.{ReceivedMessage}
use view_sync.Delivery.Order.{clocks_from, up_to}
use view_sync.System.{payloads_from, terminated}

-- The texts are numbered from 1. Nothing is said of a member that has sent more of them than a
-- clock of 16 bits counts.
abbrev pub Said : List (List ℕ) → ℕ → Option (List ℕ) → Type 0
Said texts clock payload =
    length texts < 2 ^ 16
    → (t : List ℕ) × (0 < clock) × (get_elem? texts (clock - 1) ≡ some t) × (payload ≡ terminated t)

get_elem?-append :
    (xs ys : List (List ℕ)) (i : ℕ) (x : List ℕ)
    → get_elem? xs i ≡ some x
    → get_elem? (xs ++ ys) i ≡ some x
get_elem?-append [] ys i x e = cc
get_elem?-append (y ∷ xs) ys zero x e = e
get_elem?-append (y ∷ xs) ys (suc i) x e = get_elem?-append xs ys i x e

get_elem?-last : (xs : List (List ℕ)) (x : List ℕ) → get_elem? (xs ++ (x ∷ [])) (length xs) ≡ some x
get_elem?-last [] x = refl
get_elem?-last (y ∷ xs) x = get_elem?-last xs x

get_elem?-lt : (xs : List (List ℕ)) (i : ℕ) (x : List ℕ) → get_elem? xs i ≡ some x → i < length xs
get_elem?-lt [] i x e = cc
get_elem?-lt (y ∷ xs) zero x e = omega arith
get_elem?-lt (y ∷ xs) (suc i) x e = omega (arith, get_elem?-lt xs i x e)

-- What has been said stays said.
pub Said-append :
    (texts : List (List ℕ)) (t : List ℕ) (clock : ℕ) (p : Option (List ℕ))
    → Said texts clock p
    → Said (texts ++ (t ∷ [])) clock p
Said-append texts t clock p h few =
    let (u, pos, at, e) = h (omega (arith, few, length-append texts (t ∷ []))) in
    (u, pos, get_elem?-append texts (t ∷ []) (clock - 1) u at, e)

pub Said-last :
    (texts : List (List ℕ)) (t : List ℕ) (clock : ℕ)
    → (length (texts ++ (t ∷ [])) < 2 ^ 16 → clock ≡ length texts + 1)
    → Said (texts ++ (t ∷ [])) clock (terminated t)
Said-last texts t clock c few =
    let i : clock - 1 ≡ length texts = omega (arith, c few) in
    (t, omega (arith, c few), rw i (get_elem?-last texts t), refl)

-- The text of a number, as it is put into a message.
abbrev nth : List (List ℕ) → ℕ → Option (List ℕ)
nth texts i = elim (get_elem? texts i) [ none ↦ none | some t ↦ terminated t ]

nth-Said :
    (texts : List (List ℕ)) (clock : ℕ) (p : Option (List ℕ))
    → length texts < 2 ^ 16
    → Said texts clock p
    → p ≡ nth texts (clock - 1)
nth-Said texts clock p few h = let (t, pos, at, e) = h few in rw (at, nth) e

-- Messages of one sender that say what it said.
abbrev pub AllSaid : ℕ → List (List ℕ) → List ReceivedMessage → Type 0
AllSaid i texts = All (λ m. m.sender_pid ≡ i → Said texts m.message.header.clock m.message.payload)

payloads-clocks :
    (i : ℕ) (texts : List (List ℕ)) (ms : List ReceivedMessage)
    → length texts < 2 ^ 16
    → AllSaid i texts ms
    → payloads_from i ms ≡ map (λ c. nth texts (c - 1)) (clocks_from i ms)
payloads-clocks i texts [] few h = refl
payloads-clocks i texts (m ∷ ms) few h = elim (Bool-cases (m.sender_pid == i)) [
  | inr other ↦ rw other (payloads-clocks i texts ms few h.1)
  | inl same ↦ rw same (λ k.
      nth-Said texts m.message.header.clock m.message.payload few
        (h.0 ((==_iff m.sender_pid i).0 same)) k
      ∷ payloads-clocks i texts ms few h.1 k)
]

clocks-le :
    (i : ℕ) (texts : List (List ℕ)) (ms : List ReceivedMessage)
    → length texts < 2 ^ 16
    → AllSaid i texts ms
    → All (λ c. c ≤ length texts) (clocks_from i ms)
clocks-le i texts [] few h = tt
clocks-le i texts (m ∷ ms) few h = elim (Bool-cases (m.sender_pid == i)) [
  | inr other ↦ rw other (clocks-le i texts ms few h.1)
  | inl same ↦
      let (t, pos, at, e) = h.0 ((==_iff m.sender_pid i).0 same) few in
      rw same (omega (arith, get_elem?-lt texts _ t at, pos), clocks-le i texts ms few h.1)
]

All-last : (n : ℕ) (xs : List ℕ) (x : ℕ) → All (λ c. c ≤ n) (xs ++ (x ∷ [])) → x ≤ n
All-last n [] x h = h.0
All-last n (y ∷ xs) x h = All-last n xs x h.1

up_to-le : (n k : ℕ) → All (λ c. c ≤ n) (up_to k) → k ≤ n
up_to-le n zero h = omega arith
up_to-le n (suc k) h = All-last n (up_to k) (suc k) h

take-suc :
    (xs : List (List ℕ)) (i : ℕ)
    → i < length xs
    → take (suc i) (map terminated xs) ≡ take i (map terminated xs) ++ (nth xs i ∷ [])
take-suc [] i h = absurd (omega arith)
take-suc (x ∷ xs) zero h = refl
take-suc (x ∷ xs) (suc i) h = ap (◌∷◌ (terminated x)) (take-suc xs i (omega arith))

map-append : (f : ℕ → Option (List ℕ)) (xs ys : List ℕ) → map f (xs ++ ys) ≡ map f xs ++ map f ys
map-append f [] ys = refl
map-append f (x ∷ xs) ys = ap (◌∷◌ (f x)) (map-append f xs ys)

nth-up_to :
    (texts : List (List ℕ)) (k : ℕ)
    → k ≤ length texts
    → map (λ c. nth texts (c - 1)) (up_to k) ≡ take k (map terminated texts)
nth-up_to texts zero h = refl
nth-up_to texts (suc k) h =
    map-append (λ c. nth texts (c - 1)) (up_to k) (suc k ∷ [])
    ∙ ap (λ l. l ++ (nth texts (suc k - 1) ∷ [])) (nth-up_to texts k (omega arith))
    ∙ ap (λ n. take k (map terminated texts) ++ (nth texts n ∷ [])) before
    ∙ sym (take-suc texts k h)
  where
    before : suc k - 1 ≡ k
    before = omega arith

-- Messages with the clocks 1, 2, …, k that say what their sender said are its first k texts.
pub payloads_lem :
    (i k : ℕ) (texts : List (List ℕ)) (ms : List ReceivedMessage)
    → length texts < 2 ^ 16
    → AllSaid i texts ms
    → clocks_from i ms ≡ up_to k
    → (k ≤ length texts) × (payloads_from i ms ≡ take k (map terminated texts))
payloads_lem i k texts ms few h order =
    let le : k ≤ length texts =
      up_to-le (length texts) k
        (subst (All (λ c. c ≤ length texts)) order (clocks-le i texts ms few h)) in
    (
      le,
      payloads-clocks i texts ms few h
          ∙ ap (map (λ c. nth texts (c - 1))) order
          ∙ nth-up_to texts k le,
    )
