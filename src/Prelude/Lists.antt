-- ===== src/Prelude/Lists.antt =====
-- Sequences: the C arrays and stb_ds dynamic arrays of the program, measured and indexed by native
-- numbers. `arrput xs x` is `xs ++ (x ∷ [])`; `arrdel` and `arrdelswap` are below.
use Prim.Native.Nat.{ℕ, zero, suc, ◌+◌, ◌≤◌, ◌<◌}
use mathlib.Core.Path.{◌≡◌, refl, ap, subst}
use mathlib.Core.Logic.{◌≢◌, inl, inr}
use mathlib.Core.Bool.{Bool, true, false}
use mathlib.Core.List.{List, [], ◌∷◌, ◌++◌}
use mathlib.Core.Option.{Option, none, some, some-injective}
use native.Mathlib.Omega.{arith}
use view_sync.Prelude.Tests.{if◌then◌else◌, Bool-cases}

module _ {ℓ} {A : Type ℓ} where
  abbrev pub length : List A → ℕ
  length [] = 0
  length (_ ∷ xs) = suc (length xs)

  abbrev pub get_elem? : List A → ℕ → Option A
  get_elem? [] _ = none
  get_elem? (x ∷ _) zero = some x
  get_elem? (_ ∷ xs) (suc i) = get_elem? xs i

  abbrev pub get_or : List A → ℕ → A → A
  get_or [] _ d = d
  get_or (x ∷ _) zero _ = x
  get_or (_ ∷ xs) (suc i) d = get_or xs i d

  abbrev pub set : List A → ℕ → A → List A
  set [] _ _ = []
  set (_ ∷ xs) zero v = v ∷ xs
  set (x ∷ xs) (suc i) v = x ∷ set xs i v

  abbrev pub take : ℕ → List A → List A
  take zero _ = []
  take (suc n) [] = []
  take (suc n) (x ∷ xs) = x ∷ take n xs

  abbrev pub drop : ℕ → List A → List A
  drop zero xs = xs
  drop (suc n) [] = []
  drop (suc n) (x ∷ xs) = drop n xs

  abbrev pub replicate : ℕ → A → List A
  replicate zero a = []
  replicate (suc n) a = a ∷ replicate n a

  -- The elements that pass a Boolean test, in order.
  abbrev pub keep : (A → Bool) → List A → List A
  keep p [] = []
  keep p (x ∷ xs) = if p x then x ∷ keep p xs else keep p xs

  -- The last element, and the sequence without it.
  abbrev pub last_or : A → List A → A
  last_or d [] = d
  last_or d (x ∷ xs) = last_or x xs

  abbrev pub init : List A → List A
  init [] = []
  init (x ∷ []) = []
  init (x ∷ y ∷ xs) = x ∷ init (y ∷ xs)

  -- `arrdel`: the later elements move down by one.
  abbrev pub arrdel : List A → ℕ → List A
  arrdel [] i = []
  arrdel (x ∷ xs) zero = xs
  arrdel (x ∷ xs) (suc i) = x ∷ arrdel xs i

  -- `arrdelswap`: the last element takes the place of the deleted one.
  abbrev pub arrdelswap : List A → ℕ → List A
  arrdelswap [] i = []
  arrdelswap (x ∷ []) i = []
  arrdelswap (x ∷ y ∷ xs) zero = last_or y xs ∷ init (y ∷ xs)
  arrdelswap (x ∷ y ∷ xs) (suc i) = x ∷ arrdelswap (y ∷ xs) i

  -- The first index at which the test passes, as a C `for` loop with a `break` finds it.
  abbrev pub find_index : (A → Bool) → List A → Option ℕ
  find_index p [] = none
  find_index p (x ∷ xs) =
      if p x then some 0 else elim (find_index p xs) [ none ↦ none | some i ↦ some (suc i) ]

  abbrev pub exists_in : (A → Bool) → List A → Bool
  exists_in p [] = false
  exists_in p (x ∷ xs) = if p x then true else exists_in p xs

  pub length-append : (xs ys : List A) → length (xs ++ ys) ≡ length xs + length ys
  length-append [] ys = omega arith
  length-append (x ∷ xs) ys = omega (arith, length-append xs ys)

  pub take_all : (xs : List A) → take (length xs) xs ≡ xs
  take_all [] = refl
  take_all (x ∷ xs) = ap (◌∷◌ x) (take_all xs)

  pub take-append : (xs ys : List A) → take (length xs) (xs ++ ys) ≡ xs
  take-append [] ys = refl
  take-append (x ∷ xs) ys = ap (◌∷◌ x) (take-append xs ys)

  pub length-take_of_le : (n : ℕ) (xs : List A) → n ≤ length xs → length (take n xs) ≡ n
  length-take_of_le zero xs h = refl
  length-take_of_le (suc n) [] h = absurd (omega arith)
  length-take_of_le (suc n) (x ∷ xs) h = ap suc (length-take_of_le n xs (omega arith))

module _ {ℓ κ} {A : Type ℓ} where
  -- Every element has the property.
  abbrev pub All : (A → Type κ) → List A → Type κ
  All P [] = Unit
  All P (x ∷ xs) = P x × All P xs

  pub All-append : (P : A → Type κ) (xs ys : List A) → All P xs → All P ys → All P (xs ++ ys)
  All-append P [] ys h k = k
  All-append P (x ∷ xs) ys h k = (h.0, All-append P xs ys h.1 k)

  pub All-elem :
      (P : A → Type κ) (xs : List A) (i : ℕ) (x : A) → All P xs → get_elem? xs i ≡ some x → P x
  All-elem P [] i x h e = cc
  All-elem P (y ∷ ys) zero x h e = subst P (some-injective y x e) h.0
  All-elem P (y ∷ ys) (suc i) x h e = All-elem P ys i x h.1 e

  All-last : (P : A → Type κ) (d : A) (xs : List A) → P d → All P xs → P (last_or d xs)
  All-last P d [] p h = p
  All-last P d (x ∷ xs) p h = All-last P x xs h.0 h.1

  All-init : (P : A → Type κ) (xs : List A) → All P xs → All P (init xs)
  All-init P [] h = tt
  All-init P (x ∷ []) h = tt
  All-init P (x ∷ y ∷ xs) h = (h.0, All-init P (y ∷ xs) h.1)

  pub All-arrdelswap : (P : A → Type κ) (xs : List A) (i : ℕ) → All P xs → All P (arrdelswap xs i)
  All-arrdelswap P [] i h = tt
  All-arrdelswap P (x ∷ []) i h = tt
  All-arrdelswap P (x ∷ y ∷ xs) zero h = (All-last P y xs h.1.0 h.1.1, All-init P (y ∷ xs) h.1)
  All-arrdelswap P (x ∷ y ∷ xs) (suc i) h = (h.0, All-arrdelswap P (y ∷ xs) i h.1)

module _ {A : Type 0} where
  -- What the first index that passes a test says of the list.
  abbrev pub Found : (A → Bool) → List A → Option ℕ → Type 0
  Found p xs none = All (λ x. p x ≡ false) xs
  Found p xs (some i) = (x : A) × (get_elem? xs i ≡ some x) × (p x ≡ true)

  Found-cons :
      (p : A → Bool) (x : A) (xs : List A) (o : Option ℕ)
      → p x ≡ false
      → Found p xs o
      → Found p (x ∷ xs) (elim o [ none ↦ none | some i ↦ some (suc i) ])
  Found-cons p x xs none e f = (e, f)
  Found-cons p x xs (some i) e f = f

  pub find_index-Found : (p : A → Bool) (xs : List A) → Found p xs (find_index p xs)
  find_index-Found p [] = tt
  find_index-Found p (x ∷ xs) = elim (Bool-cases (p x)) [
    | inl e ↦ rw e (x, refl, e)
    | inr e ↦ rw e (Found-cons p x xs (find_index p xs) e (find_index-Found p xs))
  ]

  pub keep-append : (p : A → Bool) (xs ys : List A) → keep p (xs ++ ys) ≡ keep p xs ++ keep p ys
  keep-append p [] ys = refl
  keep-append p (x ∷ xs) ys = ground (arith, keep-append p xs ys)

  -- Deleting an element takes one from the length.
  pub length-arrdel :
      (xs : List A) (i : ℕ) (x : A)
      → get_elem? xs i ≡ some x
      → suc (length (arrdel xs i)) ≡ length xs
  length-arrdel [] i x e = cc
  length-arrdel (y ∷ ys) zero x e = refl
  length-arrdel (y ∷ ys) (suc i) x e = ap suc (length-arrdel ys i x e)

  length-init : (x : A) (xs : List A) → suc (length (init (x ∷ xs))) ≡ length (x ∷ xs)
  length-init x [] = refl
  length-init x (y ∷ xs) = ap suc (length-init y xs)

  pub length-arrdelswap :
      (xs : List A) (i : ℕ) (x : A)
      → get_elem? xs i ≡ some x
      → suc (length (arrdelswap xs i)) ≡ length xs
  length-arrdelswap [] i x e = cc
  length-arrdelswap (y ∷ []) i x e = refl
  length-arrdelswap (y ∷ z ∷ ys) zero x e = ap suc (length-init z ys)
  length-arrdelswap (y ∷ z ∷ ys) (suc i) x e = ap suc (length-arrdelswap (z ∷ ys) i x e)

  pub get_or_of_elem : (xs : List A) (i : ℕ) (x d : A) → get_elem? xs i ≡ some x → get_or xs i d ≡ x
  get_or_of_elem [] i x d e = cc
  get_or_of_elem (y ∷ ys) zero x d e = cc
  get_or_of_elem (y ∷ ys) (suc i) x d e = get_or_of_elem ys i x d e

  pub get_elem?-in :
      (xs : List A) (i : ℕ) (d : A) → i < length xs → get_elem? xs i ≡ some (get_or xs i d)
  get_elem?-in [] i d h = absurd (omega arith)
  get_elem?-in (x ∷ xs) zero d h = refl
  get_elem?-in (x ∷ xs) (suc i) d h = get_elem?-in xs i d (omega arith)

  pub get_or-set_self :
      (xs : List A) (i : ℕ) (v d : A) → i < length xs → get_or (set xs i v) i d ≡ v
  get_or-set_self [] i v d h = absurd (omega arith)
  get_or-set_self (x ∷ xs) zero v d h = refl
  get_or-set_self (x ∷ xs) (suc i) v d h = get_or-set_self xs i v d (omega arith)

  pub get_or-set_ne :
      (xs : List A) (i j : ℕ) (v d : A) → i ≢ j → get_or (set xs i v) j d ≡ get_or xs j d
  get_or-set_ne [] i j v d h = refl
  get_or-set_ne (x ∷ xs) zero zero v d h = absurd (h refl)
  get_or-set_ne (x ∷ xs) zero (suc j) v d h = refl
  get_or-set_ne (x ∷ xs) (suc i) zero v d h = refl
  get_or-set_ne (x ∷ xs) (suc i) (suc j) v d h = get_or-set_ne xs i j v d (λ e. h (ap suc e))

  pub length-set : (xs : List A) (i : ℕ) (v : A) → length (set xs i v) ≡ length xs
  length-set [] i v = refl
  length-set (x ∷ xs) zero v = refl
  length-set (x ∷ xs) (suc i) v = ap suc (length-set xs i v)
