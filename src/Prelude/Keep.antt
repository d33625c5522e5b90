-- ===== src/Prelude/Keep.antt =====
-- Searching, deleting and filtering a sequence.
use view_sync.Prelude.{
  ℕ, zero, suc, ◌≡◌, refl, ap, inl, inr, Bool, true, false, not, Bool-cases, Option, none, some,
  List, [], ◌∷◌, get_elem?, set, arrdel, keep, find_index, All,
}

module _ {A : Type 0} where
  abbrev pub keep_not : (A → Bool) → List A → List A
  keep_not p = keep (λ x. not (p x))

  -- The first element that passes is the head of those that pass; the others do not notice when it
  -- is deleted.
  abbrev pub First : (A → Bool) → List A → Option ℕ → Type 0
  First p xs none = (keep p xs ≡ []) × (keep_not p xs ≡ xs)
  First p xs (some i) =
      (x : A) × (get_elem? xs i ≡ some x)
      × (keep p xs ≡ x ∷ keep p (arrdel xs i))
      × (keep_not p (arrdel xs i) ≡ keep_not p xs)

  First-cons :
      (p : A → Bool) (y : A) (xs : List A) (o : Option ℕ)
      → p y ≡ false
      → First p xs o
      → First p (y ∷ xs) (elim o [ none ↦ none | some i ↦ some (suc i) ])
  First-cons p y xs none e (none_pass, all_left) = (rw e none_pass, rw e (ap (◌∷◌ y) all_left))
  First-cons p y xs (some i) e (x, at, head, others) = (x, at, rw e head, rw e (ap (◌∷◌ y) others))

  pub find_index-First : (p : A → Bool) (xs : List A) → First p xs (find_index p xs)
  find_index-First p [] = (refl, refl)
  find_index-First p (y ∷ xs) = elim (Bool-cases (p y)) [
    | inl e ↦ rw e (y, refl, rw e, rw e)
    | inr e ↦ rw e (First-cons p y xs (find_index p xs) e (find_index-First p xs))
  ]

  pub keep-All : (p : A → Bool) (xs : List A) → All (λ x. p x ≡ true) (keep p xs)
  keep-All p [] = tt
  keep-All p (x ∷ xs) = elim (Bool-cases (p x)) [
    | inl e ↦ rw e (e, keep-All p xs)
    | inr e ↦ rw e (keep-All p xs)
  ]

  pub All-keep : (P : A → Type 0) (p : A → Bool) (xs : List A) → All P xs → All P (keep p xs)
  All-keep P p [] h = tt
  All-keep P p (x ∷ xs) h = elim (Bool-cases (p x)) [
    | inl e ↦ rw e (h.0, All-keep P p xs h.1)
    | inr e ↦ rw e (All-keep P p xs h.1)
  ]

  -- Writing another element that passes over the first one.
  abbrev pub Sets : (A → Bool) → List A → Option ℕ → Type 0
  Sets p xs none = Unit
  Sets p xs (some i) =
      (y : A)
      → p y ≡ true
      → (keep p (set xs i y) ≡ y ∷ keep p (arrdel xs i)) × (keep_not p (set xs i y) ≡ keep_not p xs)

  Sets-cons :
      (p : A → Bool) (x : A) (xs : List A) (o : Option ℕ)
      → p x ≡ false
      → Sets p xs o
      → Sets p (x ∷ xs) (elim o [ none ↦ none | some i ↦ some (suc i) ])
  Sets-cons p x xs none e s = tt
  Sets-cons p x xs (some i) e s = λ y pass. (rw e ((s y pass).0), rw e (ap (◌∷◌ x) (s y pass).1))

  pub find_index-Sets : (p : A → Bool) (xs : List A) → Sets p xs (find_index p xs)
  find_index-Sets p [] = tt
  find_index-Sets p (x ∷ xs) = elim (Bool-cases (p x)) [
    | inl e ↦ rw e (λ y pass. (rw pass, rw (pass, e)))
    | inr e ↦ rw e (Sets-cons p x xs (find_index p xs) e (find_index-Sets p xs))
  ]

  pub All-set : (P : A → Type 0) (xs : List A) (i : ℕ) (y : A) → P y → All P xs → All P (set xs i y)
  All-set P [] i y h hs = tt
  All-set P (x ∷ xs) zero y h hs = (h, hs.1)
  All-set P (x ∷ xs) (suc i) y h hs = (hs.0, All-set P xs i y h hs.1)

  pub All-arrdel : (P : A → Type 0) (xs : List A) (i : ℕ) → All P xs → All P (arrdel xs i)
  All-arrdel P [] i h = tt
  All-arrdel P (x ∷ xs) zero h = h.1
  All-arrdel P (x ∷ xs) (suc i) h = (h.0, All-arrdel P xs i h.1)
