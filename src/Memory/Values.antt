-- ===== src/Memory/Values.antt =====
-- Arrays of pointers and the arrays of what they point to, under the operations on arrays.
use view_sync.Prelude.{
  ℕ, zero, suc, ◌≡◌, refl, ap, inl, inr, Bool, Bool-cases, none, some, List, [], ◌∷◌, map, length,
  get_elem?, set, arrdel, arrdelswap, last_or, init, keep,
}

module _ {A B : Type 0} (f : A → B) where
  pub length-map : (xs : List A) → length (map f xs) ≡ length xs
  length-map [] = refl
  length-map (x ∷ xs) = ap suc (length-map xs)

  pub get_elem?-map-some :
      (xs : List A) (i : ℕ) (x : A) → get_elem? xs i ≡ some x → get_elem? (map f xs) i ≡ some (f x)
  get_elem?-map-some [] i x e = cc
  get_elem?-map-some (y ∷ ys) zero x e = cc
  get_elem?-map-some (y ∷ ys) (suc i) x e = get_elem?-map-some ys i x e

  pub get_elem?-map-none :
      (xs : List A) (i : ℕ) → get_elem? xs i ≡ none → get_elem? (map f xs) i ≡ none
  get_elem?-map-none [] i e = refl
  get_elem?-map-none (y ∷ ys) zero e = cc
  get_elem?-map-none (y ∷ ys) (suc i) e = get_elem?-map-none ys i e

  pub map-arrdel : (xs : List A) (i : ℕ) → map f (arrdel xs i) ≡ arrdel (map f xs) i
  map-arrdel [] i = refl
  map-arrdel (x ∷ xs) zero = refl
  map-arrdel (x ∷ xs) (suc i) = ap (◌∷◌ (f x)) (map-arrdel xs i)

  last-map : (x : A) (xs : List A) → f (last_or x xs) ≡ last_or (f x) (map f xs)
  last-map x [] = refl
  last-map x (y ∷ xs) = last-map y xs

  init-map : (x : A) (xs : List A) → map f (init (x ∷ xs)) ≡ init (f x ∷ map f xs)
  init-map x [] = refl
  init-map x (y ∷ xs) = ap (◌∷◌ (f x)) (init-map y xs)

  pub map-arrdelswap : (xs : List A) (i : ℕ) → map f (arrdelswap xs i) ≡ arrdelswap (map f xs) i
  map-arrdelswap [] i = refl
  map-arrdelswap (x ∷ []) i = refl
  map-arrdelswap (x ∷ y ∷ xs) zero = rw (last-map y xs, init-map y xs) refl
  map-arrdelswap (x ∷ y ∷ xs) (suc i) = ap (◌∷◌ (f x)) (map-arrdelswap (y ∷ xs) i)

  pub map-set : (xs : List A) (i : ℕ) (x : A) → map f (set xs i x) ≡ set (map f xs) i (f x)
  map-set [] i x = refl
  map-set (y ∷ xs) zero x = refl
  map-set (y ∷ xs) (suc i) x = ap (◌∷◌ (f y)) (map-set xs i x)

  pub map-keep : (p : B → Bool) (xs : List A) → map f (keep (λ x. p (f x)) xs) ≡ keep p (map f xs)
  map-keep p [] = refl
  map-keep p (x ∷ xs) = elim (Bool-cases (p (f x))) [
    | inl e ↦ rw e (ap (◌∷◌ (f x)) (map-keep p xs))
    | inr e ↦ rw e (map-keep p xs)
  ]
