-- ===== src/Prelude/Deleting.antt =====
-- What `arrdelswap` leaves of a list: all but the deleted element, in another order.
use mathlib.Core.List.{Perm}
use mathlib.Core.List.Perm
use mathlib.Core.Option.{some-injective}
use view_sync.Prelude.{
  ℕ, zero, suc, ◌≡◌, subst, some, List, [], ◌∷◌, get_elem?, arrdelswap, init, last_or,
}

module _ {A : Type 0} where
  last-first : (x : A) (xs : List A) → Perm (last_or x xs ∷ init (x ∷ xs)) (x ∷ xs)
  last-first x [] = Perm.refl (x ∷ [])
  last-first x (y ∷ ys) =
      Perm.trans (Perm.swap x (last_or y ys) (init (y ∷ ys))) (Perm.cons x (last-first y ys))

  pub arrdelswap-Perm :
      (xs : List A) (i : ℕ) (x : A) → get_elem? xs i ≡ some x → Perm (x ∷ arrdelswap xs i) xs
  arrdelswap-Perm [] i x e = cc
  arrdelswap-Perm (y ∷ []) zero x e =
      subst (λ z. Perm (z ∷ []) (y ∷ [])) (some-injective y x e) (Perm.refl (y ∷ []))
  arrdelswap-Perm (y ∷ []) (suc i) x e = cc
  arrdelswap-Perm (y ∷ z ∷ ys) zero x e =
      subst (λ w. Perm (w ∷ last_or z ys ∷ init (z ∷ ys)) (y ∷ z ∷ ys)) (some-injective y x e)
        (Perm.cons y (last-first z ys))
  arrdelswap-Perm (y ∷ z ∷ ys) (suc i) x e =
      Perm.trans (Perm.swap y x (arrdelswap (z ∷ ys) i))
        (Perm.cons y (arrdelswap-Perm (z ∷ ys) i x e))
