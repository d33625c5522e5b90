-- ===== src/Prelude/Safe.antt =====
-- A call that returns or ends the process, and neither meets undefined behaviour nor runs out of
-- fuel.
use view_sync.Prelude.{sym, subst}
use view_sync.Prelude.Outcome.{Outcome, done, exit, fault, spin, ◌>>=◌, Returns}

pub data Safe {ℓ κ} {A : Type ℓ} (P : A → Type κ) : Outcome A → Type (ℓ ⊔ κ) where
  fine : {a : A} → P a → Safe P (done a)
  left : Safe P exit

pub Safe-elim {ℓ κ} : {A : Type ℓ} {P : A → Type κ} {a : A} → Safe P (done a) → P a
Safe-elim (fine p) = p

pub Safe-bind {ℓ κ μ ν} :
    {A : Type ℓ} {B : Type κ} {Q : A → Type μ} {P : B → Type ν} {m : Outcome A} {f : A → Outcome B}
    → Safe Q m
    → ((a : A) → Q a → Safe P (f a))
    → Safe P (m >>= f)
Safe-bind (fine q) k = k _ q
Safe-bind left k = left

pub Safe-map {ℓ κ ν} :
    {A : Type ℓ} {Q : A → Type κ} {P : A → Type ν} {m : Outcome A}
    → ((a : A) → Q a → P a)
    → Safe Q m
    → Safe P m
Safe-map k (fine q) = fine (k _ q)
Safe-map k left = left

pub Returns-Safe {ℓ κ} : {A : Type ℓ} {P : A → Type κ} {m : Outcome A} → Returns P m → Safe P m
Returns-Safe {P = P} (a, e, p) = subst (Safe P) (sym e) (fine p)

-- What a safe call does not do.
pub Safe-no_fault {ℓ κ} : {A : Type ℓ} {P : A → Type κ} → ¬ Safe P fault
Safe-no_fault h = elim h [ ]

pub Safe-no_spin {ℓ κ} : {A : Type ℓ} {P : A → Type κ} → ¬ Safe P spin
Safe-no_spin h = elim h [ ]
