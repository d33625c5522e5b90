-- ===== src/Prelude/Outcome.antt =====
-- `Result` of include/result.h and src/result.c, and how a call ends.
use view_sync.Prelude.{Option, none, some, ◌≡◌, sym, subst}

-- `struct Result`: the value, or the error. The text of an error is its number in `Error`.
pub data Error : Type 0 where
  invalid_arguments no_peers invalid_payload null_bytes invalid_length null_address : Error
  invalid_ipv4 invalid_size no_socket no_bind : Error

pub data Result {ℓ} (A : Type ℓ) : Type ℓ where
  result_ok : A → Result A
  result_err : Error → Result A

-- A call returns, ends the process (`exit` in `_result_unwrap`), meets undefined behaviour, or
-- runs out of the fuel that the model gives to its loop.
pub data Outcome {ℓ} (A : Type ℓ) : Type ℓ where
  done : A → Outcome A
  exit : Outcome A
  fault : Outcome A
  spin : Outcome A

infixl 5 ◌>>=◌
abbrev pub ◌>>=◌ {ℓ κ} : {A : Type ℓ} {B : Type κ} → Outcome A → (A → Outcome B) → Outcome B
done a >>= f = f a
exit >>= f = exit
fault >>= f = fault
spin >>= f = spin

-- `_result_unwrap` and `_result_expect`.
abbrev pub result_unwrap {ℓ} : {A : Type ℓ} → Result A → Outcome A
result_unwrap (result_ok a) = done a
result_unwrap (result_err e) = exit

-- A read through a null pointer or out of bounds.
abbrev pub deref {ℓ} : {A : Type ℓ} → Option A → Outcome A
deref none = fault
deref (some a) = done a

-- What holds of the value, if the call returns one.
pub data Ensures {ℓ κ} {A : Type ℓ} (P : A → Type κ) : Outcome A → Type (ℓ ⊔ κ) where
  returned : {a : A} → P a → Ensures P (done a)
  exited : Ensures P exit
  faulted : Ensures P fault
  spun : Ensures P spin

pub Ensures-elim {ℓ κ} : {A : Type ℓ} {P : A → Type κ} {a : A} → Ensures P (done a) → P a
Ensures-elim (returned p) = p

pub Ensures-bind {ℓ κ μ ν} :
    {A : Type ℓ} {B : Type κ} {Q : A → Type μ} {P : B → Type ν} {m : Outcome A} {f : A → Outcome B}
    → Ensures Q m
    → ((a : A) → Q a → Ensures P (f a))
    → Ensures P (m >>= f)
Ensures-bind (returned q) k = k _ q
Ensures-bind exited k = exited
Ensures-bind faulted k = faulted
Ensures-bind spun k = spun

-- The same where nothing is known of the first call's value.
pub Ensures-then {ℓ κ ν} :
    {A : Type ℓ} {B : Type κ} {P : B → Type ν} (m : Outcome A) {f : A → Outcome B}
    → ((a : A) → Ensures P (f a))
    → Ensures P (m >>= f)
Ensures-then (done a) k = k a
Ensures-then exit k = exited
Ensures-then fault k = faulted
Ensures-then spin k = spun

pub Ensures-map {ℓ κ μ} :
    {A : Type ℓ} {P : A → Type κ} {Q : A → Type μ} {m : Outcome A}
    → ((a : A) → P a → Q a)
    → Ensures P m
    → Ensures Q m
Ensures-map f (returned p) = returned (f _ p)
Ensures-map f exited = exited
Ensures-map f faulted = faulted
Ensures-map f spun = spun

-- The call returns, and its value has the property.
abbrev pub Returns {ℓ κ} : {A : Type ℓ} → (A → Type κ) → Outcome A → Type (ℓ ⊔ κ)
Returns P m = (a : _) × (m ≡ done a) × P a

pub Returns-bind {ℓ κ μ ν} :
    {A : Type ℓ} {B : Type κ} {Q : A → Type μ} {P : B → Type ν} {m : Outcome A} {f : A → Outcome B}
    → Returns Q m
    → ((a : A) → Q a → Returns P (f a))
    → Returns P (m >>= f)
Returns-bind {P = P} {f = f} (a, e, q) k = subst (λ n. Returns P (n >>= f)) (sym e) (k a q)

pub Returns-map {ℓ κ ν} :
    {A : Type ℓ} {Q : A → Type κ} {P : A → Type ν} {m : Outcome A}
    → ((a : A) → Q a → P a)
    → Returns Q m
    → Returns P m
Returns-map k (a, e, q) = (a, e, k a q)
