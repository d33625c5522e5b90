-- ===== src/Member/Start.antt =====
-- What `cbc_init` of src/cbcast/init.c returns.
use view_sync.Prelude.{
  ℕ, zero, suc, ◌<◌, ◌≡◌, refl, subst, inl, inr, Bool, true, false, Bool-cases, length, leb,
  replicate, ◌==◌, get_or, arith,
}
use view_sync.Prelude.Outcome.{done, Result, result_ok, result_err}
use view_sync.Prelude.Safe.{Safe, fine, Safe-elim}
use view_sync.State.{Cbcast}
use view_sync.Init.{cbc_init, fresh, opened}
use view_sync.Member.{Promises, IsHealthy}

length-replicate : (n : ℕ) → length (replicate {A = ℕ} n 0) ≡ n
length-replicate zero = refl
length-replicate (suc n) = omega (arith, length-replicate n)

pub get_or-replicate : (n p : ℕ) → get_or {A = ℕ} (replicate n 0) p 0 ≡ 0
get_or-replicate zero p = refl
get_or-replicate (suc n) zero = refl
get_or-replicate (suc n) (suc p) = get_or-replicate n p

-- The member that a successful call returns.
abbrev pub Opens : ℕ → ℕ → Result Cbcast → Type 0
Opens pid max_p (result_err e) = Unit
Opens pid max_p (result_ok cbc) = (cbc ≡ fresh pid (replicate max_p 0)) × (pid < max_p)

opened-Opens :
    (socket_ok bind_ok : Bool) (pid max_p : ℕ)
    → pid < max_p
    → Opens pid max_p (opened socket_ok bind_ok (fresh pid (replicate max_p 0)))
opened-Opens false bind_ok pid max_p h = tt
opened-Opens true false pid max_p h = tt
opened-Opens true true pid max_p h = (refl, h)

pub cbc_init-Opens :
    (socket_ok : Bool) (bind_ok : ℕ → Bool) (pid max_p port : ℕ)
    → Safe (Opens pid max_p) (cbc_init socket_ok bind_ok pid max_p port)
unfolding cbc_init
cbc_init-Opens socket_ok bind_ok pid max_p port = elim (Bool-cases (max_p == 0)) [
  | inl e ↦ rw e (fine tt)
  | inr e ↦ rw e (elim (Bool-cases (leb max_p pid)) [
    | inl z ↦ rw z (fine tt)
    | inr z ↦ rw z (fine (opened-Opens socket_ok (bind_ok port) pid max_p (ground arith)))
  ])
]

pub cbc_init_opens :
    (socket_ok : Bool) (bind_ok : ℕ → Bool) (pid max_p port : ℕ) (cbc : Cbcast)
    → cbc_init socket_ok bind_ok pid max_p port ≡ done (result_ok cbc)
    → (cbc ≡ fresh pid (replicate max_p 0)) × (pid < max_p)
cbc_init_opens socket_ok bind_ok pid max_p port cbc e =
    Safe-elim (subst (Safe (Opens pid max_p)) e (cbc_init-Opens socket_ok bind_ok pid max_p port))

-- A member that has only been initialised is well formed, whatever is to hold of it.
pub fresh-IsHealthy :
    (w : Promises) (max_p : ℕ)
    → w.self < max_p
    → w.Own 0
    → IsHealthy w (fresh w.self (replicate max_p 0))
fresh-IsHealthy w max_p inside own = record {
  own = refl;
  inside = omega (arith, inside, length-replicate max_p);
  clock = rw (get_or-replicate max_p w.self) own;
  sound = record { known = tt; resendable = tt };
  outgoing = tt;
  held = tt;
  queue = tt;
}
