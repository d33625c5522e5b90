-- ===== src/Memory/Matches.antt =====
-- Two calls that end alike: what the program does with its blocks, against what it computes.
use view_sync.Prelude.{◌≡◌, sym, subst}
use view_sync.Prelude.Outcome.{Outcome, done, exit, fault, spin, ◌>>=◌, Returns}
use view_sync.Prelude.Safe.{Safe, fine, left}

pub data Matches {A B : Type 0} (R : A → B → Type 0) : Outcome A → Outcome B → Type 0 where
  both : {a : A} {b : B} → R a b → Matches R (done a) (done b)
  ends : Matches R exit exit
  breaks : Matches R fault fault
  loops : Matches R spin spin

module _ {A B : Type 0} {R : A → B → Type 0} where
  pub Matches-bind :
      {C D : Type 0} {S : C → D → Type 0} {m : Outcome A} {n : Outcome B} {f : A → Outcome C}
      {g : B → Outcome D}
      → Matches R m n
      → ((a : A) (b : B) → R a b → Matches S (f a) (g b))
      → Matches S (m >>= f) (n >>= g)
  Matches-bind (both r) k = k _ _ r
  Matches-bind ends k = ends
  Matches-bind breaks k = breaks
  Matches-bind loops k = loops

  -- The same where the second side makes no other call.
  pub Matches-last_step :
      {C : Type 0} {S : C → B → Type 0} {m : Outcome A} {n : Outcome B} {f : A → Outcome C}
      → Matches R m n
      → ((a : A) (b : B) → R a b → Matches S (f a) (done b))
      → Matches S (m >>= f) n
  Matches-last_step (both r) k = k _ _ r
  Matches-last_step ends k = ends
  Matches-last_step breaks k = breaks
  Matches-last_step loops k = loops

  -- A call that both sides make.
  pub Matches-same :
      {C : Type 0} (m : Outcome C) {f : C → Outcome A} {g : C → Outcome B}
      → ((c : C) → Matches R (f c) (g c))
      → Matches R (m >>= f) (m >>= g)
  Matches-same (done c) k = k c
  Matches-same exit k = ends
  Matches-same fault k = breaks
  Matches-same spin k = loops

  -- A call that only moves blocks, and always returns.
  pub Matches-heap :
      {C : Type 0} {P : C → Type 0} {m : Outcome C} {f : C → Outcome A} {n : Outcome B}
      → Returns P m
      → ((c : C) → P c → Matches R (f c) n)
      → Matches R (m >>= f) n
  Matches-heap {f = f} {n = n} (c, e, p) k = subst (λ z. Matches R (z >>= f) n) (sym e) (k c p)

  pub Matches-as : {m : Outcome A} {n n' : Outcome B} → n ≡ n' → Matches R m n → Matches R m n'
  Matches-as {m = m} e h = subst (Matches R m) e h

  -- What the second call does not do the first does not do.
  pub Matches-Safe :
      {P : B → Type 0} {m : Outcome A} {n : Outcome B}
      → Matches R m n
      → Safe P n
      → Safe (λ a. (b : B) × R a b × P b) m
  Matches-Safe (both r) (fine p) = fine (_, r, p)
  Matches-Safe ends left = left
  Matches-Safe breaks s = elim s [ ]
  Matches-Safe loops s = elim s [ ]

pub Matches-map :
    {A B : Type 0} {R S : A → B → Type 0} {m : Outcome A} {n : Outcome B}
    → ((a : A) (b : B) → R a b → S a b)
    → Matches R m n
    → Matches S m n
Matches-map k (both r) = both (k _ _ r)
Matches-map k ends = ends
Matches-map k breaks = breaks
Matches-map k loops = loops
