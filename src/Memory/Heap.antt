-- ===== src/Memory/Heap.antt =====
-- `calloc` and `free`, and what is said of the blocks that are allocated.
use view_sync.Prelude.{
  ℕ, zero, suc, ◌+◌, ◌≤◌, ◌<◌, ◌≡◌, refl, sym, ap, ◌∙◌, inl, inr, true, Bool-cases, Option, none,
  some, List, [], ◌∷◌, ◌++◌, get_elem?, arrdel, arrdelswap, last_or, init, set, exists_in, ◌==◌,
  if◌then◌else◌, arith, ==_iff,
}
use mathlib.Core.Option.{some-injective}
use view_sync.Prelude.Outcome.{Outcome, done, fault, Returns}

-- A block is known by its address. `next` has not been given out.
pub record Heap : Type 0 where
  pub next : ℕ
  pub live : List ℕ

abbrev pub without : ℕ → List ℕ → List ℕ
without a [] = []
without a (x ∷ xs) = if x == a then xs else x ∷ without a xs

-- Allocation succeeds.
abbrev pub calloc : Heap → ℕ × Heap
calloc h = (h.next, record { next = suc h.next; live = h.next ∷ h.live })

-- Freeing what is not allocated is undefined.
unfoldable pub free : Heap → ℕ → Outcome Heap
free h a =
    if exists_in (λ x. x == a) h.live then done (record h { live = without a h.live }) else fault

-- `if (p) free(p)`.
abbrev pub free_if : Heap → Option ℕ → Outcome Heap
free_if h none = done h
free_if h (some a) = free h a

-- Reading what is not allocated is undefined.
unfoldable pub reads : Heap → ℕ → Outcome Heap
reads h a = if exists_in (λ x. x == a) h.live then done h else fault

-- How often an address is among some.
abbrev pub one : ℕ → ℕ → ℕ
one x a = if x == a then 1 else 0

abbrev pub one_if : Option ℕ → ℕ → ℕ
one_if none a = 0
one_if (some x) a = one x a

-- How often it is in a list.
abbrev pub often : ℕ → List ℕ → ℕ
often b [] = 0
often b (y ∷ ys) = one y b + often b ys

-- Every address is allocated as often as is said, and at most once.
pub record Holds (h : Heap) (n : ℕ → ℕ) : Type 0 where
  pub same : (a : ℕ) → often a h.live ≡ n a
  pub once : (a : ℕ) → often a h.live ≤ 1
  pub fresh : (a : ℕ) → h.next ≤ a → often a h.live ≡ 0

pub Holds-as : (h : Heap) (n k : ℕ → ℕ) → ((a : ℕ) → n a ≡ k a) → Holds h n → Holds h k
Holds-as h n k e holds = record {
  same = λ a. holds.same a ∙ e a;
  once = holds.once;
  fresh = holds.fresh;
}

pub calloc-Holds :
    (h : Heap) (n : ℕ → ℕ) → Holds h n → Holds (calloc h).1 (λ a. one (calloc h).0 a + n a)
calloc-Holds h n holds = record {
  same = λ a. omega (arith, holds.same a);
  once = λ a. ground (arith, holds.once a, holds.fresh a);
  fresh = λ a far. ground (arith, holds.fresh a (omega arith));
}

pub exists-often : (a : ℕ) (xs : List ℕ) → 0 < often a xs → exists_in (λ x. x == a) xs ≡ true
exists-often a [] h = absurd (omega arith)
exists-often a (x ∷ xs) h = ground (arith, exists-often a xs)

often-without :
    (a b : ℕ) (xs : List ℕ) → 0 < often a xs → one a b + often b (without a xs) ≡ often b xs
often-without a b [] h = absurd (omega arith)
often-without a b (x ∷ xs) h = elim (Bool-cases (x == a)) [
  | inl e ↦ rw (e, (==_iff x a).0 e) refl
  | inr e ↦ rw e (omega (arith, often-without a b xs (ground arith)))
]

pub free-Holds :
    (h : Heap) (a : ℕ) (n : ℕ → ℕ)
    → Holds h (λ b. one a b + n b)
    → Returns (λ h'. Holds h' n) (free h a)
unfolding free
free-Holds h a n holds =
    let there : 0 < often a h.live = ground (arith, holds.same a) in
    (
      record h { live = without a h.live },
      rw (exists-often a h.live there),
      record {
        same = λ b. omega (arith, holds.same b, often-without a b h.live there);
        once = λ b. omega (arith, holds.once b, often-without a b h.live there);
        fresh = λ b far. omega (arith, holds.fresh b far, often-without a b h.live there);
      },
    )

pub free_if-Holds :
    (h : Heap) (o : Option ℕ) (n : ℕ → ℕ)
    → Holds h (λ b. one_if o b + n b)
    → Returns (λ h'. Holds h' n) (free_if h o)
free_if-Holds h none n holds = (h, refl, Holds-as h _ n (λ b. omega arith) holds)
free_if-Holds h (some a) n holds = free-Holds h a n holds

pub reads-Holds :
    (h : Heap) (a : ℕ) (n : ℕ → ℕ) → 0 < n a → Holds h n → Returns (λ h'. Holds h' n) (reads h a)
unfolding reads
reads-Holds h a n there holds =
    (h, rw (exists-often a h.live (omega (arith, holds.same a, there))), holds)

-- How often an address is in the elements of a list.
module _ {A : Type 0} (f : A → ℕ → ℕ) (a : ℕ) where
  abbrev pub total : List A → ℕ
  total [] = 0
  total (x ∷ xs) = f x a + total xs

  pub total-append : (xs ys : List A) → total (xs ++ ys) ≡ total xs + total ys
  total-append [] ys = omega arith
  total-append (x ∷ xs) ys = omega (arith, total-append xs ys)

  pub total-arrdel :
      (xs : List A) (i : ℕ) (x : A)
      → get_elem? xs i ≡ some x
      → f x a + total (arrdel xs i) ≡ total xs
  total-arrdel [] i x e = cc
  total-arrdel (y ∷ ys) zero x e = ap (λ z. f z a + total ys) (sym (some-injective y x e))
  total-arrdel (y ∷ ys) (suc i) x e = omega (arith, total-arrdel ys i x e)

  total-init : (y : A) (ys : List A) → f (last_or y ys) a + total (init (y ∷ ys)) ≡ total (y ∷ ys)
  total-init y [] = refl
  total-init y (z ∷ zs) = omega (arith, total-init z zs)

  pub total-arrdelswap :
      (xs : List A) (i : ℕ) (x : A)
      → get_elem? xs i ≡ some x
      → f x a + total (arrdelswap xs i) ≡ total xs
  total-arrdelswap [] i x e = cc
  total-arrdelswap (y ∷ []) zero x e = ap (λ z. f z a + 0) (sym (some-injective y x e))
  total-arrdelswap (y ∷ []) (suc i) x e = cc
  total-arrdelswap (y ∷ z ∷ zs) zero x e =
      omega (arith, total-init z zs, ap (λ w. f w a) (some-injective y x e))
  total-arrdelswap (y ∷ z ∷ zs) (suc i) x e = omega (arith, total-arrdelswap (z ∷ zs) i x e)

  pub total-set :
      (xs : List A) (i : ℕ) (x y : A)
      → get_elem? xs i ≡ some x
      → f y a ≡ f x a
      → total (set xs i y) ≡ total xs
  total-set [] i x y e same = cc
  total-set (z ∷ zs) zero x y e same = omega (arith, same, ap (λ w. f w a) (some-injective z x e))
  total-set (z ∷ zs) (suc i) x y e same = omega (arith, total-set zs i x y e same)
