-- ===== src/Prelude/Bits.antt =====
-- The bits of a word, and `|` and `&` on them at every width.
use Prim.Native.Nat.{min, max, digits, bit_and, bit_or, bit_and-bitwise, bit_or-bitwise}
use native.Mathlib.Nat.{pow-zero, pow-suc, one-le-pow, pow-le-pow_right, mod-lt, le_trans}
use view_sync.Prelude.{
  ℕ, zero, suc, ◌+◌, ◌*◌, ◌/◌, ◌%◌, ◌^◌, ◌≤◌, ◌<◌, ◌≡◌, refl, ◌≢◌, ap, arith, ◌==◌, ltb,
  if◌then◌else◌,
}
use view_sync.Prelude.Outcome.{Outcome, done, fault}

-- Bit `j` of a word, 0 or 1.
abbrev pub bit : ℕ → ℕ → ℕ
bit a zero = a % 2
bit a (suc j) = bit (a / 2) j

-- `1 << n` on the 32-bit `int` of the literal. From 31 on the shift is undefined.
unfoldable pub shl_one : ℕ → Outcome ℕ
shl_one n = if ltb n 31 then done (2 ^ n) else fault

pub bit-zero : (j : ℕ) → bit 0 j ≡ 0
bit-zero zero = refl
bit-zero (suc j) = bit-zero j

pub bit-le : (a j : ℕ) → bit a j ≤ 1
bit-le a zero = omega arith
bit-le a (suc j) = bit-le (a / 2) j

or_digits-bit : (n a b j : ℕ) → a ≤ n → bit (digits (λ y. y) max n a b) j ≡ max (bit a j) (bit b j)
or_digits-bit zero zero b j h = omega (arith, bit-zero j)
or_digits-bit zero (suc a) b j h = absurd (omega arith)
or_digits-bit (suc n) zero b j h = omega (arith, bit-zero j)
or_digits-bit (suc n) (suc a) b zero h = omega arith
or_digits-bit (suc n) (suc a) b (suc j) h =
    let rest = digits (λ y. y) max n (suc a / 2) (b / 2) in
    let low = max (suc a % 2) (b % 2) in
    let half : (rest * 2 + low) / 2 ≡ rest = omega arith in
    omega (arith, ap (λ t. bit t j) half, or_digits-bit n (suc a / 2) (b / 2) j (omega arith))

and_digits-bit :
    (n a b j : ℕ) → a ≤ n → bit (digits (λ _. zero) min n a b) j ≡ min (bit a j) (bit b j)
and_digits-bit zero zero b j h = omega (arith, bit-zero j)
and_digits-bit zero (suc a) b j h = absurd (omega arith)
and_digits-bit (suc n) zero b j h = omega (arith, bit-zero j)
and_digits-bit (suc n) (suc a) b zero h = omega arith
and_digits-bit (suc n) (suc a) b (suc j) h =
    let rest = digits (λ _. zero) min n (suc a / 2) (b / 2) in
    let low = min (suc a % 2) (b % 2) in
    let half : (rest * 2 + low) / 2 ≡ rest = omega arith in
    omega (arith, ap (λ t. bit t j) half, and_digits-bit n (suc a / 2) (b / 2) j (omega arith))

pub bit-bit_or : (a b j : ℕ) → bit (bit_or a b) j ≡ max (bit a j) (bit b j)
bit-bit_or a b j = simp bit_or-bitwise (or_digits-bit a a b j (omega arith))

pub bit-bit_and : (a b j : ℕ) → bit (bit_and a b) j ≡ min (bit a j) (bit b j)
bit-bit_and a b j = simp bit_and-bitwise (and_digits-bit a a b j (omega arith))

pub bit-pow : (p j : ℕ) → bit (2 ^ p) j ≡ (if p == j then 1 else 0)
bit-pow zero zero = refl
bit-pow zero (suc j) = ground (arith, bit-zero j)
bit-pow (suc p) zero = ground (arith, pow-suc 2 p)
bit-pow (suc p) (suc j) =
    let half : 2 ^ suc p / 2 ≡ 2 ^ p = omega (arith, pow-suc 2 p) in
    ground (arith, ap (λ t. bit t j) half, bit-pow p j)

-- Words with the same bits are equal.
eq_of_bits_fuel : (n a b : ℕ) → a ≤ n → b ≤ n → ((j : ℕ) → bit a j ≡ bit b j) → a ≡ b
eq_of_bits_fuel zero a b p q same = omega arith
eq_of_bits_fuel (suc n) a b p q same = omega (
  arith,
  same 0,
  eq_of_bits_fuel n (a / 2) (b / 2) (omega arith) (omega arith) (λ j. same (suc j)),
)

pub eq_of_bits : (a b : ℕ) → ((j : ℕ) → bit a j ≡ bit b j) → a ≡ b
eq_of_bits a b same = eq_of_bits_fuel (a + b) a b (omega arith) (omega arith) same

-- `word & (1 << p)` is zero exactly when bit `p` is clear.
pub mask_clear : (a p : ℕ) → bit a p ≡ 0 → bit_and a (2 ^ p) ≡ 0
mask_clear a p h =
    eq_of_bits (bit_and a (2 ^ p)) 0
      λ j. ground (arith, bit-bit_and a (2 ^ p) j, bit-pow p j, bit-zero j, h, ap (bit a))

pub mask_set : (a p : ℕ) → bit a p ≡ 1 → bit_and a (2 ^ p) ≢ 0
mask_set a p h e =
    ground (arith, bit-bit_and a (2 ^ p) p, bit-pow p p, bit-zero p, ap (λ t. bit t p) e)

-- A word below `2 ^ j` has no bit `j`.
pub bit_small : (a j : ℕ) → a < 2 ^ j → bit a j ≡ 0
bit_small a zero h = ground (arith, pow-zero 2)
bit_small a (suc j) h = bit_small (a / 2) j (omega (arith, pow-suc 2 j))

pub bit-high : (a w j : ℕ) → w ≤ j → bit (a % 2 ^ w) j ≡ 0
bit-high a w j h =
    bit_small (a % 2 ^ w) j
      (le_trans (mod-lt a (one-le-pow w 2 (omega arith))) (pow-le-pow_right (omega arith) h))
