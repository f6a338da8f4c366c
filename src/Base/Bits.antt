-- ===== src/Base/Bits.antt =====
-- `&` with a mask of low or of high bits, as arithmetic.
use Prim.Native.Nat.{
  ℕ, zero, suc, ◌+◌, ◌-◌, ◌*◌, ◌/◌, ◌%◌, ◌^◌, ◌≤◌, ◌<◌, min, max, bit_and, bit_or, digits, bitwise,
  bit_and-bitwise, bit_or-bitwise,
}
use mathlib.Core.Path.{◌≡◌, refl, ap, ◌∙◌}
use native.Mathlib.Nat.{
  pow-suc, one-le-pow, mul-add-mod_self_right, mod-eq_of_lt, div-add-mod', mod-lt,
}
use native.Mathlib.Omega.{arith}

module _ (z : ℕ → ℕ) (f : ℕ → ℕ → ℕ) where
  -- Any number of rounds from the first operand up gives the same digits.
  enough_rounds :
      (bound a rounds y : ℕ) → a ≤ bound → a ≤ rounds → digits z f rounds a y ≡ bitwise z f a y
  enough_rounds bound zero zero y small enough = refl
  enough_rounds bound zero (suc rounds) y small enough = refl
  enough_rounds zero (suc a) rounds y small enough = absurd (omega arith)
  enough_rounds (suc bound) (suc a) zero y small enough = absurd (omega arith)
  enough_rounds (suc bound) (suc a) (suc rounds) y small enough = omega (
    arith,
    enough_rounds bound (suc a / 2) a (y / 2) (omega arith) (omega arith),
    enough_rounds bound (suc a / 2) rounds (y / 2) (omega arith) (omega arith),
  )

  lowest_digit :
      (a y : ℕ)
      → bitwise z f (suc a) y ≡ bitwise z f (suc a / 2) (y / 2) * 2 + f (suc a % 2) (y % 2)
  lowest_digit a y =
      omega (arith, enough_rounds a (suc a / 2) a (y / 2) (omega arith) (omega arith))

-- `&` and `|` one binary digit at a time
pub bit_and-halves : (a b : ℕ) → bit_and a b ≡ bit_and (a / 2) (b / 2) * 2 + min (a % 2) (b % 2)
bit_and-halves zero b = omega (arith, bit_and-bitwise 0 b, bit_and-bitwise 0 (b / 2))
bit_and-halves (suc a) b = omega (
  arith,
  lowest_digit (λ y. 0) min a b,
  bit_and-bitwise (suc a / 2) (b / 2),
  bit_and-bitwise (suc a) b,
)

pub bit_or-halves : (a b : ℕ) → bit_or a b ≡ bit_or (a / 2) (b / 2) * 2 + max (a % 2) (b % 2)
bit_or-halves zero b = omega (arith, bit_or-bitwise 0 b, bit_or-bitwise 0 (b / 2))
bit_or-halves (suc a) b = omega (
  arith,
  lowest_digit (λ y. y) max a b,
  bit_or-bitwise (suc a / 2) (b / 2),
  bit_or-bitwise (suc a) b,
)

no_digits : (rounds a : ℕ) → digits (λ y. 0) min rounds a 0 ≡ 0
no_digits zero a = refl
no_digits (suc rounds) zero = refl
no_digits (suc rounds) (suc a) = omega (arith, no_digits rounds (suc a / 2))

-- Numbers without a common digit: `|` with a number below the shifted one is a sum.
pub bit_or_disjoint : (k a b : ℕ) → a < 2 ^ k → bit_or a (b * 2 ^ k) ≡ a + b * 2 ^ k
bit_or_disjoint zero a b h =
    let none : a ≡ 0 = omega arith in
    let same : b * 2 ^ 0 ≡ b = omega arith in rw (none, same) (omega (arith, bit_or-bitwise 0 b))
bit_or_disjoint (suc k) a b h =
    let p : ℕ = 2 ^ k in
    let e : b * 2 ^ suc k ≡ b * p * 2 = rw (pow-suc 2 k) (omega arith) in
    let twice : 2 ^ suc k ≡ 2 * p = omega (arith, pow-suc 2 k) in
    let half : b * p * 2 / 2 ≡ b * p = omega arith in
    rw e (
      omega (
        arith,
        rw half at (bit_or-halves a (b * p * 2)),
        bit_or_disjoint k (a / 2) b (omega arith),
      ))

-- A remainder is found by writing the number as a multiple and a rest.
pub mod_of_rest : (a q m r : ℕ) → a ≡ q * m + r → r < m → a % m ≡ r
mod_of_rest a q m r e h = ap (λ t. t % m) e ∙ mul-add-mod_self_right q m r ∙ mod-eq_of_lt h

mod_double : (a p : ℕ) → 0 < p → a % (2 * p) ≡ (a / 2 % p) * 2 + a % 2
mod_double a p h =
    mod_of_rest a (a / 2 / p) (2 * p) (a / 2 % p * 2 + a % 2)
      (omega (arith, div-add-mod' (a / 2) p)) (omega (arith, mod-lt (a / 2) h))

-- `x & (2^k - 1)` is the remainder by `2^k`.
pub bit_and-low_mask : (k a : ℕ) → bit_and a (2 ^ k - 1) ≡ a % 2 ^ k
bit_and-low_mask zero a = omega (arith, bit_and-bitwise a 0, no_digits a a)
bit_and-low_mask (suc k) a =
    let p : ℕ = 2 ^ k in
    let pos : 0 < p = one-le-pow k 2 (omega arith) in
    let twice : 2 ^ suc k ≡ 2 * p = omega (arith, pow-suc 2 k) in
    let half : (2 ^ suc k - 1) / 2 ≡ p - 1 = omega arith in
    let odd : (2 ^ suc k - 1) % 2 ≡ 1 = omega arith in
    bit_and-halves a (2 ^ suc k - 1)
    ∙ rw (half, odd, bit_and-low_mask k (a / 2), twice) (omega (arith, mod_double a p pos))

-- `x & !63` on 64 bits clears the six low bits.
pub bit_and-high_mask : (a : ℕ) → a < 2 ^ 64 → bit_and a (2 ^ 64 - 64) ≡ a / 64 * 64
bit_and-high_mask a h = omega (
  arith,
  bit_and-halves a (2 ^ 64 - 64),
  bit_and-halves (a / 2) (2 ^ 63 - 32),
  bit_and-halves (a / 2 / 2) (2 ^ 62 - 16),
  bit_and-halves (a / 2 / 2 / 2) (2 ^ 61 - 8),
  bit_and-halves (a / 2 / 2 / 2 / 2) (2 ^ 60 - 4),
  bit_and-halves (a / 2 / 2 / 2 / 2 / 2) (2 ^ 59 - 2),
  bit_and-low_mask 58 (a / 2 / 2 / 2 / 2 / 2 / 2),
)
