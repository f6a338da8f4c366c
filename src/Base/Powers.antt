-- ===== src/Base/Powers.antt =====
-- The test `n & (n - 1) == 0` finds the powers of two.
use Prim.Native.Nat.{ℕ, zero, suc, ◌+◌, ◌-◌, ◌*◌, ◌/◌, ◌^◌, ◌≤◌, ◌<◌, bit_and}
use mathlib.Core.Logic.{◌⊎◌, inl, inr}
use mathlib.Core.Path.{◌≡◌, refl}
use native.Mathlib.Nat.{pow-suc}
use native.Mathlib.Omega.{arith}
use ticklog.Base.Bits.{bit_and-halves}

bit_and_self_fuel : (n a : ℕ) → a ≤ n → bit_and a a ≡ a
bit_and_self_fuel n zero h = refl
bit_and_self_fuel zero (suc a) h = absurd (omega arith)
bit_and_self_fuel (suc n) (suc a) h =
    omega (arith, bit_and-halves (suc a) (suc a), bit_and_self_fuel n (suc a / 2) (omega arith))

parity : (n : ℕ) → (n ≡ 2 * (n / 2)) ⊎ (n ≡ 2 * (n / 2) + 1)
parity n = ground arith

power_of_two_fuel : (f n : ℕ) → n ≤ f → 0 < n → bit_and n (n - 1) ≡ 0 → (k : ℕ) × (n ≡ 2 ^ k)
power_of_two_fuel zero n h pos e = absurd (omega arith)
power_of_two_fuel (suc f) n h pos e = elim (parity n) [
  | inl even ↦
      let (k, p) = power_of_two_fuel f (n / 2) (omega arith) (omega arith) (half (n / 2) even) in
      (suc k, omega (arith, pow-suc 2 k))
  | inr odd ↦ (0, one (n / 2) odd)
]
  where
    half : (m : ℕ) → n ≡ 2 * m → bit_and m (m - 1) ≡ 0
    half m even =
        let a : n / 2 ≡ m = omega arith in
        let b : (n - 1) / 2 ≡ m - 1 = omega arith in
        omega (arith, rw (a, b) at (bit_and-halves n (n - 1)))

    one : (m : ℕ) → n ≡ 2 * m + 1 → n ≡ 2 ^ 0
    one m odd =
        let a : n / 2 ≡ m = omega arith in
        let b : (n - 1) / 2 ≡ m = omega arith in
        omega (arith, rw (a, b) at (bit_and-halves n (n - 1)), bit_and_self_fuel m m (omega arith))

pub power_of_two : (n : ℕ) → 0 < n → bit_and n (n - 1) ≡ 0 → (k : ℕ) × (n ≡ 2 ^ k)
power_of_two n pos e = power_of_two_fuel n n (omega arith) pos e
