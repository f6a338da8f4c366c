-- ===== src/Words.antt =====
-- Machine words as native numbers: wrap-around on 64 bits, and little-endian bytes
-- (Rust's `wrapping_add`, `wrapping_sub`, `to_le_bytes` and `from_le_bytes`).
use native.Mathlib.Nat.{pow-suc}
use ticklog.Base.{
  ℕ, zero, suc, ◌+◌, ◌-◌, ◌*◌, ◌/◌, ◌%◌, ◌^◌, ◌<◌, ◌≡◌, refl, ap, arith, [], ◌∷◌, Bytes, length,
}

abbrev pub u16_mod : ℕ
u16_mod = 2 ^ 16

abbrev pub u64_mod : ℕ
u64_mod = 2 ^ 64

-- `wrapping_add` and `wrapping_sub` on u64
abbrev pub wrapping_add : ℕ → ℕ → ℕ
wrapping_add a b = (a + b) % u64_mod

abbrev pub wrapping_sub : ℕ → ℕ → ℕ
wrapping_sub a b = (a + u64_mod - b) % u64_mod

-- the `n` low bytes of a word, least significant first
abbrev pub to_le_bytes : ℕ → ℕ → Bytes
to_le_bytes zero v = []
to_le_bytes (suc n) v = (v % 256) ∷ to_le_bytes n (v / 256)

abbrev pub from_le_bytes : Bytes → ℕ
from_le_bytes [] = 0
from_le_bytes (b ∷ bs) = b + 256 * from_le_bytes bs

pub length-to_le_bytes : (n v : ℕ) → length (to_le_bytes n v) ≡ n
length-to_le_bytes zero v = refl
length-to_le_bytes (suc n) v = ap suc (length-to_le_bytes n (v / 256))

-- Reading back the bytes of a word that fits gives the word.
pub from_le_bytes-to_le_bytes : (n v : ℕ) → v < 256 ^ n → from_le_bytes (to_le_bytes n v) ≡ v
from_le_bytes-to_le_bytes zero v h = omega arith
from_le_bytes-to_le_bytes (suc n) v h =
    let p : ℕ = 256 ^ n in
    let e : 256 ^ suc n ≡ 256 * p = omega (arith, pow-suc 256 n) in
    omega (arith, from_le_bytes-to_le_bytes n (v / 256) (omega arith))
