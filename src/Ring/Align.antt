-- ===== src/Ring/Align.antt =====
-- What `align_up` and the index mask compute.
use ticklog.Base.{
  ℕ, ◌+◌, ◌-◌, ◌*◌, ◌/◌, ◌%◌, ◌^◌, ◌≤◌, ◌<◌, ◌≡◌, arith, bit_and, bit_and-low_mask,
  bit_and-high_mask, Bool-cases, inl, inr,
}
use ticklog.Ring.{Ring, slot_size, max_record_size, align_up, remaining_phys, wraps, needed_for}
use ticklog.Words.{u64_mod}

-- the bytes that a record of `n` bytes takes up
abbrev pub slots : ℕ → ℕ
slots n = (n + 63) / 64 * 64

-- Short of the end of u64, rounding up to a slot is the least multiple of 64 that is not below.
pub align_up-slots : (n : ℕ) → n + 63 < u64_mod → align_up n slot_size ≡ slots n
unfolding align_up
align_up-slots n h = omega (arith, bit_and-high_mask ((n + 63) % 2 ^ 64) (omega arith))

-- On a ring of 2^k bytes `position & mask` is the remainder by the capacity.
pub mask-mod :
    (capacity mask k x : ℕ) → capacity ≡ 2 ^ k → mask ≡ capacity - 1 → bit_and x mask ≡ x % capacity
mask-mod capacity mask k x e m = rw (m, e) (bit_and-low_mask k x)

-- A write never asks for more than the record's slots and a filler shorter than those.
pub needed_for-le : (r : Ring) (n : ℕ) → n ≤ max_record_size → needed_for r n ≤ 2 * slots n
needed_for-le r n h =
    let e = align_up-slots n (omega arith) in
    elim (Bool-cases (wraps r n)) [
      | inl w ↦
          let short : remaining_phys r < align_up n slot_size = ground arith in
          rw w (omega (arith, e))
      | inr w ↦ rw w (omega (arith, e))
    ]
