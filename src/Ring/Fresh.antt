-- ===== src/Ring/Fresh.antt =====
-- The constructors and the rewind: the queue is empty.
use ticklog.Base.{
  ℕ, zero, suc, ◌-◌, ◌%◌, ◌^◌, ◌≤◌, ◌≡◌, refl, arith, true, false, some, List, [], leb, Bytes,
  power_of_two,
}
use ticklog.Ring.{Ring, with_capacity, from_storage, is_power_of_two, reset_for_reuse, slot_size}
use ticklog.Ring.Frames.{done}
use ticklog.Ring.Holds.{Holds}
use native.Mathlib.Nat.{pow-suc}

is_power_of_two-power : (n : ℕ) → is_power_of_two n ≡ true → (k : ℕ) × (n ≡ 2 ^ k)
unfolding is_power_of_two
is_power_of_two-power n h = power_of_two n (ground arith) (ground arith)

whole_power : (k : ℕ) → 64 ≤ 2 ^ k → 2 ^ k % 64 ≡ 0
whole_power zero h = absurd (omega arith)
whole_power (suc zero) h = absurd (omega arith)
whole_power (suc (suc zero)) h = absurd (omega arith)
whole_power (suc (suc (suc zero))) h = absurd (omega arith)
whole_power (suc (suc (suc (suc zero)))) h = absurd (omega arith)
whole_power (suc (suc (suc (suc (suc zero))))) h = absurd (omega arith)
whole_power (suc (suc (suc (suc (suc (suc k)))))) h = omega (
  arith,
  pow-suc 2 k,
  pow-suc 2 (suc k),
  pow-suc 2 (suc (suc k)),
  pow-suc 2 (suc (suc (suc k))),
  pow-suc 2 (suc (suc (suc (suc k)))),
  pow-suc 2 (suc (suc (suc (suc (suc k))))),
)

empty-Holds :
    (r : Ring) (k : ℕ)
    → r.capacity ≡ 2 ^ k
    → slot_size ≤ r.capacity
    → r.mask ≡ r.capacity - 1
    → r.head ≡ 0
    → r.tail ≡ 0
    → r.tail_cache ≡ 0
    → r.head_cache ≡ 0
    → Holds r []
empty-Holds r k p large m h t c d = record {
  bits = k;
  power = p;
  whole = rw p (whole_power k (omega arith));
  large = large;
  mask_is = m;
  head_aligned = rw h refl;
  cache_behind = omega arith;
  caught_up = omega arith;
  room = omega arith;
  frames = done (omega arith);
}

-- For a capacity that is a power of two and at least one slot, `with_capacity` makes a ring of that
-- capacity which holds the empty queue, with its head at 0.
pub with_capacity-Holds :
    (n : ℕ)
    → is_power_of_two n ≡ true
    → slot_size ≤ n
    → (r : Ring) × (with_capacity n ≡ some r) × Holds r [] × (r.capacity ≡ n) × (r.head ≡ 0)
unfolding with_capacity from_storage
with_capacity-Holds n p large =
    let (k, e) = is_power_of_two-power n p in
    let fits : leb slot_size n ≡ true = ground arith in
    (
      from_storage (λ _. 0) n false,
      rw (p, fits),
      empty-Holds _ k e large refl refl refl refl refl,
      refl,
      refl,
    )

-- Whatever a ring holds, rewinding it leaves it holding the empty queue, with its head at 0, live and
-- with every flag of its last owner cleared.
pub reset_for_reuse-Holds :
    {r : Ring} {rs : List Bytes}
    → Holds r rs
    → let r' = reset_for_reuse r in
      Holds r' [] × (r'.head ≡ 0) × (r'.live ≡ true) × (r'.recycled ≡ false) × (r'.draining ≡ false)
unfolding reset_for_reuse
reset_for_reuse-Holds {r} v = (
  empty-Holds (reset_for_reuse r) v.bits v.power v.large v.mask_is refl refl refl refl,
  refl,
  refl,
  refl,
  refl,
)
