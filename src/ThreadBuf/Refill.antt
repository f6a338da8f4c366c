-- ===== src/ThreadBuf/Refill.antt =====
-- A look at the ring that a thread has, and the ring that it takes next.
use ticklog.Base.{
  ℕ, ◌+◌, ◌-◌, ◌≤◌, ◌<◌, ◌≡◌, ◌⊎◌, refl, ap, arith, ◌∙◌, Bytes, true, false, some, [], ◌∷◌, List,
  bit_and, ltb, ◌%◌, le→ltb,
}
use ticklog.Policy.{Backpressure}
use ticklog.Ring.{
  Ring, Seen, Reservation, reserved, refused, reserve, try_ensure_capacity, ensure_loop, on_full,
  with_capacity, align_up, slot_size, needed_for, is_power_of_two, max_record_size,
}
use native.Mathlib.Nat.{mod-eq_of_lt}
use ticklog.Ring.Align.{mask-mod}
use ticklog.Ring.Fresh.{with_capacity-Holds}
use ticklog.Ring.Drop.{reserve-drop_lem}
use ticklog.Ring.Frames.{Frames-le}
use ticklog.Ring.Holds.{Holds}
use ticklog.Ring.Reserve.{headroom}
use ticklog.Segments.{alloc_fresh, with_capacity_arena, placed}
use ticklog.Shared.{Shared, place}
use ticklog.ThreadBuf.{set_thread_info, set_serial}
use ticklog.Words.{u64_mod}

-- On one look at the tail Quill decides as `Drop` does.
reserve-quill :
    (r : Ring) (total : ℕ) (s : Seen)
    → reserve r total Backpressure.quill (s ∷ []) ≡ reserve r total Backpressure.drop (s ∷ [])
unfolding reserve try_ensure_capacity ensure_loop on_full
reserve-quill r total s = refl

-- The producer looks at its ring: the record is placed, or it does not fit.
pub reserve-now :
    (r : Ring) (rs : List Bytes) (total : ℕ)
    → Holds r rs
    → total ≤ max_record_size
    → r.head + headroom ≤ u64_mod
    → let result =
        reserve r total Backpressure.quill (record { tail = r.tail; live = r.live } ∷ []) in
      let needed = needed_for r total in
      ((r.head + needed ≤ r.mask + r.tail)
        × (slot : Reservation) × (r' : Ring) × (result ≡ reserved slot r'))
      ⊎ ((r.mask + r.tail < r.head + needed)
          × (result ≡ refused (record r { tail_cache = r.tail })))
reserve-now r rs total v h below =
    let s : Seen = record { tail = r.tail; live = r.live } in
    rw (reserve-quill r total s)
      (reserve-drop_lem total s v h below v.cache_behind (Frames-le v.frames))

-- The names that a ring carries do not matter to the queue.
pub named-Holds :
    {r : Ring} {rs : List Bytes} (id serial : ℕ) (name : Bytes)
    → Holds r rs
    → Holds (set_serial serial (set_thread_info id name r)) rs
unfolding set_thread_info
named-Holds id serial name v = record {
  bits = v.bits;
  power = v.power;
  whole = v.whole;
  large = v.large;
  mask_is = v.mask_is;
  head_aligned = v.head_aligned;
  cache_behind = v.cache_behind;
  caught_up = v.caught_up;
  room = v.room;
  frames = v.frames;
}

-- At the start of a ring no filler is needed.
pub needed_for-start :
    (r : Ring) (total : ℕ)
    → Holds r []
    → r.head ≡ 0
    → align_up total slot_size < r.capacity
    → needed_for r total ≤ r.mask
needed_for-start r total v h small =
    let at : bit_and r.head r.mask ≡ r.head % r.capacity =
      mask-mod r.capacity r.mask v.bits r.head v.power v.mask_is in
    let zero_at : bit_and r.head r.mask ≡ 0 =
      at ∙ ap (λ n. n % r.capacity) h ∙ mod-eq_of_lt (omega arith) in
    let whole : (ltb (r.capacity - bit_and r.head r.mask) (align_up total slot_size)) ≡ false =
      rw zero_at (le→ltb (r.capacity - 0) (align_up total slot_size) (omega arith)) in
    rw whole (omega (arith, v.mask_is))

-- The ring that a segmented policy takes next is new, and holds nothing.
pub alloc_fresh-Holds :
    (w : Shared)
    → is_power_of_two w.ring_capacity ≡ true
    → slot_size ≤ w.ring_capacity
    → (r : Ring) × (alloc_fresh w ≡ some (place w r))
      × Holds r []
      × (r.capacity ≡ w.ring_capacity)
      × (r.head ≡ 0)
unfolding alloc_fresh with_capacity_arena with_capacity
alloc_fresh-Holds w p large =
    let (r, e, h, c, z) = with_capacity-Holds w.ring_capacity p large in
    (r, ap (placed w) e, h, c, z)
