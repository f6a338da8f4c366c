-- ===== src/Ring/Drop.antt =====
-- Under `Drop` a record is refused just when it does not fit.
use ticklog.Base.{
  ℕ, ◌+◌, ◌≤◌, ◌<◌, ◌≡◌, arith, true, false, Bytes, List, [], ◌∷◌, Bool-cases, inl, inr, ◌⊎◌, leb,
  leb→le,
}
use ticklog.Policy.{Backpressure}
use ticklog.Ring.{
  Ring, Reservation, Seen, decided, reserved, refused, fits, on_full, ensure_loop,
  try_ensure_capacity, reserve, settle, needed_for, slot_for, filled, max_record_size,
}
use ticklog.Ring.Align.{needed_for-le}
use ticklog.Ring.Capacity.{fits-le, le-fits}
use ticklog.Ring.Holds.{Holds}
use ticklog.Ring.Reserve.{headroom}
use ticklog.Words.{u64_mod}

module _ (r : Ring) (needed : ℕ) (s : Seen) (small : r.head + needed < u64_mod)
    (behind : r.tail_cache ≤ s.tail) (low : s.tail ≤ r.head) where
  room_decides :
      r.head + needed ≤ r.mask + s.tail
      → try_ensure_capacity r r.head needed Backpressure.drop (s ∷ []) ≡ decided true s.tail
  unfolding try_ensure_capacity ensure_loop
  room_decides room =
      let fit = le-fits r.mask r.head needed s.tail low small room in
      elim (Bool-cases (fits r.mask r.head needed r.tail_cache)) [
        | inl e ↦ rw e
        | inr e ↦ rw (e, fit)
      ]

  full_refuses :
      r.mask + s.tail < r.head + needed
      → try_ensure_capacity r r.head needed Backpressure.drop (s ∷ []) ≡ decided false s.tail
  unfolding try_ensure_capacity ensure_loop on_full
  full_refuses full = rw (no_fit r.tail_cache behind (omega arith), no_fit s.tail (omega arith) low)
    where
      no_fit : (t : ℕ) → t ≤ s.tail → t ≤ r.head → fits r.mask r.head needed t ≡ false
      no_fit t h l = elim (Bool-cases (fits r.mask r.head needed t)) [
        | inl e ↦ absurd (omega (arith, fits-le r.mask r.head needed t l small e))
        | inr e ↦ e
      ]

-- On a ring that holds a queue, with its head 2^18 below 2^64, for a record of at most the largest
-- size and a tail between the producer's copy and the head, under Drop: either the record and the
-- filler it needs fit in front of that tail and reserve returns a slot, or they do not and it
-- refuses, and only the producer's copy of the tail has changed.
pub reserve-drop_lem :
    {r : Ring} {rs : List Bytes} (total : ℕ) (s : Seen)
    → Holds r rs
    → total ≤ max_record_size
    → r.head + headroom ≤ u64_mod
    → r.tail_cache ≤ s.tail
    → s.tail ≤ r.head
    → let result = reserve r total Backpressure.drop (s ∷ []) in
      let needed = needed_for r total in
      ((r.head + needed ≤ r.mask + s.tail)
        × (slot : Reservation) × (r' : Ring) × (result ≡ reserved slot r'))
      ⊎ ((r.mask + s.tail < r.head + needed)
          × (result ≡ refused (record r { tail_cache = s.tail })))
unfolding reserve settle
reserve-drop_lem {r} total s v h below behind low =
    let needed = needed_for r total in
    let small : r.head + needed < u64_mod = omega (arith, needed_for-le r total h) in
    let r' = record r { tail_cache = s.tail } in
    elim (Bool-cases (leb (r.head + needed) (r.mask + s.tail))) [
      | inl e ↦
          let room = leb→le _ _ e in
          inl (
            room,
            slot_for r' total,
            filled r' total,
            rw (room_decides r needed s small behind low room),
          )
      | inr e ↦
          let full : r.mask + s.tail < r.head + needed = ground arith in
          inr (full, rw (full_refuses r needed s small behind low full))
    ]
