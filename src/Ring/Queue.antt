-- ===== src/Ring/Queue.antt =====
-- The producer's side of the ring as operations on the queue that the ring holds.
use ticklog.Base.{
  ℕ, ◌+◌, ◌≤◌, ◌<◌, ◌≡◌, ◌⊎◌, refl, arith, Bytes, true, false, List, [], ◌∷◌, ◌++◌, length,
  Bool-cases, inl, inr,
}
use ticklog.Backoff.{Backoff, new, waited}
use ticklog.Policy.{Backpressure}
use ticklog.Ring.{
  Ring, Reservation, Seen, Ensured, decided, waiting, Reserved, reserved, refused, spinning,
  reserve, settle, needed_for, slot_for, filled, publish, write_record, try_ensure_capacity,
  ensure_loop, on_full, fits, max_record_size,
}
use ticklog.Ring.Align.{needed_for-le}
use ticklog.Ring.Capacity.{SeenUpTo, Granted, try_ensure_capacity-Granted, le-fits}
use ticklog.Ring.Frames.{IsWire, Frames-le}
use ticklog.Ring.Holds.{Holds}
use ticklog.Ring.Reserve.{headroom, commit-Holds}
use ticklog.Words.{u64_mod}

-- Holding a queue does not depend on a fresher copy of the tail.
cached-Holds :
    {r : Ring} {rs : List Bytes} (t : ℕ)
    → t ≤ r.tail
    → Holds r rs
    → Holds (record r { tail_cache = t }) rs
cached-Holds t h v = record {
  bits = v.bits;
  power = v.power;
  whole = v.whole;
  large = v.large;
  mask_is = v.mask_is;
  head_aligned = v.head_aligned;
  cache_behind = h;
  caught_up = v.caught_up;
  room = v.room;
  frames = v.frames;
}

-- What becomes of a reserve for the record `b`.
abbrev pub Outcome : Ring → List Bytes → Bytes → Reserved → Type 0
Outcome r rs b (reserved slot r') =
    Holds (publish (write_record r' slot b) slot) (rs ++ b ∷ []) × (r'.tail ≡ r.tail)
Outcome r rs b (refused r') = Holds r' rs × (r'.head ≡ r.head)
Outcome r rs b spinning = Unit {0}

settle-Outcome :
    {r : Ring} {rs : List Bytes} (b : Bytes) (e : Ensured)
    → Holds r rs
    → IsWire b
    → r.head + headroom ≤ u64_mod
    → Granted r.mask r.head (needed_for r (length b)) r.tail e
    → Outcome r rs b (settle r (length b) e)
unfolding settle filled
settle-Outcome b (decided true t) v w below g =
    (commit-Holds b (cached-Holds t g.0 v) w below g.1, refl)
settle-Outcome b (decided false t) v w below g = (cached-Holds t g v, refl)
settle-Outcome b (waiting x) v w below g = tt

-- Where a ring holds a queue of records and its head is 2^18 below 2^64, for a well-formed record,
-- any policy and any tails seen up to the drain's own: a slot that reserve returns, written with
-- the record and published, leaves the ring holding the queue with the record appended and the tail
-- as it was; a refusal leaves the same queue at the same head.
pub reserve-Outcome :
    {r : Ring} {rs : List Bytes} (b : Bytes) (policy : Backpressure) (seen : List Seen)
    → Holds r rs
    → IsWire b
    → r.head + headroom ≤ u64_mod
    → SeenUpTo r.tail seen
    → Outcome r rs b (reserve r (length b) policy seen)
unfolding reserve
reserve-Outcome {r} b policy seen v w below h =
    settle-Outcome b (try_ensure_capacity r r.head (needed_for r (length b)) policy seen) v w below
      (try_ensure_capacity-Granted r.mask r.head (needed_for r (length b)) r.tail
        (Frames-le v.frames) (omega (arith, needed_for-le r (length b) w.short, w.short)) r policy
        seen refl v.cache_behind h)

-- The tail is seen to leave enough room before `live` is seen to have gone.
abbrev pub WillFit : ℕ → ℕ → ℕ → List Seen → Type 0
WillFit mask head needed [] = ⊥
WillFit mask head needed (s ∷ seen) =
    (head + needed ≤ mask + s.tail) ⊎ ((s.live ≡ true) × WillFit mask head needed seen)

abbrev Decides : Ensured → Type 0
Decides e = (t : ℕ) × (e ≡ decided true t)

module _ (mask head needed : ℕ) (small : head + needed < u64_mod) where
  ensure_loop-Decides :
      (b : Backoff) (seen : List Seen)
      → SeenUpTo head seen
      → WillFit mask head needed seen
      → Decides (ensure_loop mask head needed Backpressure.block b seen)
  unfolding ensure_loop on_full
  ensure_loop-Decides b [] h w = absurd w
  ensure_loop-Decides b (s ∷ seen) (h, hs) (inl fit) =
      (s.tail, rw (le-fits mask head needed s.tail h small fit))
  ensure_loop-Decides b (s ∷ seen) (h, hs) (inr (l, w)) =
      elim (Bool-cases (fits mask head needed s.tail)) [
        | inl e ↦ (s.tail, rw e)
        | inr e ↦ rw (e, l) (ensure_loop-Decides (waited b) seen hs w)
      ]

  try_ensure_capacity-Decides :
      (r : Ring) (s : Seen) (seen : List Seen)
      → r.mask ≡ mask
      → SeenUpTo head (s ∷ seen)
      → WillFit mask head needed (s ∷ seen)
      → Decides (try_ensure_capacity r head needed Backpressure.block (s ∷ seen))
  unfolding try_ensure_capacity
  try_ensure_capacity-Decides r s seen m h w =
      elim (Bool-cases (fits r.mask head needed r.tail_cache)) [
        | inl e ↦ (s.tail, rw e)
        | inr e ↦ rw (e, m) (ensure_loop-Decides new (s ∷ seen) h w)
      ]

-- On a ring that holds a queue and has its head 2^18 below 2^64, for a record of at most the
-- largest size, under Block: once the producer has seen a tail, none past the head, that leaves
-- room for the record, live having held at each earlier look, reserve returns a slot.
pub reserve_block-returns :
    {r : Ring} {rs : List Bytes} (total : ℕ) (s : Seen) (seen : List Seen)
    → Holds r rs
    → total ≤ max_record_size
    → r.head + headroom ≤ u64_mod
    → SeenUpTo r.head (s ∷ seen)
    → WillFit r.mask r.head (needed_for r total) (s ∷ seen)
    → (slot : Reservation) × (r' : Ring) × (reserve r total Backpressure.block (s ∷ seen)
        ≡ reserved slot r')
unfolding reserve settle
reserve_block-returns {r} total s seen v h below seen_ok w =
    let (t, e) =
      try_ensure_capacity-Decides r.mask r.head (needed_for r total)
        (omega (arith, needed_for-le r total h)) r s seen refl seen_ok w in
    let r' = record r { tail_cache = t } in (slot_for r' total, filled r' total, rw e)
