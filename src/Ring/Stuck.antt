-- ===== src/Ring/Stuck.antt =====
-- Records that the capacity check never lets through.
use ticklog.Backoff.{Backoff, new, waited}
use ticklog.Base.{
  ℕ, ◌+◌, ◌≤◌, ◌<◌, ◌≡◌, refl, arith, true, false, List, [], ◌∷◌, Bool-cases, inl, inr, Bytes,
}
use ticklog.Policy.{Backpressure}
use ticklog.Ring.{
  Ring, Seen, Ensured, waiting, fits, on_full, ensure_loop, try_ensure_capacity, reserve, settle,
  spinning, needed_for, max_record_size,
}
use ticklog.Ring.Align.{needed_for-le}
use ticklog.Ring.Capacity.{SeenUpTo, fits-le}
use ticklog.Ring.Frames.{Frames-le}
use ticklog.Ring.Holds.{Holds}
use ticklog.Ring.Reserve.{headroom}
use ticklog.Words.{u64_mod}

-- `live` holds at every look
abbrev pub AllLive : List Seen → Type 0
AllLive [] = Unit {0}
AllLive (s ∷ seen) = (s.live ≡ true) × AllLive seen

abbrev Waits : Ensured → Type 0
Waits e = (b : Backoff) × (e ≡ waiting b)

module _ (mask head needed : ℕ) (small : head + needed < u64_mod) (over : mask < needed) where
  never_fits : (tail : ℕ) → tail ≤ head → fits mask head needed tail ≡ false
  never_fits tail h = elim (Bool-cases (fits mask head needed tail)) [
    | inl e ↦ absurd (omega (arith, fits-le mask head needed tail h small e))
    | inr e ↦ e
  ]

  ensure_loop-Waits :
      (b : Backoff) (seen : List Seen)
      → SeenUpTo head seen
      → AllLive seen
      → Waits (ensure_loop mask head needed Backpressure.block b seen)
  unfolding ensure_loop on_full
  ensure_loop-Waits b [] h l = (b, refl)
  ensure_loop-Waits b (s ∷ seen) (h, hs) (l, ls) =
      rw (never_fits s.tail h, l) (ensure_loop-Waits (waited b) seen hs ls)

  try_ensure_capacity-Waits :
      (r : Ring) (seen : List Seen)
      → r.mask ≡ mask
      → r.tail_cache ≤ head
      → SeenUpTo head seen
      → AllLive seen
      → Waits (try_ensure_capacity r head needed Backpressure.block seen)
  unfolding try_ensure_capacity
  try_ensure_capacity-Waits r [] m c h l = (new, refl)
  try_ensure_capacity-Waits r (s ∷ seen) m c h l =
      rw (m, never_fits r.tail_cache c) (ensure_loop-Waits new (s ∷ seen) h l)

-- On a ring that holds a queue and has its head 2^18 below 2^64, for a record of at most the
-- largest size that comes, with the filler it needs, to more than the mask: under Block, reserve is
-- still spinning after any looks that find the ring live and a tail not past the head.
pub reserve_block_stuck :
    {r : Ring} {rs : List Bytes} (total : ℕ) (seen : List Seen)
    → Holds r rs
    → r.head + headroom ≤ u64_mod
    → total ≤ max_record_size
    → r.mask < needed_for r total
    → SeenUpTo r.head seen
    → AllLive seen
    → reserve r total Backpressure.block seen ≡ spinning
unfolding reserve settle
reserve_block_stuck {r} total seen v below h over seen_ok live =
    let (b, e) =
      try_ensure_capacity-Waits r.mask r.head (needed_for r total)
        (omega (arith, needed_for-le r total h)) over r seen refl
        (omega (arith, v.cache_behind, Frames-le v.frames)) seen_ok live in
    rw e
