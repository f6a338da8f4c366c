-- ===== src/Fifo/Rtrb/Stuck.antt =====
-- A batch of records that is larger than the ring.
use ticklog.Base.{
  ℕ, ◌<◌, ◌≤◌, ◌+◌, ◌≡◌, refl, ap, arith, Bytes, true, some, List, [], ◌∷◌, length, max,
}
use ticklog.Fifo.{waits, on_full, reserve}
use ticklog.Fifo.Rtrb.{Crate, SplitRing, reserve_turn, flush_staged, stage, write_record}
use ticklog.Policy.{Backpressure, block}
use ticklog.Words.{u64_mod}

module _ (crate : Crate) where
  no_room :
      (r : SplitRing crate) (n : ℕ) (policy : Backpressure)
      → r.capacity < u64_mod
      → r.capacity ≤ length r.staged + n
      → reserve_turn crate n policy r ≡ on_full policy r.live
  unfolding reserve_turn
  no_room r n policy word h = ground arith

  -- While the producer waits, only the drain moves: the ring that a look sees keeps these fields.
  abbrev pub SameStaged : SplitRing crate → List (SplitRing crate) → Type 0
  SameStaged r [] = Unit {0}
  SameStaged r (look ∷ looks) =
      (look.staged ≡ r.staged)
      × (look.capacity ≡ r.capacity)
      × (look.live ≡ true)
      × SameStaged r looks

  -- Once the staged bytes and the record come to the capacity of an rtrb ring, below 2^64: under
  -- Block the reserve waits for ever, however many looks at the live ring it takes and whatever the
  -- drain has popped in between.
  pub reserve_batch_stuck :
      (r : SplitRing crate) (n : ℕ) (looks : List (SplitRing crate))
      → r.capacity < u64_mod
      → r.capacity ≤ length r.staged + n
      → SameStaged r looks
      → reserve (reserve_turn crate n block) looks ≡ waits
  unfolding reserve
  reserve_batch_stuck r n [] word h same = refl
  reserve_batch_stuck r n (look ∷ looks) word h (s, c, alive, same) =
      rw (no_room look n block (omega (arith, c)) (omega (arith, c, ap length s)), alive, reserve)
        (reserve_batch_stuck r n looks word h same)

  -- A record that does not complete its chunk is only staged.
  write_record_staged :
      (r : SplitRing crate) (bytes : Bytes)
      → r.staged_records + 1 < max r.chunk_size 1
      → write_record crate r bytes ≡ some (stage crate r bytes)
  unfolding write_record flush_staged
  write_record_staged r bytes h = ground arith
