-- ===== src/Poll/Flush.antt =====
-- The order of flushes, spins and syncs in the drain's loop.
use ticklog.Base.{
  ℕ, ◌*◌, ◌%◌, ◌^◌, ◌≤◌, ◌≡◌, refl, ap, arith, ◌&&◌, ◌||◌, Bool, true, false, not, [], ◌∷◌, List,
  ◌==◌, min, leb, bit_and-low_mask, Bool-cases, inl, inr,
}
use ticklog.Poll.{Poll}
use ticklog.Poll.Run.{
  Event, synced, polled, flushed, spun, Loop, spin_min, spin_cap, sync_due, idle, after_poll,
}

-- Whether the events may follow a state with that `dirty` flag: a flush comes only behind work that is
-- not flushed yet, and a spin, of 8 to 256 turns, only when there is none.
abbrev follows : Bool → List Event → Bool
follows dirty [] = true
follows dirty (synced out ∷ events) = follows dirty events
follows dirty (polled worked out ∷ events) = follows (dirty || worked) events
follows dirty (flushed ∷ events) = dirty && follows false events
follows dirty (spun n ∷ events) =
    not dirty && leb spin_min n && leb n spin_cap && follows false events

-- the flag behind the events
abbrev dirty_after : Bool → List Event → Bool
dirty_after dirty [] = dirty
dirty_after dirty (synced out ∷ events) = dirty_after dirty events
dirty_after dirty (polled worked out ∷ events) = dirty_after (dirty || worked) events
dirty_after dirty (flushed ∷ events) = dirty_after false events
dirty_after dirty (spun n ∷ events) = dirty_after dirty events

abbrev SpinIn : ℕ → Type 0
SpinIn n = (spin_min ≤ n) × (n ≤ spin_cap)

-- Behind a poll, whatever it found, when the spin batch is from 8 to 256: work is flushed once before
-- the drain spins, nothing else is flushed, a batch of the spin is from 8 to 256 turns, the drain's flag
-- is set exactly when work is left to flush, and the next batch is from 8 to 256 again.
after_poll-follows :
    (l : Loop) (p : Poll)
    → SpinIn l.spin
    → let (l', events) = after_poll l p in
      (follows l.dirty events ≡ true) × (l'.dirty ≡ dirty_after l.dirty events) × SpinIn l'.spin
unfolding after_poll idle
after_poll-follows l p h = elim (Bool-cases p.had_work) [
  | inl e ↦ rw e (refl, ground arith, (omega arith, omega arith))
  | inr e ↦
      let next : SpinIn (min (l.spin * 2 % 2 ^ 32) spin_cap) = (omega arith, omega arith) in
      elim (Bool-cases l.dirty) [
        | inl d ↦ rw (e, d) (ground arith, refl, next)
        | inr d ↦ rw (e, d) (ground arith, refl, next)
      ]
]

-- After n turns from the start, counted on a u32, the drain syncs just when n is a multiple of 1024,
-- and under a segmented policy always.
sync_due_lem :
    (n : ℕ) → (sync_due false (n % 2 ^ 32) ≡ (n % 1024 == 0)) × (sync_due true (n % 2 ^ 32) ≡ true)
sync_due_lem n = (
  rw (bit_and-low_mask 10 (n % 2 ^ 32)) (ap (λ m. m == 0) (omega arith)),
  rw (bit_and-low_mask 0 (n % 2 ^ 32)) (ground arith),
)
