-- ===== src/Fifo/Rtrb/Laws.antt =====
-- What the operations of the `rtrb` backend do to the bytes in the ring and in the staging buffer.
use ticklog.Base.{
  ℕ, ◌<◌, ◌≤◌, ◌+◌, ◌-◌, ◌≡◌, refl, sym, ap, ◌∙◌, arith, Bytes, true, false, Option, some, [], ◌++◌,
  length, max, leb, ltb, ◌==◌, ==_iff, take, drop, take-append-drop, length-append, append-nil,
  append_assoc, Bool-cases, ◌⊎◌, inl, inr, and_left, suc,
}
use ticklog.Fifo.{granted, no_bytes}
use ticklog.Fifo.Rtrb.{
  Crate, SplitRing, split, reserve_turn, flush_chunk, direct_chunk, with_queue, cleared,
  flush_staged, stage, is_direct, commit, write_record,
}
use ticklog.Policy.{Backpressure}
use ticklog.Ring.{slot_size}
use ticklog.Words.{u64_mod}

module _ (crate : Crate) where
  open crate use {Queue, producer_slots, consumer_slots, items, room, bounded, free, taken}

  pub record IsSound (r : SplitRing crate) : Type 0 where
    pub room_is : room r.queue ≡ r.capacity
    pub word : r.capacity < u64_mod

  abbrev pub visible : SplitRing crate → Bytes
  visible r = items r.queue

  -- A new ring is sound, empty and takes a byte less than was asked for.
  split-IsSound :
      (chunk_size capacity : ℕ) (r : SplitRing crate)
      → slot_size ≤ capacity
      → capacity < u64_mod
      → split crate chunk_size capacity ≡ some r
      → IsSound r × (visible r ≡ []) × (r.staged ≡ []) × (suc r.capacity ≡ capacity)
  unfolding split
  split-IsSound chunk_size capacity r large word e =
      ground (arith, crate.items-new (capacity - 1), crate.room-new (capacity - 1))

  -- A chunk that fits puts its bytes behind those of the queue, however it is sliced.
  abbrev Appends : Queue → Bytes → Option Queue → Type 0
  Appends q bytes o =
      (q' : Queue) × (o ≡ some q') × (items q' ≡ items q ++ bytes) × (room q' ≡ room q)

  sliced :
      (q : Queue) (bytes : Bytes) (a : ℕ)
      → length bytes ≤ producer_slots q
      → Appends q bytes (some (crate.commit_write q (take a bytes) (drop a bytes)))
  sliced q bytes a fits =
      let whole = take-append-drop a bytes in
      let (now, same) =
        crate.commit_write_lem q (take a bytes) (drop a bytes)
          (omega (arith, ap length whole, length-append (take a bytes) (drop a bytes))) in
      (_, refl, now ∙ ap (λ s. items q ++ s) whole, same)

  flush_chunk_lem :
      (q : Queue) (bytes : Bytes)
      → length bytes ≤ producer_slots q
      → Appends q bytes (flush_chunk crate q bytes)
  unfolding flush_chunk
  flush_chunk_lem q bytes fits =
      let (a, b, e, sum) = crate.write_chunk_lem q (length bytes) fits in
      rw e (sliced q bytes a fits)

  direct_chunk_lem :
      (q : Queue) (bytes : Bytes)
      → length bytes ≤ producer_slots q
      → Appends q bytes (direct_chunk crate q bytes)
  unfolding direct_chunk
  direct_chunk_lem q bytes fits =
      let (a, b, e, sum) = crate.write_chunk_lem q (length bytes) fits in
      elim (Bool-cases (b == 0)) [
        | inl one ↦
            let (now, same) = crate.commit_write_lem q bytes [] (omega arith) in
            rw (e, one) (_, refl, now ∙ ap (λ s. items q ++ s) (append-nil bytes), same)
        | inr two ↦ rw (e, two) (sliced q bytes a fits)
      ]

  -- What a record that was granted its room leaves.
  abbrev Adds : SplitRing crate → Bytes → Option (SplitRing crate) → Type 0
  Adds r bytes o =
      (r' : SplitRing crate) × (o ≡ some r')
      × IsSound r'
      × (((visible r' ≡ visible r) × (r'.staged ≡ r.staged ++ bytes))
          ⊎ ((visible r' ≡ (visible r ++ r.staged) ++ bytes) × (r'.staged ≡ [])))

  flush_staged_lem :
      (r : SplitRing crate) (chunk_size : ℕ)
      → IsSound r
      → length r.staged ≤ producer_slots r.queue
      → Adds r [] (flush_staged crate r chunk_size)
  unfolding flush_staged
  flush_staged_lem r chunk_size v fits =
      let same_bytes : Adds r [] (some r) = (r, refl, v, inl (refl, sym (append-nil r.staged))) in
      elim (Bool-cases (leb chunk_size r.staged_records)) [
        | inl full ↦ elim (Bool-cases (ltb 0 (length r.staged))) [
          | inl some_bytes ↦
              let (q, e, now, same) = flush_chunk_lem r.queue r.staged fits in
              rw (full, some_bytes, e)
                (
                  record (cleared crate r) { queue = q },
                  refl,
                  record { room_is = same ∙ v.room_is; word = v.word },
                  inr (now ∙ sym (append-nil (visible r ++ r.staged)), refl),
                )
          | inr no_bytes ↦ rw (full, no_bytes) same_bytes
        ]
        | inr more ↦ rw more same_bytes
      ]

  room_for :
      (r : SplitRing crate) (n : ℕ) (policy : Backpressure)
      → IsSound r
      → reserve_turn crate n policy r ≡ granted
      → length r.staged + n ≤ producer_slots r.queue
  unfolding reserve_turn
  room_for r n policy v e = ground (arith, free r.queue, bounded r.queue, v.room_is, v.word)

  module _ (r : SplitRing crate) (bytes : Bytes) (policy : Backpressure) (v : IsSound r)
      (room_left : reserve_turn crate (length bytes) policy r ≡ granted) where
    direct_lem :
        (o : Option Queue)
        → is_direct crate r ≡ true
        → Appends r.queue bytes o
        → Adds r bytes (with_queue crate r o)
    direct_lem o d (q, e, now, same) =
        let empty = no_bytes r.staged ((==_iff _ _).0 (and_left _ _ d)) in
        (
          record r { queue = q },
          ap (with_queue crate r) e,
          record { room_is = same ∙ v.room_is; word = v.word },
          inr (
            now
                ∙ ap (λ s. s ++ bytes)
                    (sym (ap (λ s. visible r ++ s) empty ∙ append-nil (visible r))),
            empty,
          ),
        )

    empty_lem : ltb 0 (length bytes) ≡ false → Adds r bytes (some r)
    empty_lem e =
        let none_given = no_bytes bytes (ground arith) in
        (r, refl, v, inl (refl, sym (ap (λ s. r.staged ++ s) none_given ∙ append-nil r.staged)))

    batched_lem : Adds r bytes (flush_staged crate (stage crate r bytes) (max r.chunk_size 1))
    batched_lem =
        let (r', e, v', now) =
          flush_staged_lem (stage crate r bytes) (max r.chunk_size 1)
            (record { room_is = v.room_is; word = v.word })
            (omega (
              arith,
              length-append r.staged bytes,
              room_for r (length bytes) policy v room_left,
            )) in
        (
          r',
          e,
          v',
          elim now [
            | inl (same, kept) ↦ inl (same, kept ∙ append-nil (r.staged ++ bytes))
            | inr (all, none_kept) ↦ inr (
              all
                  ∙ append-nil (visible r ++ (r.staged ++ bytes))
                  ∙ sym (append_assoc (visible r) r.staged bytes),
              none_kept,
            )
          ],
        )

    fits : length bytes ≤ producer_slots r.queue
    fits = omega (arith, room_for r (length bytes) policy v room_left)

    -- On a sound rtrb ring whose reserve has granted the room: write_record does not panic and leaves a sound
    -- ring, and either the bytes in the ring are as before and the record stands behind the staged ones, or
    -- nothing is staged and what was staged and the record stand, in this order, behind the bytes in the ring.
    pub write_record_lem : Adds r bytes (write_record crate r bytes)
    unfolding write_record
    write_record_lem = elim (Bool-cases (is_direct crate r)) [
      | inl d ↦ elim (Bool-cases (ltb 0 (length bytes))) [
        | inl e ↦ rw (d, e) (direct_lem _ d (direct_chunk_lem r.queue bytes fits))
        | inr e ↦ rw (d, e) (empty_lem e)
      ]
      | inr d ↦ rw d batched_lem
    ]

    pub commit_lem : Adds r bytes (commit crate r bytes)
    unfolding commit
    commit_lem = elim (Bool-cases (is_direct crate r)) [
      | inl d ↦ elim (Bool-cases (ltb 0 (length bytes))) [
        | inl e ↦ rw (d, e) (direct_lem _ d (flush_chunk_lem r.queue bytes fits))
        | inr e ↦ rw (d, e) (empty_lem e)
      ]
      | inr d ↦ rw d batched_lem
    ]
