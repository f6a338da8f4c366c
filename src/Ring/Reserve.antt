-- ===== src/Ring/Reserve.antt =====
-- What `reserve`, the write of the record and `publish` do to a ring that holds a queue.
use native.Mathlib.Nat.{mod-lt, mod-eq_of_lt}
use ticklog.Base.{
  ℕ, ◌+◌, ◌%◌, ◌^◌, ◌≤◌, ◌<◌, ◌≡◌, arith, Bytes, List, [], ◌∷◌, ◌++◌, length, true, false, inl, inr,
  Bool-cases, append-nil,
}
use ticklog.Memory.{Memory, write_bytes}
use ticklog.Ring.{
  Ring, slot_size, align_up, offset_of, remaining_phys, wraps, needed_for, slot_for, filled,
  publish, write_record, write_eob,
}
use ticklog.Ring.Align.{slots, align_up-slots, mask-mod}
use ticklog.Ring.Frames.{IsWire, span, Frames, Frames-append, Frames-le}
use ticklog.Ring.Holds.{Holds}
use ticklog.Ring.Modular.{mod_lap}
use ticklog.Ring.Write.{
  Frames-write_bytes, Frames-of_wire, Frames-write_eob, Frames-of_eob, span-slots,
}
use ticklog.Words.{u64_mod, u16_mod}

-- Positions stay this far below the end of u64, so none of the producer's sums wraps.
abbrev pub headroom : ℕ
headroom = 2 ^ 18

module _ {r : Ring} {rs : List Bytes} (b : Bytes) (v : Holds r rs) (w : IsWire b)
    (below : r.head + headroom ≤ u64_mod)
    (free : r.head + needed_for r (length b) ≤ r.mask + r.tail) where
  offset-mod : offset_of r ≡ r.head % r.capacity
  offset-mod = mask-mod r.capacity r.mask v.bits r.head v.power v.mask_is

  size-slots : align_up (length b) slot_size ≡ slots (length b)
  size-slots = align_up-slots (length b) (omega (arith, w.short))

  remaining-span : remaining_phys r ≡ span r.capacity r.head
  remaining-span = rw offset-mod

  offset-lt : r.head % r.capacity < r.capacity
  offset-lt = mod-lt r.head (omega (arith, v.large))

  length-slots : length b ≤ slots (length b)
  length-slots = omega arith

  straight_room :
      wraps r (length b) ≡ false
      → (r.head % r.capacity + slots (length b) ≤ r.capacity)
        × (r.head + slots (length b) < r.tail + r.capacity)
  straight_room e =
      let fit : align_up (length b) slot_size ≤ remaining_phys r = ground arith in
      let all : needed_for r (length b) ≡ align_up (length b) slot_size = rw e in
      (
        omega (arith, size-slots, remaining-span, offset-lt),
        omega (arith, size-slots, v.mask_is, v.large),
      )

  wrapped_room :
      wraps r (length b) ≡ true
      → (span r.capacity r.head < slots (length b))
        × (r.head + span r.capacity r.head + slots (length b) < r.tail + r.capacity)
  wrapped_room e =
      let over : remaining_phys r < align_up (length b) slot_size = ground arith in
      let all : needed_for r (length b) ≡ align_up (length b) slot_size + remaining_phys r = rw e in
      (
        omega (arith, size-slots, remaining-span),
        omega (arith, size-slots, remaining-span, v.mask_is, v.large),
      )

  -- The record fits before the physical end: the slot starts at the head.
  slot_straight :
      wraps r (length b) ≡ false
      → slot_for r (length b)
        ≡ record { ptr = r.head % r.capacity; head = r.head + slots (length b) }
  unfolding slot_for
  slot_straight e =
      let h : r.head + slots (length b) < u64_mod = omega (arith, w.short) in
      rw (e, size-slots, offset-mod) (ground (arith, mod-eq_of_lt h))

  filled_straight : wraps r (length b) ≡ false → filled r (length b) ≡ r
  unfolding filled
  filled_straight e = rw e

  commit_straight :
      wraps r (length b) ≡ false
      → Holds
          (publish
            (write_record (filled r (length b)) (slot_for r (length b)) b)
            (slot_for r (length b)))
          (rs ++ b ∷ [])
  commit_straight e =
      rw (slot_straight e, filled_straight e)
        (unfold publish write_record in
          record {
            bits = v.bits;
            power = v.power;
            whole = v.whole;
            large = v.large;
            mask_is = v.mask_is;
            head_aligned = omega (arith, v.head_aligned);
            cache_behind = v.cache_behind;
            caught_up = v.caught_up;
            room = (straight_room e).1;
            frames =
                Frames-append
                  (Frames-write_bytes r.storage r.capacity r.tail r.head r.head b
                    (omega (arith, offset-lt)) (omega arith)
                    (omega (arith, straight_room e, length-slots))
                    (omega (arith, straight_room e, length-slots)) v.frames)
                  (Frames-of_wire r.storage r.capacity r.head b w (straight_room e).0);
          })

  -- It does not: a filler takes up the rest of the lap, and the slot starts at offset 0.
  slot_wrapped :
      wraps r (length b) ≡ true
      → slot_for r (length b)
        ≡ record { ptr = 0; head = r.head + span r.capacity r.head + slots (length b) }
  unfolding slot_for
  slot_wrapped e =
      let h : r.head + span r.capacity r.head < u64_mod = omega (arith, wrapped_room e, w.short) in
      let k : r.head + span r.capacity r.head + slots (length b) < u64_mod =
        omega (arith, wrapped_room e, w.short) in
      rw (
        e,
        remaining-span,
        mod-eq_of_lt h,
        mask-mod r.capacity r.mask v.bits _ v.power v.mask_is,
        mod_lap r.capacity (omega (arith, offset-lt)) r.head,
        size-slots,
        mod-eq_of_lt k,
      )

  filled_wrapped :
      wraps r (length b) ≡ true
      → filled r (length b)
        ≡ record r { storage = write_eob r.storage (r.head % r.capacity) (span r.capacity r.head) }
  unfolding filled
  filled_wrapped e =
      let h : span r.capacity r.head < u16_mod = omega (arith, wrapped_room e, w.short) in
      rw (e, remaining-span, offset-mod, mod-eq_of_lt h)

  filler-Frames :
      wraps r (length b) ≡ true
      → Frames
          (write_eob r.storage (r.head % r.capacity) (span r.capacity r.head))
          r.capacity
          r.tail
          (r.head + span r.capacity r.head)
          rs
  filler-Frames e =
      let lap = span-slots r.capacity r.head v.whole v.head_aligned (omega (arith, offset-lt)) in
      rw append-nil at (
        Frames-append
          (Frames-write_eob r.storage r.capacity r.tail r.head (span r.capacity r.head)
            (omega (arith, offset-lt)) (omega (arith, wrapped_room e, lap, offset-lt))
            (omega (arith, lap, offset-lt)) v.frames)
          (Frames-of_eob r.storage r.capacity r.head lap (omega (arith, offset-lt))
            (omega (arith, wrapped_room e, w.short))))

  wrapped-Frames :
      (mem : Memory)
      → wraps r (length b) ≡ true
      → Frames mem r.capacity r.tail (r.head + span r.capacity r.head) rs
      → Frames
          (write_bytes mem 0 b)
          r.capacity
          r.tail
          (r.head + span r.capacity r.head + slots (length b))
          (rs ++ b ∷ [])
  wrapped-Frames mem e f =
      let start = mod_lap r.capacity (omega (arith, offset-lt)) r.head in
      let order = Frames-le v.frames in
      rw start at (
        Frames-append
          (Frames-write_bytes mem r.capacity r.tail (r.head + span r.capacity r.head)
            (r.head + span r.capacity r.head) b (omega (arith, offset-lt)) (omega arith)
            (omega (arith, wrapped_room e, length-slots))
            (omega (arith, start, wrapped_room e, length-slots, order)) f)
          (Frames-of_wire mem r.capacity (r.head + span r.capacity r.head) b w
            (omega (arith, start, wrapped_room e, order))))

  commit_wrapped :
      wraps r (length b) ≡ true
      → Holds
          (publish
            (write_record (filled r (length b)) (slot_for r (length b)) b)
            (slot_for r (length b)))
          (rs ++ b ∷ [])
  commit_wrapped e =
      rw (slot_wrapped e, filled_wrapped e)
        (unfold publish write_record in
          record {
            bits = v.bits;
            power = v.power;
            whole = v.whole;
            large = v.large;
            mask_is = v.mask_is;
            head_aligned = omega (
              arith,
              v.head_aligned,
              span-slots r.capacity r.head v.whole v.head_aligned (omega (arith, offset-lt)),
            );
            cache_behind = v.cache_behind;
            caught_up = v.caught_up;
            room = (wrapped_room e).1;
            frames = wrapped-Frames _ e (filler-Frames e);
          })

  pub commit-Holds :
      Holds
        (publish
          (write_record (filled r (length b)) (slot_for r (length b)) b)
          (slot_for r (length b)))
        (rs ++ b ∷ [])
  commit-Holds = elim (Bool-cases (wraps r (length b))) [
    | inl e ↦ commit_wrapped e
    | inr e ↦ commit_straight e
  ]
