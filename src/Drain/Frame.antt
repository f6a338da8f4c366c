-- ===== src/Drain/Frame.antt =====
-- What one turn of the drain loop makes of a frame that the producer wrote.
use native.Mathlib.Nat.{mod-lt, mod-eq_of_lt}
use ticklog.Base.{
  ℕ, ◌+◌, ◌-◌, ◌%◌, ◌^◌, ◌≤◌, ◌<◌, ◌≡◌, refl, ap, ◌∙◌, arith, Bytes, true, [], ◌∷◌, ◌++◌, length,
}
use ticklog.Cursor.Laws.{read_u8-to_le_bytes, read_u16-to_le_bytes}
use ticklog.Drain.{Pass, again, read_prefix, deliver, frame_turn, turn}
use ticklog.Memory.{read_bytes-split, read_bytes}
use ticklog.Ring.{Ring, version, log_record, end_of_buffer, header_size, slot_size, max_record_size}
use ticklog.Ring.Align.{slots, align_up-slots, mask-mod}
use ticklog.Ring.Frames.{IsWire, span}
use ticklog.Words.{to_le_bytes, u64_mod}

read_prefix_lem :
    (v t n : ℕ) (rest : Bytes)
    → v < 2 ^ 8
    → t < 2 ^ 8
    → n < 2 ^ 16
    → read_prefix (to_le_bytes 1 v ++ (to_le_bytes 1 t ++ (to_le_bytes 2 n ++ rest)))
      ≡ record { version_of = v; rectype = t; total_size = n }
unfolding read_prefix
read_prefix_lem v t n rest hv ht hn =
    rw (read_u8-to_le_bytes v _ hv, read_u8-to_le_bytes t _ ht, read_u16-to_le_bytes n rest hn)

module _ (r : Ring) (bits : ℕ) (power : r.capacity ≡ 2 ^ bits) (large : slot_size ≤ r.capacity)
    (payload : Bytes → Bytes) (head_cache : ℕ) (s : Pass) where
  -- a turn is decided by the prefix of the frame at its offset
  turn_of_prefix :
      (n t total : ℕ) (rest : Bytes)
      → read_bytes r.storage (s.tail % r.capacity) n
        ≡ version ∷ t % 256 ∷ (to_le_bytes 2 total ++ rest)
      → s.tail % r.capacity + n ≤ r.capacity
      → t < 2 ^ 8
      → total < 2 ^ 16
      → turn payload r head_cache s
        ≡ frame_turn payload r head_cache s
            (s.tail % r.capacity)
            (record { version_of = version; rectype = t; total_size = total })
  unfolding turn
  turn_of_prefix n t total rest e fit ht hn =
      let o : ℕ = s.tail % r.capacity in
      let m : ℕ = r.capacity - o - n in
      let long : r.capacity - o ≡ n + m = omega arith in
      let bytes : read_bytes r.storage o (r.capacity - o)
          ≡ version ∷ t % 256 ∷ (to_le_bytes 2 total ++ (rest ++ read_bytes r.storage (o + n) m)) =
        ap (read_bytes r.storage o) long
        ∙ read_bytes-split r.storage o n m
        ∙ ap (λ x. x ++ read_bytes r.storage (o + n) m) e in
      rw (mask-mod r.capacity (r.capacity - 1) bits s.tail power refl) (
        ap (λ x. frame_turn payload r head_cache s o (read_prefix x)) bytes
        ∙ ap (frame_turn payload r head_cache s o) (
            read_prefix_lem version t total (rest ++ read_bytes r.storage (o + n) m) (omega arith)
              ht hn))

  -- A record is delivered, and the tail moves behind its slots.
  pub turn_wire :
      (b : Bytes)
      → IsWire b
      → s.tail % r.capacity + slots (length b) ≤ r.capacity
      → read_bytes r.storage (s.tail % r.capacity) (length b) ≡ b
      → s.tail + slots (length b) < u64_mod
      → turn payload r head_cache s
        ≡ again (record {
          tail = s.tail + slots (length b);
          had_work = true;
          out = s.out ++ deliver payload b ∷ [];
        })
  unfolding frame_turn
  turn_wire b w fit there small =
      turn_of_prefix (length b) log_record (length b) w.body (there ∙ w.shape) (omega arith)
        (omega arith) (omega (arith, w.short))
      ∙ rw (there, align_up-slots (length b) (omega (arith, w.short)), mod-eq_of_lt small)
          (ground (arith, w.short, w.long))

  -- A filler is skipped.
  pub turn_filler :
      header_size ≤ span r.capacity s.tail
      → span r.capacity s.tail ≤ max_record_size
      → slots (span r.capacity s.tail) ≡ span r.capacity s.tail
      → read_bytes r.storage (s.tail % r.capacity) 4
        ≡ version ∷ end_of_buffer ∷ to_le_bytes 2 (span r.capacity s.tail)
      → s.tail + span r.capacity s.tail < u64_mod
      → turn payload r head_cache s ≡ again (record s { tail = s.tail + span r.capacity s.tail })
  unfolding frame_turn
  turn_filler lo hi whole there small =
      turn_of_prefix 4 end_of_buffer (span r.capacity s.tail) [] there (omega arith) (omega arith)
        (omega arith)
      ∙ rw (align_up-slots (span r.capacity s.tail) (omega arith), whole, mod-eq_of_lt small)
          (ground (arith, mod-lt s.tail {m = r.capacity}))
