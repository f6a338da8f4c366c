-- ===== src/Tests/Pipeline.antt =====
-- One record through a ring: logged by the producer, then drained.
use ticklog.Base.{◌≡◌, refl, arith, [], ◌∷◌, ◌++◌, map, true}
use ticklog.Cursor.{read_array, read_u8, read_u16}
use ticklog.Drain.{deliver, drain_ring_inner, drain_loop, turn, frame_turn, read_prefix, level_of}
use ticklog.Level.{from_u8}
use ticklog.Memory.{write_bytes}
use ticklog.Pipeline.{dispatch, commit, Run, start, log}
use ticklog.Pipeline.Order.{drained-in_order}
use ticklog.Policy.{Backpressure}
use ticklog.Ring.{
  Ring, Seen, from_storage, reserve, settle, slot_for, filled, publish, write_record,
  try_ensure_capacity, fits, align_up,
}
use ticklog.Ring.Holds.{Holds}
use ticklog.Tests.Ring.{fresh, fresh-Holds, small, small-IsWire}

abbrev look : Seen
look = record { tail = 0; live = true }

abbrev after_log : Ring
after_log = record fresh { head = 64; storage = write_bytes (λ _. 0) 0 small }

abbrev after_drain : Ring
after_drain = record after_log { tail = 64; head_cache = 64 }

one_logged : Run (λ b. b) after_log (small ∷ []) []
unfolding dispatch commit reserve settle slot_for filled publish write_record try_ensure_capacity
    fits align_up from_storage
one_logged =
    log small Backpressure.drop (look ∷ []) (start fresh-Holds) small-IsWire (omega arith)
      (omega arith, tt) refl

drained-in_order_example :
    (([] ++ deliver (λ b. b) small ∷ []) ≡ map (deliver (λ b. b)) (small ∷ []))
    × Holds after_drain []
unfolding drain_ring_inner drain_loop turn frame_turn read_prefix level_of read_array read_u8
    read_u16 from_u8 write_bytes from_storage align_up
drained-in_order_example = drained-in_order (λ b. b) {worked = true} one_logged (omega arith) refl
