-- ===== src/Tests/Drain.antt =====
-- src/drain.rs and src/level.rs on a ring with one record.
use ticklog.Base.{◌≡◌, refl, arith, [], ◌∷◌, true, some}
use ticklog.Drain.{deliver, drain_ring_inner}
use ticklog.Drain.Exact.{drain_ring_inner-exact}
use ticklog.Memory.{write_bytes}
use ticklog.Ring.{Ring, from_storage}
use ticklog.Ring.Frames.{done, wire}
use ticklog.Ring.Holds.{Holds}
use ticklog.Tests.Ring.{fresh, small, small-IsWire}

-- the ring after one record has been written and published
abbrev pub one : Ring
one = record fresh { head = 64; storage = write_bytes (λ _. 0) 0 small }

pub one-Holds : Holds one (small ∷ [])
unfolding from_storage write_bytes
one-Holds = record {
  bits = 8;
  power = refl;
  whole = refl;
  large = omega arith;
  mask_is = refl;
  head_aligned = refl;
  cache_behind = omega arith;
  caught_up = refl;
  room = omega arith;
  frames = wire {p = 0} small-IsWire (omega arith) refl (done refl);
}

drain_ring_inner-exact_example :
    let r = record one { tail = 64; head_cache = 64 } in
    (drain_ring_inner (λ b. b) one ≡ some (true, r, deliver (λ b. b) small ∷ [])) × Holds r []
unfolding from_storage
drain_ring_inner-exact_example =
    drain_ring_inner-exact one (small ∷ []) (λ b. b) one-Holds (omega arith)
