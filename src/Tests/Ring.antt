-- ===== src/Tests/Ring.antt =====
-- src/ring.rs and src/backoff.rs on small rings.
use ticklog.Base.{◌+◌, ◌≤◌, ◌<◌, ◌⊎◌, ◌≡◌, refl, arith, Bytes, [], ◌∷◌, true, false, replicate, inl}
use ticklog.Policy.{Backpressure}
use ticklog.Ring.{
  needed_for, refused, Ring, Seen, from_storage, reserve, spinning, reserved, align_up, Reservation,
}
use ticklog.Ring.Frames.{IsWire, done}
use ticklog.Ring.Drop.{reserve-drop_lem}
use ticklog.Ring.Holds.{Holds}
use ticklog.Ring.Queue.{Outcome, reserve-Outcome, reserve_block-returns}
use ticklog.Ring.Stuck.{reserve_block_stuck}

abbrev pub fresh : Ring
fresh = from_storage (λ _. 0) 256 false

pub fresh-Holds : Holds fresh []
unfolding from_storage
fresh-Holds = record {
  bits = 8;
  power = refl;
  whole = refl;
  large = omega arith;
  mask_is = refl;
  head_aligned = refl;
  cache_behind = omega arith;
  caught_up = refl;
  room = omega arith;
  frames = done refl;
}

-- sixteen bytes: version, type, the length, the level and eleven zeroes
abbrev pub small : Bytes
small = 2 ∷ 1 ∷ 16 ∷ 0 ∷ 3 ∷ replicate 11 0

pub small-IsWire : IsWire small
small-IsWire = record {
  body = 3 ∷ replicate 11 0;
  shape = refl;
  long = omega arith;
  short = omega arith;
}

abbrev look : Seen
look = record { tail = 0; live = true }

-- A ring of 256 bytes whose first 128 have been written and drained.
abbrev half_way : Ring
half_way = record fresh { head = 128; tail = 128; head_cache = 128 }

half_way-Holds : Holds half_way []
unfolding from_storage
half_way-Holds = record {
  bits = 8;
  power = refl;
  whole = refl;
  large = omega arith;
  mask_is = refl;
  head_aligned = refl;
  cache_behind = omega arith;
  caught_up = refl;
  room = omega arith;
  frames = done refl;
}

abbrev look_late : Seen
look_late = record { tail = 128; live = true }

reserve-Outcome_example :
    Outcome half_way [] small (reserve half_way 16 Backpressure.drop (look_late ∷ []))
unfolding from_storage
reserve-Outcome_example =
    reserve-Outcome small Backpressure.drop (look_late ∷ []) half_way-Holds small-IsWire
      (omega arith) (omega arith, tt)

reserve_block-returns_example :
    (slot : Reservation) × (r' : Ring) × (reserve half_way 16 Backpressure.block (look_late ∷ [])
      ≡ reserved slot r')
unfolding from_storage align_up
reserve_block-returns_example =
    reserve_block-returns 16 look_late [] half_way-Holds (omega arith) (omega arith)
      (omega arith, tt) (inl (omega arith))

reserve_block_stuck_example :
    reserve half_way 192 Backpressure.block (look_late ∷ look_late ∷ []) ≡ spinning
unfolding from_storage align_up
reserve_block_stuck_example =
    reserve_block_stuck 192 (look_late ∷ look_late ∷ []) half_way-Holds (omega arith) (omega arith)
      (omega arith) (omega arith, (omega arith, tt)) (refl, (refl, tt))

reserve-drop_lem_example :
    let result = reserve half_way 16 Backpressure.drop (look_late ∷ []) in
    let needed = needed_for half_way 16 in
    ((half_way.head + needed ≤ half_way.mask + 128)
      × (slot : Reservation) × (r' : Ring) × (result ≡ reserved slot r'))
    ⊎ ((half_way.mask + 128 < half_way.head + needed)
        × (result ≡ refused (record half_way { tail_cache = 128 })))
unfolding from_storage
reserve-drop_lem_example =
    reserve-drop_lem 16 look_late half_way-Holds (omega arith) (omega arith) (omega arith)
      (omega arith)
