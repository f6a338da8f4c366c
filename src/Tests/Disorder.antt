-- ===== src/Tests/Disorder.antt =====
-- src/drain.rs on three segments of one thread.
use ticklog.Base.{
  List, ℕ, zero, suc, ◌≡◌, refl, arith, Byte, Bytes, Bool, true, false, some, [], ◌∷◌, map,
  replicate,
}
use ticklog.Drain.{deliver}
use ticklog.Memory.{write_bytes}
use ticklog.Policy.{Backpressure}
use ticklog.Poll.{Poll, poll_loop, poll_once, flush_lines}
use ticklog.Poll.Disorder.{Listed, poll_loop-disorder}
use ticklog.Poll.Rearranged.{Segment, entries}
use ticklog.Poll.Sweep.{Swept, poll_once-Swept}
use ticklog.Ring.{Ring, from_storage}
use ticklog.Ring.Frames.{IsWire, wire, done}
use ticklog.Ring.Holds.{Holds}
use ticklog.Shared.{Shared}
use ticklog.Tests.Ring.{fresh}
use ticklog.Tests.Segments.{world}

-- a record of 16 bytes with this wire byte for its level
abbrev of_level : Byte → Bytes
of_level n = 2 ∷ 1 ∷ 16 ∷ 0 ∷ n ∷ replicate 11 0

of_level-IsWire : (n : Byte) → IsWire (of_level n)
of_level-IsWire n = record {
  body = n ∷ replicate 11 0;
  shape = refl;
  long = omega arith;
  short = omega arith;
}

abbrev segment : Byte → Bool → Ring
segment n full = record fresh {
  head = 64;
  storage = write_bytes (λ _. 0) 0 (of_level n);
  handed_off = full;
}

segment-Holds : (n : Byte) (full : Bool) → Holds (segment n full) (of_level n ∷ [])
unfolding from_storage write_bytes
segment-Holds n full = record {
  bits = 8;
  power = refl;
  whole = refl;
  large = omega arith;
  mask_is = refl;
  head_aligned = refl;
  cache_behind = omega arith;
  caught_up = refl;
  room = omega arith;
  frames = wire {p = 0} (of_level-IsWire n) (omega arith) refl (done refl);
}

-- The first and the second were filled and handed off.
abbrev segments : ℕ → Ring
segments zero = segment 0 true
segments (suc zero) = segment 1 true
segments (suc (suc n)) = segment 2 false

abbrev three : Shared
three = record world { store = segments; registry = 0 ∷ 1 ∷ 2 ∷ []; policy = Backpressure.quill }

first : Listed three 0 0 (of_level 0 ∷ []) true
unfolding from_storage
first = record {
  holds = segment-Holds 0 true;
  small = omega arith;
  same = refl;
  free = refl;
  done = refl;
}

second : Listed three 1 0 (of_level 1 ∷ []) true
unfolding from_storage
second = record {
  holds = segment-Holds 1 true;
  small = omega arith;
  same = refl;
  free = refl;
  done = refl;
}

third : Listed three 2 0 (of_level 2 ∷ []) false
unfolding from_storage
third = record {
  holds = segment-Holds 2 false;
  small = omega arith;
  same = refl;
  free = refl;
  done = refl;
}

-- The records of one thread leave in the order 0, 2, 1.
poll_loop-disorder_example :
    (p : Poll) × (poll_loop
        (λ b. b)
        3
        (record { had_work = false; rings = []; world = three; out = [] })
        ((0, 0) ∷ (1, 0) ∷ (2, 0) ∷ [])
      ≡ some p)
    × (p.out ≡ map (deliver (λ b. b)) (of_level 0 ∷ of_level 2 ∷ of_level 1 ∷ []))
    × (p.rings ≡ (2, 0) ∷ [])
poll_loop-disorder_example =
    poll_loop-disorder (λ b. b) three 0 1 2 0 0 0 (of_level 0 ∷ []) (of_level 1 ∷ [])
      (of_level 2 ∷ []) first second third (λ e. absurd (omega (arith, e)))
      (λ e. absurd (omega (arith, e))) (λ e. absurd (omega (arith, e)))

abbrev listed : List Segment
listed =
    record { at = 0; serial = 0; queue = of_level 0 ∷ []; full = true }
    ∷ record { at = 1; serial = 0; queue = of_level 1 ∷ []; full = true }
    ∷ record { at = 2; serial = 0; queue = of_level 2 ∷ []; full = false }
    ∷ []

poll_once-Swept_example :
    let p : Poll = record { had_work = false; rings = []; world = three; out = [] } in
    (p' : Poll) × Swept (λ b. b) p listed p'
    × (poll_loop (λ b. b) 3 p (entries listed) ≡ some p')
    × (poll_once (λ b. b) true three (entries listed) ≡ some (flush_lines true p'))
poll_once-Swept_example =
    poll_once-Swept (λ b. b) true three listed refl (first, (second, (third, tt)))
