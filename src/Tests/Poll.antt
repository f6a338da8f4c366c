-- ===== src/Tests/Poll.antt =====
-- src/drain.rs and src/guard.rs on a ring that holds one record.
use ticklog.Base.{ℕ, ◌≡◌, ◌&&◌, refl, arith, true, false, [], ◌∷◌, some, has, distinct}
use ticklog.Guard.{drop_guard}
use ticklog.Poll.{Poll, Visit, addresses, keep, resync, visit, poll_once}
use ticklog.Poll.Pass.{Serves, none_left, serving, deliveries, any_work, poll_once-Serves}
use ticklog.Poll.Race.{reserve_for_helper, visit-take_pooled}
use ticklog.Poll.Entries.{current}
use ticklog.Poll.Resync.{resync_lem}
use ticklog.Poll.Retire.{Visited, visit_lem}
use ticklog.Poll.Run.{Loop, entered, synced, polled, flushed, spun, loop_turn, final_pass}
use ticklog.Poll.Finalize.{Waits, none_wait, waiting}
use ticklog.Poll.Shutdown.{final_pass-drop_guard, loop_turn-unflushed}
use ticklog.Ring.{Ring, from_storage}
use ticklog.Ring.Frames.{done, wire}
use ticklog.Ring.Holds.{Holds}
use ticklog.Segments.{undisturbed, taken, take_pooled}
use ticklog.Shared.{Shared, update}
use ticklog.Memory.{write_bytes}
use ticklog.Tests.Drain.{one, one-Holds}
use ticklog.Tests.Ring.{small, small-IsWire}
use ticklog.Tests.Segments.{world}

-- a full segment of the pool, handed off
abbrev full : Ring
full = record one { handed_off = true; recyclable = true }

full-Holds : Holds full (small ∷ [])
unfolding from_storage write_bytes
full-Holds = record {
  bits = 8;
  power = refl;
  whole = refl;
  large = omega arith;
  mask_is = refl;
  head_aligned = refl;
  cache_behind = omega arith;
  caught_up = refl;
  room = omega arith;
  frames = wire {p = 0} small-IsWire (omega arith) refl (done refl);
}

abbrev full_world : Shared
full_world = record world { store = λ _. full }

resync_lem_example :
    (distinct (addresses (resync world ((0, 0) ∷ (2, 0) ∷ []))) ≡ true)
    × ((b : ℕ)
        → has (addresses (resync world ((0, 0) ∷ (2, 0) ∷ []))) b
          ≡ (has (0 ∷ []) b && keep world b))
    × (current world (resync world ((0, 0) ∷ (2, 0) ∷ [])) ≡ true)
resync_lem_example = resync_lem world ((0, 0) ∷ (2, 0) ∷ []) refl

visit_lem_example :
    (v : Visit) × (visit (λ b. b) full_world (0, 0) ≡ some v)
    × Visited (λ b. b) full_world 0 (small ∷ []) v
unfolding from_storage
visit_lem_example =
    visit_lem (λ b. b) full_world 0 0 (small ∷ []) full-Holds (omega arith) refl refl

visit-take_pooled_example :
    (v : Visit) × (w' : Shared) × (visit (λ b. b) full_world (0, full.serial) ≡ some v)
    × (take_pooled (λ b. b) (update v.after 0 reserve_for_helper) (some 0) (some 0) (undisturbed [])
        ≡ taken 0 w')
    × (w'.spares ≡ 0 ∷ [])
unfolding from_storage
visit-take_pooled_example =
    visit-take_pooled (λ b. b) full_world 0 (small ∷ []) [] full-Holds (omega arith) refl refl refl

one-Serves : Serves world ((0, 0) ∷ []) ((small ∷ []) ∷ [])
unfolding from_storage
one-Serves = serving one-Holds (omega arith) refl refl refl none_left

poll_once-Serves_example :
    (p : Poll) × (poll_once (λ b. b) false world ((0, 0) ∷ []) ≡ some p)
    × (p.out ≡ deliveries (λ b. b) ((small ∷ []) ∷ []))
    × (p.had_work ≡ any_work (λ b. b) ((small ∷ []) ∷ []))
    × (p.rings ≡ (0, 0) ∷ [])
    × ((b : ℕ) → has (0 ∷ []) b ≡ false → p.world.store b ≡ one)
    × ((b : ℕ) → has (0 ∷ []) b ≡ true → Holds (p.world.store b) [])
poll_once-Serves_example =
    poll_once-Serves (λ b. b) world ((0, 0) ∷ []) ((small ∷ []) ∷ []) refl one-Serves

one-Waits : Waits world (0 ∷ []) ((small ∷ []) ∷ [])
unfolding from_storage
one-Waits = waiting one-Holds (omega arith) refl none_wait

final_pass-drop_guard_example :
    final_pass (λ b. b) false (record (entered world) { world = drop_guard world })
    ≡ some (synced (deliveries (λ b. b) ((small ∷ []) ∷ [])) ∷ polled false [] ∷ flushed ∷ [])
final_pass-drop_guard_example =
    final_pass-drop_guard (λ b. b) (entered world) ((small ∷ []) ∷ []) refl refl
      (λ b m. absurd (ground arith)) one-Waits

abbrev gone : Ring
gone = record one { live = false }

gone-Holds : Holds gone (small ∷ [])
unfolding from_storage write_bytes
gone-Holds = record {
  bits = 8;
  power = refl;
  whole = refl;
  large = omega arith;
  mask_is = refl;
  head_aligned = refl;
  cache_behind = omega arith;
  caught_up = refl;
  room = omega arith;
  frames = wire {p = 0} small-IsWire (omega arith) refl (done refl);
}

abbrev left_world : Shared
left_world = record world { store = λ _. gone }

loop_turn-unflushed_example :
    (l' : Loop) × (loop_turn (λ b. b) false (entered left_world)
      ≡ some (l', synced (deliveries (λ b. b) ((small ∷ []) ∷ [])) ∷ polled false [] ∷ spun 8 ∷ []))
unfolding from_storage
loop_turn-unflushed_example =
    loop_turn-unflushed (λ b. b) (entered left_world) ((small ∷ []) ∷ []) refl refl refl refl
      (λ b m. absurd (ground arith)) (λ b m. refl) (waiting gone-Holds (omega arith) refl none_wait)
