-- ===== src/Tests/Slot.antt =====
-- src/thread_buf.rs on a thread that has not logged yet.
use ticklog.Base.{ℕ, ◌≡◌, ◌≢◌, refl, Bool, true, false, none, some}
use ticklog.Base.Text.{ascii}
use ticklog.ThreadBuf.Slot.{
  ThreadSlot, Setting, get_stable_thread_id, strip_prefix, strip_suffix, parse_u64, parse_digits,
  with_thread_buf, warm_up, empty_closure,
}
use ticklog.ThreadBuf.Slot.Nested.{
  Body, done, panics, logs, without_logs, exec, with_thread_buf-without_logs,
}
use ticklog.ThreadBuf.Slot.Warm.{with_thread_buf-warm_up}
use ticklog.Tests.Segments.{world}

abbrev setting : Setting
setting = record {
  registry_set = true;
  ring_capacity = some 256;
  id_str = ascii "ThreadId(17)";
  name = some (ascii "worker");
}

abbrev new_slot : ThreadSlot
new_slot = record { active = false; buf = none }

-- A closure whose nested log would panic, and which says whether it ran.
abbrev nested : Body Bool
nested = logs panics (λ ran. done ran)

with_thread_buf-without_logs_example :
    (with_thread_buf setting (exec setting nested) new_slot world
      ≡ with_thread_buf setting (exec setting (without_logs nested)) new_slot world)
    × ((with_thread_buf setting (exec setting nested) new_slot world).outcome ≢ none)
    × ((with_thread_buf setting (exec setting nested) new_slot world).slot.active ≡ false)
with_thread_buf-without_logs_example =
    with_thread_buf-without_logs setting nested new_slot world refl

-- The bytes that `Debug` prints.
thread_number : get_stable_thread_id (ascii "ThreadId(17)") ≡ 17
unfolding get_stable_thread_id strip_prefix strip_suffix parse_u64 parse_digits
thread_number = refl

with_thread_buf-warm_up_example :
    let (s', w') = (warm_up setting {Io = ℕ} new_slot world).1 in
    (with_thread_buf setting empty_closure s' w'
      ≡ with_thread_buf setting empty_closure new_slot world)
    × ((warm_up setting {Io = ℕ} s' w').1 ≡ (s', w'))
with_thread_buf-warm_up_example =
    with_thread_buf-warm_up setting ℕ refl empty_closure new_slot world refl
