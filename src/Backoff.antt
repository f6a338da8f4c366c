-- ===== src/Backoff.antt =====
-- src/backoff.rs: the wait of a blocked producer (the build without model checking).
use ticklog.Base.{ℕ, ◌+◌, ◌%◌, ◌^◌, ltb, if◌then◌else◌}

-- What one step of the wait does with the processor.
pub data Relax : Type 0 where
  spin yield_now : Relax

abbrev pub spin_loops : ℕ
spin_loops = 64

pub record Backoff : Type 0 where
  pub counter : ℕ

unfoldable pub new : Backoff
new = record { counter = 0 }

-- `counter` is a u32 and wraps.
unfoldable pub wait : Backoff → Relax
wait b = if ltb b.counter spin_loops then spin else yield_now

unfoldable pub waited : Backoff → Backoff
waited b = record { counter = (b.counter + 1) % 2 ^ 32 }
