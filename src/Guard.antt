-- ===== src/Guard.antt =====
-- src/guard.rs: what dropping the guard does to the shared state, before it sets the shutdown flag and
-- waits for the drain's thread.
use ticklog.Base.{ℕ, false, List, [], ◌∷◌}
use ticklog.Ring.{Ring}
use ticklog.Shared.{Shared, update}

-- `set_dead`
abbrev pub set_dead : Ring → Ring
set_dead r = record r { live = false }

unfoldable pub set_all_dead : Shared → List ℕ → Shared
set_all_dead w [] = w
set_all_dead w (a ∷ rings) = set_all_dead (update w a set_dead) rings

unfoldable pub drop_guard : Shared → Shared
drop_guard w = set_all_dead w w.registry
