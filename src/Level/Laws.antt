-- ===== src/Level/Laws.antt =====
-- The wire byte of a level, both ways.
use ticklog.Base.{ℕ, ◌≡◌, ◌↔◌, some, arith}
use ticklog.Level.{Level, error, warn, info, debug, trace, to_u8, from_u8}

-- A byte decodes to a level exactly when it is the byte that the level is encoded as, so every
-- level is read back from its own byte and every byte outside 1 to 5 is rejected.
pub from_u8-to_u8_iff : (b : ℕ) (l : Level) → (from_u8 b ≡ some l) ↔ (b ≡ to_u8 l)
unfolding from_u8 to_u8
from_u8-to_u8_iff b error = ground arith
from_u8-to_u8_iff b warn = ground arith
from_u8-to_u8_iff b info = ground arith
from_u8-to_u8_iff b debug = ground arith
from_u8-to_u8_iff b trace = ground arith
