-- ===== src/Level.antt =====
-- src/level.rs: the severity of a record, its wire byte and its name.
pub mod Laws
use ticklog.Base.{ℕ, Byte, Bytes, Bool, Option, none, some, leb, ◌==◌, if◌then◌else◌, ascii}

-- From the most severe to the least; the discriminants are 1 to 5.
pub data Level : Type 0 where
  error warn info debug trace : Level

unfoldable pub as_str : Level → Bytes
as_str error = ascii "ERROR"
as_str warn = ascii "WARN"
as_str info = ascii "INFO"
as_str debug = ascii "DEBUG"
as_str trace = ascii "TRACE"

unfoldable pub to_u8 : Level → Byte
to_u8 error = 1
to_u8 warn = 2
to_u8 info = 3
to_u8 debug = 4
to_u8 trace = 5

unfoldable pub from_u8 : Byte → Option Level
from_u8 b =
    if b == 1
    then some error
    else if b == 2
    then some warn
    else if b == 3
    then some info
    else if b == 4
    then some debug
    else if b == 5
    then some trace
    else none

-- The derived order, by discriminant.
unfoldable pub level_le : Level → Level → Bool
unfolding to_u8
level_le a b = leb (to_u8 a) (to_u8 b)
