-- ===== src/Sink/Captured.antt =====
-- src/sink/fast.rs: what a captured record says of itself, and the handle of the in-memory sink.
use ticklog.Base.{
  ℕ, ◌+◌, ◌≡◌, ◌<◌, ◌≤◌, refl, ap, ◌∙◌, arith, Byte, Bytes, Bool, ◌&&◌, List, map, length, take,
  drop, leb, ◌==◌, if◌then◌else◌,
}
use ticklog.Drain.{Delivery, deliver, level_of, or_error}
use ticklog.Encode.{Arg}
use ticklog.Level.{Level, to_u8}
use ticklog.Level.Laws.{from_u8-to_u8_iff}
use ticklog.Record.{flag_site}
use ticklog.Record.Wire.{wire_of}
use ticklog.Sink.{Captures, empty}
use ticklog.Words.{from_le_bytes, from_le_bytes-to_le_bytes, u16_mod, u64_mod}

-- 0 where the field is out of range
unfoldable le_u16 : Bytes → ℕ → ℕ
le_u16 bytes offset =
    if leb (offset + 2) (length bytes) then from_le_bytes (take 2 (drop offset bytes)) else 0

unfoldable le_u64 : Bytes → ℕ → ℕ
le_u64 bytes offset =
    if leb (offset + 8) (length bytes) then from_le_bytes (take 8 (drop offset bytes)) else 0

unfoldable total_size_of : Delivery → ℕ
total_size_of r = le_u16 r.0 2

unfoldable flags_of : Delivery → ℕ
flags_of r = le_u16 r.0 5

unfoldable timestamp_ticks : Delivery → ℕ
timestamp_ticks r = le_u64 r.0 8

-- The sink's two stores.
pub record Handle : Type 0 where
  pub records : Captures
  pub lines : Captures

unfoldable is_empty : Handle → Bool
is_empty h = length h.records.items == 0 && length h.lines.items == 0

unfoldable levels : Handle → List Level
levels h = map (λ r. r.1) h.records.items

unfoldable clear : Handle → Handle
clear h = record { records = empty; lines = empty }

le_u16_lem :
    (bytes : Bytes) (offset : ℕ)
    → offset + 2 ≤ length bytes
    → le_u16 bytes offset ≡ from_le_bytes (take 2 (drop offset bytes))
unfolding le_u16
le_u16_lem bytes offset h = ground arith

le_u64_lem :
    (bytes : Bytes) (offset : ℕ)
    → offset + 8 ≤ length bytes
    → le_u64 bytes offset ≡ from_le_bytes (take 8 (drop offset bytes))
unfolding le_u64
le_u64_lem bytes offset h = ground arith

-- Of an assembled record that the drain hands on as it is, with its size a u16 and its ticks a u64: the
-- capture says its size, that it has a site, its ticks and its level.
captured_lem :
    (level : Level) (timestamp site : ℕ) (n_args : Byte) (total : ℕ) (args : List Arg)
    → total < u16_mod
    → timestamp < u64_mod
    → let r = deliver (λ b. b) (wire_of level timestamp site n_args total args) in
      (total_size_of r ≡ total)
      × (flags_of r ≡ flag_site)
      × (timestamp_ticks r ≡ timestamp)
      × (r.1 ≡ level)
unfolding total_size_of flags_of timestamp_ticks deliver wire_of level_of
captured_lem level timestamp site n_args total args ht hs = (
  le_u16_lem _ 2 (omega arith) ∙ from_le_bytes-to_le_bytes 2 total (omega arith),
  le_u16_lem _ 5 (omega arith),
  le_u64_lem _ 8 (omega arith) ∙ from_le_bytes-to_le_bytes 8 timestamp (omega arith),
  ap or_error ((from_u8-to_u8_iff (to_u8 level) level).1 refl),
)
