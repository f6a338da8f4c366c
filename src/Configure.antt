-- ===== src/Configure.antt =====
-- src/builder.rs: the run-time part of configure, and the errors of src/error.rs. The statics that are
-- set once are a state; whether the system spawns the thread is an argument. Affinity and the clock's
-- calibration, which the drain only carries, are left out.
pub mod Once
use ticklog.Base.{
  ℕ, Bytes, Bool, true, false, ◌||◌, Option, none, some, [], ◌∷◌, List, if◌then◌else◌, ltb, not,
  ◌⊎◌, inl, inr, ◌>>=◌,
}
use ticklog.Base.Int.{ℤ, pos, negsuc}
use ticklog.Base.Text.{ascii}
use ticklog.Format.{Checked, ok, err, Message}
use ticklog.Format.Template.{Segment, Parsed, parse}
use ticklog.Policy.{Backpressure, drop, block, nano_log, quill}
use ticklog.Ring.{is_power_of_two, slot_size}
use ticklog.Segments.{init}
use ticklog.Shared.{Shared}

pub data TicklogError (Io : Type 0) : Type 0 where
  not_initialized already_initialized : TicklogError Io
  drain_spawn_failed : Io → TicklogError Io
  sink_write_failed : Io → TicklogError Io
  invalid_timezone_offset : ℤ → TicklogError Io
  invalid_format_pattern : Message → TicklogError Io
  invalid_ring_capacity : ℕ → TicklogError Io

pub record Config : Type 0 where
  pub timezone_offset : ℤ
  pub ring_capacity : ℕ
  pub format : Bytes
  pub backpressure : Backpressure

-- `BACKPRESSURE`, whether `REGISTRY` is set, `RING_CAPACITY`, and the shared objects, whose field
-- `installed` says that `SEGMENTS` is set.
pub record Statics : Type 0 where
  pub backpressure : Option Backpressure
  pub claimed : Bool
  pub ring_capacity : Option ℕ
  pub shared : Shared

-- What the drain starts with.
pub record Started : Type 0 where
  pub timezone_offset : ℤ
  pub line_pattern : List Segment
  pub segmented : Bool

-- `OnceLock::set`, where the result is ignored
abbrev pub set_once {ℓ} : {A : Type ℓ} → Option A → A → Option A
set_once (some a) b = some a
set_once none b = some b

-- from -43200 to 50400
unfoldable pub valid_offset : ℤ → Bool
valid_offset (pos n) = not (ltb 50400 n)
valid_offset (negsuc n) = ltb n 43200

abbrev pub default_line_pattern : Bytes
default_line_pattern = ascii "{timestamp} {level} {file}:{line} {message}"

abbrev pub pattern_str : Bytes → Bytes
pattern_str [] = default_line_pattern
pattern_str (b ∷ bs) = b ∷ bs

unfoldable pub is_segmented : Backpressure → Bool
is_segmented drop = false
is_segmented block = false
is_segmented nano_log = true
is_segmented quill = true

abbrev pub checked_pattern : {Io : Type 0} → Checked Parsed → TicklogError Io ⊎ List Segment
checked_pattern (ok p) = inr p.segments
checked_pattern (err m) = inl (invalid_format_pattern m)

-- The checks before anything global is claimed.
unfoldable pub validate : {Io : Type 0} → Config → Option (TicklogError Io ⊎ List Segment)
validate c =
    if not (valid_offset c.timezone_offset)
    then some (inl (invalid_timezone_offset c.timezone_offset))
    else if not (is_power_of_two c.ring_capacity) || ltb c.ring_capacity slot_size
    then some (inl (invalid_ring_capacity c.ring_capacity))
    else do p ← parse (pattern_str c.format); some (checked_pattern p)

pub data Configured (Io : Type 0) : Type 0 where
  started : Started → Configured Io
  failed : TicklogError Io → Configured Io

-- `RING_CAPACITY` is set and the thread spawned; `refused` is what the system answers when it is not.
abbrev pub spawn :
    {Io : Type 0} → Option Io → Config → List Segment → Statics → Statics × Configured Io
spawn refused c t s =
    let s' : Statics = record s { ring_capacity = set_once s.ring_capacity c.ring_capacity } in
    let drain : Started = record {
      timezone_offset = c.timezone_offset;
      line_pattern = t;
      segmented = is_segmented c.backpressure;
    } in
    elim refused [ none ↦ (s', started drain) | some e ↦ (s', failed (drain_spawn_failed e)) ]

-- `SEGMENTS` is set where it is not yet; `none` is the panic in the making of the pool.
unfoldable pub install :
    {Io : Type 0} → Option Io → Config → List Segment → Statics → Option (Statics × Configured Io)
install refused c t s = do
  w ← init c.backpressure c.ring_capacity s.shared
  some (
      if s.shared.installed
      then (s, failed already_initialized)
      else spawn refused c t (record s { shared = w }))

-- What follows the checks.
unfoldable pub claim :
    {Io : Type 0} → Option Io → Config → List Segment → Statics → Option (Statics × Configured Io)
claim refused c t s =
    let s1 : Statics = record s { backpressure = set_once s.backpressure c.backpressure } in
    if s.claimed
    then some (s1, failed already_initialized)
    else let s2 : Statics = record s1 { claimed = true } in
      if is_segmented c.backpressure then install refused c t s2 else some (spawn refused c t s2)

abbrev pub checked_claim :
    {Io : Type 0}
    → Option Io
    → Config
    → Statics
    → TicklogError Io ⊎ List Segment
    → Option (Statics × Configured Io)
checked_claim refused c s (inl e) = some (s, failed e)
checked_claim refused c s (inr t) = claim refused c t s

unfoldable pub configure_rt :
    {Io : Type 0} → Option Io → Config → Statics → Option (Statics × Configured Io)
configure_rt refused c s = validate c >>= checked_claim refused c s
