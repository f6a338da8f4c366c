-- ===== src/ThreadBuf/Slot.antt =====
-- src/thread_buf.rs: the thread-local slot with its re-entrancy flag, its lazy start, `warm_up`, and the
-- thread's number. A panic of the start leaves nothing behind that a thread can reach.
pub mod Nested
pub mod Warm
pub mod Number
use ticklog.Base.{
  ℕ, ◌+◌, ◌*◌, ◌-◌, Byte, Bytes, Bool, true, false, not, Option, none, some, [], ◌∷◌, ltb, leb,
  ◌==◌, ◌&&◌, if◌then◌else◌, ◌>>=◌, ◌⊎◌, inl, inr,
}
use ticklog.Base.Text.{ascii}
use ticklog.Configure.{TicklogError, not_initialized}
use ticklog.Shared.{Shared}
use ticklog.ThreadBuf.{ThreadBuf, start_thread}
use ticklog.Words.{u64_mod}

abbrev pub unwrap_or : {A : Type 0} → A → Option A → A
unwrap_or a none = a
unwrap_or a (some b) = b

unfoldable pub strip_prefix : Bytes → Bytes → Option Bytes
strip_prefix [] s = some s
strip_prefix (p ∷ ps) [] = none
strip_prefix (p ∷ ps) (c ∷ s) = let rest = strip_prefix ps s in if p == c then rest else none

-- with a suffix of one byte
unfoldable pub strip_suffix : Byte → Bytes → Option Bytes
strip_suffix b [] = none
strip_suffix b (c ∷ []) = if b == c then some [] else none
strip_suffix b (c ∷ d ∷ s) = do rest ← strip_suffix b (d ∷ s); some (c ∷ rest)

unfoldable pub parse_digits : ℕ → Bytes → Option ℕ
parse_digits v [] = some v
parse_digits v (c ∷ s) =
    let rest = parse_digits (v * 10 + (c - 48)) s in
    if leb 48 c && leb c 57 && ltb (v * 10 + (c - 48)) u64_mod then rest else none

-- `parse::<u64>`: digits behind an optional `+`
unfoldable pub parse_u64 : Bytes → Option ℕ
parse_u64 [] = none
parse_u64 (c ∷ s) = if c == 43 then some_digits s else parse_digits 0 (c ∷ s)
  where
    some_digits : Bytes → Option ℕ
    some_digits [] = none
    some_digits (d ∷ t) = parse_digits 0 (d ∷ t)

-- `id_str` is what `Debug` prints for the `ThreadId`.
unfoldable pub get_stable_thread_id : Bytes → ℕ
get_stable_thread_id id_str =
    unwrap_or 0
      (do s ← strip_prefix (ascii "ThreadId(") id_str; digits ← strip_suffix 41 s; parse_u64 digits)

abbrev pub default_ring_size : ℕ
default_ring_size = 1048576

pub record ThreadSlot : Type 0 where
  pub active : Bool
  pub buf : Option ThreadBuf

-- What a thread finds: whether `REGISTRY` is set, `RING_CAPACITY`, and what the standard library says of
-- the thread.
pub record Setting : Type 0 where
  pub registry_set : Bool
  pub ring_capacity : Option ℕ
  pub id_str : Bytes
  pub name : Option Bytes

-- A closure returns, or a panic leaves it.
pub data Ended (R : Type 0) : Type 0 where
  returned : R → Ended R
  unwound : Ended R

-- `none` where the closure was not run, the `None` of the source
pub record Called (R : Type 0) : Type 0 where
  pub outcome : Option (Ended R)
  pub slot : ThreadSlot
  pub shared : Shared

pub record Ran (R : Type 0) : Type 0 where
  pub ended : Ended R
  pub buf : ThreadBuf
  pub slot : ThreadSlot
  pub shared : Shared

abbrev pub Closure : Type 0 → Type 0
Closure R = ThreadBuf → ThreadSlot → Shared → Ran R

-- `|_| {}`
abbrev pub empty_closure : Closure (Unit {0})
empty_closure tb s w = record { ended = returned tt; buf = tb; slot = s; shared = w }

module _ (setting : Setting) where
  -- The lazy start; `none` is a panic.
  unfoldable pub lazy_start : Shared → Option ThreadBuf → Option (ThreadBuf × Shared)
  lazy_start w (some tb) = some (tb, w)
  lazy_start w none =
      if setting.registry_set
      then start_thread w (unwrap_or default_ring_size setting.ring_capacity)
          (get_stable_thread_id setting.id_str) (unwrap_or (ascii "<unnamed>") setting.name)
      else none

  -- `ActiveGuard`'s drop, on every way out
  abbrev pub released : ThreadSlot → ThreadSlot
  released s = record s { active = false }

  abbrev pub finished : {R : Type 0} → Ran R → Called R
  finished r = record {
    outcome = some r.ended;
    slot = released (record r.slot { buf = some r.buf });
    shared = r.shared;
  }

  abbrev pub run_closure :
      {R : Type 0} → Closure R → ThreadSlot → Shared → Option (ThreadBuf × Shared) → Called R
  run_closure f s w none = record { outcome = some unwound; slot = released s; shared = w }
  run_closure f s w (some (tb, w')) = finished (f tb (record s { buf = some tb }) w')

  unfoldable pub with_thread_buf : {R : Type 0} → Closure R → ThreadSlot → Shared → Called R
  with_thread_buf f s w =
      if s.active
      then record { outcome = none; slot = s; shared = w }
      else run_closure f (record s { active = true }) w (lazy_start w s.buf)

  -- The answer, where the start does not panic, and the state.
  unfoldable pub warm_up :
      {Io : Type 0}
      → ThreadSlot
      → Shared
      → Option (TicklogError Io ⊎ Unit {0}) × (ThreadSlot × Shared)
  warm_up s w =
      let c = with_thread_buf empty_closure s w in
      if not setting.registry_set
      then (some (inl not_initialized), (s, w))
      else (elim c.outcome [ some unwound ↦ none | _ ↦ some (inr tt) ], (c.slot, c.shared))
