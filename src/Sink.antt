-- ===== src/Sink.antt =====
-- src/sink/mod.rs, the adapters `WithLevel` and `FanOut`, and src/sink/fast.rs, the in-memory sink. What
-- an inner sink does with a line is the argument `accept`.
pub mod Memory
pub mod Fan
pub mod Captured
pub mod Lines
pub mod Console
use ticklog.Base.{
  ℕ, suc, ◌+◌, ◌++◌, Byte, Bytes, Bool, true, false, Option, none, some, [], ◌∷◌, List, length, leb,
  if◌then◌else◌,
}
use ticklog.Drain.{Delivery}
use ticklog.Level.{Level, trace, level_le}
use ticklog.Words.{from_le_bytes}

pub data Overflow : Type 0 where
  unbounded drop_newest drop_oldest : Overflow

-- One of the two stores of `State`: the captures, oldest first, and the count of those dropped.
pub record Captures : Type 0 where
  pub items : List Delivery
  pub dropped : ℕ

abbrev pub pop_front : List Delivery → List Delivery
pop_front [] = []
pop_front (x ∷ xs) = xs

abbrev pub push_back : Captures → Delivery → Captures
push_back s x = record s { items = s.items ++ x ∷ [] }

-- `push_record` and `push_line` on their stores
unfoldable pub push : Overflow → ℕ → Captures → Delivery → Captures
push overflow capacity s x = elim overflow [
  | Overflow.unbounded ↦ push_back s x
  | Overflow.drop_newest ↦
      if leb capacity (length s.items) then record s { dropped = s.dropped + 1 } else push_back s x
  | Overflow.drop_oldest ↦
      if leb capacity (length s.items)
      then push_back (record { items = pop_front s.items; dropped = s.dropped + 1 }) x
      else push_back s x
]

abbrev pub empty : Captures
empty = record { items = []; dropped = 0 }

-- What the drain delivers, one after the other.
unfoldable pub push_all : Overflow → ℕ → Captures → List Delivery → Captures
push_all overflow capacity s [] = s
push_all overflow capacity s (x ∷ xs) = push_all overflow capacity (push overflow capacity s x) xs

-- An inner sink: its state, and the level it reports.
pub record Child {ℓ} (S : Type ℓ) : Type ℓ where
  pub state : S
  pub max_level : Level

module _ {ℓ} {S : Type ℓ} (accept : S → Bytes → Level → S × Bool) where
  -- `FanOut::accept`: the answer of an inner sink, `false` for an error, goes to stderr only.
  unfoldable pub fan_accept : List (Child S) → Bytes → Level → List (Child S) × Bool
  fan_accept [] line level = ([], true)
  fan_accept (c ∷ entries) line level =
      let c' =
        if level_le level c.max_level
        then record c { state = (accept c.state line level).0 }
        else c in
      (c' ∷ (fan_accept entries line level).0, true)

  -- `WithLevel::accept`: the inner sink's.
  unfoldable pub with_level_accept : Child S → Bytes → Level → Child S × Bool
  with_level_accept c line level =
      let (s, ok) = accept c.state line level in (record c { state = s }, ok)

  unfoldable pub fan_all : List (Child S) → List Delivery → List (Child S)
  fan_all entries [] = entries
  fan_all entries ((line, level) ∷ more) = fan_all (fan_accept entries line level).0 more
