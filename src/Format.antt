-- ===== src/Format.antt =====
-- src/format.rs: format specs, the two checkers of a spec, the parser, the padding of values and the
-- parser of line patterns. A position in a byte string is the rest of the string from there.
pub mod Chars
pub mod Check
pub mod Parse
pub mod Pad
pub mod Template
use ticklog.Base.{ℕ, Byte, Bool, false, Option, ◌≡◌, ◌⊎◌, inl, inr, refl}

pub data Align : Type 0 where
  none left right center : Align

pub record FormatSpec : Type 0 where
  pub fill : Byte
  pub align : Align
  pub zero_fill : Bool
  pub width : Option ℕ
  pub precision : Option ℕ
  pub alternate : Bool
  pub type_char : Option Byte

abbrev pub default_spec : FormatSpec
default_spec = record {
  fill = 32;
  align = Align.none;
  zero_fill = false;
  width = Option.none;
  precision = Option.none;
  alternate = false;
  type_char = Option.none;
}

-- The messages of the rejections.
pub data Message : Type 0 where
  unclosed unmatched positional trailing invalid_fill expected_digits : Message
  sign_flags unsupported_type unnamed unknown_field : Message
  duplicate_message spec_on_message spec_on_timestamp : Message

-- `Result<A, &'static str>`
pub data Checked {ℓ} (A : Type ℓ) : Type ℓ where
  ok : A → Checked A
  err : Message → Checked A

-- the `?` operator
abbrev pub and_then {ℓ ℓ'} : {A : Type ℓ} {B : Type ℓ'} → Checked A → (A → Checked B) → Checked B
and_then (ok a) f = f a
and_then (err m) f = err m

pub Checked-cases {ℓ} :
    {A : Type ℓ} (r : Checked A) → ((a : A) × (r ≡ ok a)) ⊎ ((m : Message) × (r ≡ err m))
Checked-cases (ok a) = inl (a, refl)
Checked-cases (err m) = inr (m, refl)
