-- ===== src/Format/Pad.antt =====
-- src/format.rs: `format_with_spec` and the formatters of booleans, strings and integers. What
-- `format!` prints is an argument: `printed` is the text of the value under the spec's type.
pub mod Laws
use ticklog.Base.{
  ℕ, ◌+◌, ◌-◌, ◌/◌, Byte, Bytes, Bool, true, false, ◌&&◌, ◌||◌, Option, none, some, [], ◌∷◌, ◌++◌,
  length, take, drop, replicate, ltb, leb, ◌==◌, if◌then◌else◌, ascii,
}
use ticklog.Format.{FormatSpec, Align}

abbrev pub width_of : FormatSpec → ℕ
width_of spec = elim (spec.width) [ none ↦ 0 | some w ↦ w ]

abbrev pub fill_of : FormatSpec → Byte
fill_of spec = if spec.zero_fill then 48 else spec.fill

abbrev or_right : Bool → Align → Align
or_right false a = a
or_right true Align.none = Align.right
or_right true Align.left = Align.left
or_right true Align.right = Align.right
or_right true Align.center = Align.center

-- the alignment, which is right for a zero fill without one
abbrev pub align_for : FormatSpec → Align
align_for spec = or_right spec.zero_fill spec.align

unfoldable pub padded : Align → Byte → ℕ → Bytes → Bytes
padded Align.none fill padding val_bytes = val_bytes ++ replicate padding fill
padded Align.left fill padding val_bytes = val_bytes ++ replicate padding fill
padded Align.right fill padding val_bytes = replicate padding fill ++ val_bytes
padded Align.center fill padding val_bytes =
    replicate (padding / 2) fill ++ (val_bytes ++ replicate (padding - padding / 2) fill)

unfoldable pub format_with_spec : Bytes → FormatSpec → Bytes → Bytes
format_with_spec val_bytes spec buf =
    if leb (width_of spec) (length val_bytes)
    then buf ++ val_bytes
    else buf ++ padded (align_for spec) (fill_of spec) (width_of spec - length val_bytes) val_bytes

-- Zeroes behind the prefix, up to `p` digits.
unfoldable pub zero_pad : ℕ → ℕ → Bytes → Bytes
zero_pad prefix_len p s =
    let digits_len = length s - prefix_len in
    if ltb digits_len p
    then take prefix_len s ++ (replicate (p - digits_len) 48 ++ drop prefix_len s)
    else s

abbrev pub with_precision : ℕ → Option ℕ → Bytes → Bytes
with_precision prefix_len none s = s
with_precision prefix_len (some p) s = zero_pad prefix_len p s

-- `x`, `X`, `o` or `b`
abbrev pub is_radix : Option Byte → Bool
is_radix none = false
is_radix (some c) = c == 120 || c == 88 || c == 111 || c == 98

abbrev pub radix_prefix : FormatSpec → ℕ
radix_prefix spec = if spec.alternate && is_radix spec.type_char then 2 else 0

unfoldable pub format_unsigned_impl : Bytes → FormatSpec → Bytes → Bytes
format_unsigned_impl printed spec buf =
    format_with_spec (with_precision (radix_prefix spec) spec.precision printed) spec buf

-- `negative` is whether the value is below 0.
unfoldable pub format_signed_impl : Bool → Bytes → FormatSpec → Bytes → Bytes
format_signed_impl negative printed spec buf =
    format_with_spec (with_precision (if negative then 1 else 0) spec.precision printed) spec buf

-- `format!("{:?}", value)` prints a boolean as `{}` does.
unfoldable pub format_bool : Bool → FormatSpec → Bytes → Bytes
format_bool value spec buf =
    format_with_spec (if value then ascii "true" else ascii "false") spec buf
