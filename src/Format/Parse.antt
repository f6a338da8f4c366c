-- ===== src/Format/Parse.antt =====
-- src/format.rs: `parse_placeholder`, `parse_spec` and `parse_spec_body`.
use ticklog.Base.{
  ℕ, ◌+◌, ◌-◌, ◌*◌, Byte, Bytes, true, false, Option, none, some, [], ◌∷◌, ◌==◌, if◌then◌else◌, min,
}
use ticklog.Format.{FormatSpec, default_spec, Align}
use ticklog.Format.Chars.{colon, is_digit, is_align_char, is_type_char}
use ticklog.Words.{u16_mod}

abbrev pub align_of : Byte → Align
align_of c =
    if c == 60
    then Align.left
    else if c == 62
    then Align.right
    else if c == 94
    then Align.center
    else Align.none

-- The locals of the parser: the spec so far, and the rest of the bytes.
abbrev Parsing : Type 0
Parsing = FormatSpec × Bytes

unfoldable pub parse_fill_align : Parsing → Parsing
parse_fill_align (fs, []) = (fs, [])
parse_fill_align (fs, a ∷ []) =
    if is_align_char a then (record fs { align = align_of a }, []) else (fs, a ∷ [])
parse_fill_align (fs, a ∷ b ∷ s) =
    if is_align_char b
    then (record fs { fill = a; align = align_of b }, s)
    else if is_align_char a
    then (record fs { align = align_of a }, b ∷ s)
    else (fs, a ∷ b ∷ s)

unfoldable pub parse_zero : Parsing → Parsing
parse_zero (fs, []) = (fs, [])
parse_zero (fs, c ∷ s) = if c == 48 then (record fs { zero_fill = true }, s) else (fs, c ∷ s)

-- `w.saturating_mul(10).saturating_add(d)` on u16
abbrev pub push_digit : ℕ → Byte → ℕ
push_digit w c = min (u16_mod - 1) (min (u16_mod - 1) (w * 10) + (c - 48))

unfoldable pub parse_digits : ℕ → Bytes → ℕ × Bytes
parse_digits w [] = (w, [])
parse_digits w (c ∷ s) = elim (is_digit c) [
  | true ↦ parse_digits (push_digit w c) s
  | false ↦ (w, c ∷ s)
]

unfoldable pub parse_width : Parsing → Parsing
parse_width (fs, []) = (fs, [])
parse_width (fs, c ∷ s) =
    if is_digit c
    then (let (w, rest) = parse_digits 0 (c ∷ s) in (record fs { width = some w }, rest))
    else (fs, c ∷ s)

unfoldable pub parse_precision : Parsing → Parsing
parse_precision (fs, []) = (fs, [])
parse_precision (fs, c ∷ s) =
    if c == 46
    then (let (p, rest) = parse_digits 0 s in (record fs { precision = some p }, rest))
    else (fs, c ∷ s)

unfoldable pub parse_alternate : Parsing → Parsing
parse_alternate (fs, []) = (fs, [])
parse_alternate (fs, c ∷ s) = if c == 35 then (record fs { alternate = true }, s) else (fs, c ∷ s)

unfoldable pub parse_type : Parsing → FormatSpec
parse_type (fs, []) = fs
parse_type (fs, c ∷ s) = if is_type_char c then record fs { type_char = some c } else fs

unfoldable pub parse_spec_body : Bytes → FormatSpec
parse_spec_body spec = parse_type (
    parse_alternate
      (parse_precision (parse_width (parse_zero (parse_fill_align (default_spec, spec))))))

-- `position(|&b| b == b':')`: the bytes before the first colon and those behind it
unfoldable pub split_colon : Bytes → Option (Bytes × Bytes)
split_colon [] = none
split_colon (c ∷ s) = elim (c == colon) [
  | true ↦ some ([], s)
  | false ↦ elim (split_colon s) [ none ↦ none | some (before, behind) ↦ some (c ∷ before, behind) ]
]

unfoldable pub parse_placeholder : Bytes → Bytes × FormatSpec
parse_placeholder content = elim (split_colon content) [
  | none ↦ (content, default_spec)
  | some (name, spec) ↦ (name, parse_spec_body spec)
]

unfoldable pub parse_spec : Bytes → FormatSpec
parse_spec content = (parse_placeholder content).1
