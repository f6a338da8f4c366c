-- ===== src/Render.antt =====
-- src/drain.rs, the rendering of a message: `interleave`, `format_arg` and the formatters by tag, with
-- the wrappers of src/format.rs that they call. What the standard library prints for a value is the
-- argument `std`.

pub mod Message
pub mod Checked
pub mod Exact
pub mod Pattern
use ticklog.Base.{
  ℕ, zero, suc, ◌+◌, ◌-◌, ◌*◌, ◌/◌, ◌%◌, ◌^◌, ◌++◌, ◌&&◌, Byte, Bytes, Bool, true, false, Option,
  none, some, [], ◌∷◌, List, length, get_or, get_elem?, ltb, leb, ◌==◌, if◌then◌else◌, ascii,
}
use ticklog.Base.Int.{ℤ, pos, negsuc, is_negative, wrap_signed}
use ticklog.Cursor.{Cursor, read_slice, read_len_prefixed}
use ticklog.Encode.{tag_str, fixed_sizes}
use ticklog.Format.{FormatSpec}
use ticklog.Format.Chars.{open_brace, close_brace}
use ticklog.Format.Check.{starts_with, tail_of}
use ticklog.Format.Check.Closing.{split_close}
use ticklog.Format.Pad.{format_with_spec, format_unsigned_impl, format_signed_impl, format_bool}
use ticklog.Format.Parse.{parse_spec}
use ticklog.Words.{from_le_bytes}

-- The standard library's `format!` for a value, by the arms on the spec; `chars` is the first so many
-- characters of a text, and `lossy` the text that `from_utf8_lossy` makes of bytes. A float is its bits
-- and their number.
pub record Std : Type 0 where
  pub unsigned : FormatSpec → ℕ → Bytes
  pub signed : FormatSpec → ℤ → Bytes
  pub float : FormatSpec → ℕ → ℕ → Bytes
  pub debug_str : Bool → Bytes → Bytes
  pub chars : ℕ → Bytes → Bytes
  pub lossy : Bytes → Bytes

abbrev is_debug : Option Byte → Bool
is_debug none = false
is_debug (some c) = c == 63

-- What a formatter appends to the buffer; `none` is the panic on a payload of another size.
abbrev pub Formatted : Type 0
Formatted = Option Bytes

-- What `format_arg` comes to: a panic, or its answer with the cursor and the buffer.
pub data Shown : Type 0 where
  panicked : Shown
  answered : Bool → Cursor → Bytes → Shown

-- The locals of `interleave`. A position in the format string is the rest of it.
pub record Walk : Type 0 where
  pub arg_idx : ℕ
  pub parse_ok : Bool
  pub cursor : Cursor
  pub buf : Bytes

pub data Rendered : Type 0 where
  rendered : Walk → Rendered
  broken : Rendered
  out_of_fuel : Rendered

abbrev pub extend : Walk → Bytes → Walk
extend w bytes = record w { buf = w.buf ++ bytes }

-- A digit of `HEX`.
abbrev hex_digit : ℕ → Byte
hex_digit n = if ltb n 10 then 48 + n else 55 + n

unfoldable pub write_unknown_tag : Byte → Bytes → Bytes
write_unknown_tag tag buf =
    buf ++ (ascii "<unknown tag 0x" ++ hex_digit (tag / 16) ∷ hex_digit (tag % 16) ∷ 62 ∷ [])

abbrev pub go_on : (Walk → Rendered) → Option Walk → Rendered
go_on rest none = broken
go_on rest (some w) = rest w

module _ (std : Std) where
  abbrev cut : Option ℕ → Bytes → Bytes
  cut none s = s
  cut (some p) s = std.chars p s

  unfoldable pub format_str : Bytes → FormatSpec → Bytes → Bytes
  format_str value spec buf =
      format_with_spec
        (if is_debug spec.type_char
          then std.debug_str spec.alternate value
          else cut spec.precision value)
        spec buf

  abbrev exactly : ℕ → Bytes → (ℕ → Bytes) → Formatted
  exactly n data' f = if length data' == n then some (f (from_le_bytes data')) else none

  unfoldable pub fmt_unsigned : ℕ → Bytes → FormatSpec → Bytes → Formatted
  fmt_unsigned n data' spec buf =
      exactly n data' (λ v. format_unsigned_impl (std.unsigned spec v) spec buf)

  unfoldable pub fmt_signed : ℕ → Bytes → FormatSpec → Bytes → Formatted
  fmt_signed n data' spec buf = exactly n data' (λ v.
      let i = wrap_signed (8 * n) (pos v) in
      format_signed_impl (is_negative i) (std.signed spec i) spec buf)

  unfoldable pub fmt_float : ℕ → Bytes → FormatSpec → Bytes → Formatted
  fmt_float n data' spec buf =
      exactly n data' (λ v. format_with_spec (std.float spec (8 * n) v) spec buf)

  -- `data[0]`
  unfoldable pub fmt_byte : (ℕ → Bytes) → Bytes → Formatted
  fmt_byte f [] = none
  fmt_byte f (b ∷ rest) = some (f b)

  -- the table `FORMATTERS` below the tag of a string
  unfoldable pub formatters : Byte → Bytes → FormatSpec → Bytes → Formatted
  formatters tag data' spec buf =
      if tag == 0
      then fmt_unsigned 8 data' spec buf
      else if tag == 1
      then fmt_signed 8 data' spec buf
      else if tag == 2
      then fmt_float 8 data' spec buf
      else if tag == 3
      then fmt_unsigned 4 data' spec buf
      else if tag == 4
      then fmt_signed 4 data' spec buf
      else if tag == 5
      then fmt_float 4 data' spec buf
      else if tag == 6
      then fmt_unsigned 2 data' spec buf
      else if tag == 7
      then fmt_signed 2 data' spec buf
      else if tag == 8
      then fmt_byte (λ b. format_unsigned_impl (std.unsigned spec b) spec buf) data'
      else if tag == 9
      then fmt_byte
          (λ b.
            let i = wrap_signed 8 (pos b) in
            format_signed_impl (is_negative i) (std.signed spec i) spec buf)
          data'
      else fmt_byte (λ b. format_bool (if b == 0 then false else true) spec buf) data'

  abbrev answer : Cursor → Formatted → Shown
  answer c none = panicked
  answer c (some buf) = answered true c buf

  unfoldable pub format_arg : Byte → FormatSpec → Cursor → Bytes → Shown
  format_arg tag spec c buf =
      if tag == tag_str
      then (let (data', len, c') = read_len_prefixed c in
          answered true c' (format_str (std.lossy data') spec buf))
      else if ltb tag (length fixed_sizes)
      then (let (data', c') = read_slice (get_or fixed_sizes tag 0) c in
          answer c' (formatters tag data' spec buf))
      else answered false c buf

  abbrev of_arg : Byte → Walk → Shown → Option Walk
  of_arg tag w panicked = none
  of_arg tag w (answered true c buf) =
      some (record w { cursor = c; buf = buf; arg_idx = suc w.arg_idx })
  of_arg tag w (answered false c buf) = some (record w {
    parse_ok = false;
    cursor = c;
    buf = write_unknown_tag tag buf;
    arg_idx = suc w.arg_idx;
  })

  -- The `match` on the next tag.
  abbrev of_tag : FormatSpec → Walk → Option Byte → Option Walk
  of_tag spec w none =
      some (record w { buf = w.buf ++ ascii "<missing arg>"; arg_idx = suc w.arg_idx })
  of_tag spec w (some tag) =
      let reported = record w { buf = write_unknown_tag tag w.buf; arg_idx = suc w.arg_idx } in
      if w.parse_ok then of_arg tag w (format_arg tag spec w.cursor w.buf) else some reported

  unfoldable pub place_arg : Bytes → Bytes → Walk → Option Walk
  place_arg tags spec w = of_tag (parse_spec spec) w (get_elem? tags w.arg_idx)

  -- The loop, on fuel. A lone closing brace is skipped with what follows it, as without debug
  -- assertions.
  unfoldable pub interleave_loop : ℕ → Bytes → Bytes → Walk → Rendered
  interleave_loop zero tags s w = out_of_fuel
  interleave_loop (suc fuel) tags [] w = rendered w
  interleave_loop (suc fuel) tags (c ∷ s) w =
      if c == open_brace
      then (if starts_with open_brace s
          then interleave_loop fuel tags (tail_of s) (extend w (open_brace ∷ []))
          else go_on (interleave_loop fuel tags (split_close s).1)
              (place_arg tags (split_close s).0 w))
      else if c == close_brace
      then interleave_loop fuel tags (tail_of s) (extend w (close_brace ∷ []))
      else interleave_loop fuel tags s (extend w (c ∷ []))

  unfoldable pub interleave : Bytes → Bytes → Cursor → Bytes → Rendered
  interleave fmt tags c buf =
      interleave_loop (suc (length fmt)) tags fmt
        (record { arg_idx = 0; parse_ok = true; cursor = c; buf = buf })
