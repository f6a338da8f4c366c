-- ===== src/Tests/Render.antt =====
-- src/drain.rs, `interleave` on a message with one argument.
use ticklog.Base.{
  ◌+◌, ◌%◌, ◌≡◌, refl, Bytes, List, [], ◌∷◌, ◌++◌, map, true, none, some, ascii, arith,
}
use ticklog.Base.Int.{pos}
use ticklog.Format.{ok, default_spec}
use ticklog.Format.Template.{
  Field, Parsed, parse, parse_loop, read_placeholder, place_at, read_field, from_str, admit, flush,
  lit, place,
}
use ticklog.Format.Chars.{is_all_digits}
use ticklog.Level.{info}
use ticklog.Render.Pattern.{Line, drawn, render_pattern}
use ticklog.Render.Pattern.Lines.{Draws, render_pattern-Draws}
use ticklog.Encode.{Arg, number, u8, type_tag}
use ticklog.Encode.Layout.{payloads}
use ticklog.Format.Check.{validate_fmt, validate_loop, skip_placeholder, scan_name}
use ticklog.Cursor.{Cursor, read_slice}
use ticklog.Format.Check.Closing.{split_close}
use ticklog.Format.Pad.{format_unsigned_impl, format_with_spec}
use ticklog.Format.Parse.{parse_spec, parse_placeholder, split_colon}
use ticklog.Render.{
  Std, rendered, interleave, interleave_loop, place_arg, format_arg, formatters, fmt_byte,
}
use ticklog.Render.Exact.{interleave-Shows}
use ticklog.Render.Message.{Shows}

-- one digit for each number
abbrev digits : Std
digits = record {
  unsigned = λ spec v. (48 + v % 10) ∷ [];
  signed = λ spec v. [];
  float = λ spec bits v. [];
  debug_str = λ pretty s. s;
  chars = λ n s. s;
  lossy = λ s. s;
}

abbrev message : Bytes
message = ascii "a={} {{"

message_valid : validate_fmt message ≡ some (ok 1)
unfolding validate_fmt validate_loop skip_placeholder scan_name
message_valid = refl

abbrev one_arg : List Arg
one_arg = number u8 7 ∷ []

interleave-Shows_example :
    (out : Bytes) × Shows digits message one_arg [] out
    × (interleave digits message (map type_tag one_arg) (payloads one_arg ++ []) []
        ≡ rendered (record { arg_idx = 1; parse_ok = true; cursor = []; buf = out }))
interleave-Shows_example =
    interleave-Shows digits message one_arg [] [] message_valid (omega arith, tt)

message_rendered :
    interleave digits message (8 ∷ []) (7 ∷ []) []
    ≡ rendered (record { arg_idx = 1; parse_ok = true; cursor = []; buf = ascii "a=7 {" })
unfolding interleave interleave_loop place_arg format_arg formatters fmt_byte read_slice split_close
    format_unsigned_impl format_with_spec parse_spec parse_placeholder split_colon
message_rendered = refl

abbrev line_of_message : Line
line_of_message = record {
  ns = 0;
  timezone_offset = pos 0;
  severity = info;
  fmt = message;
  file_line = none;
  thread = 1;
  name = none;
  tags = 8 ∷ [];
}

abbrev pattern : Bytes
pattern = ascii "> {message}"

abbrev parsed : Parsed
parsed = record {
  segments = lit (ascii "> ") ∷ place Field.message default_spec ∷ [];
  literal = [];
  seen_message = true;
}

pattern_valid : parse pattern ≡ some (ok parsed)
unfolding parse parse_loop read_placeholder place_at scan_name read_field is_all_digits from_str
    admit flush
pattern_valid = refl

tags_are : line_of_message.tags ≡ map type_tag one_arg
unfolding type_tag
tags_are = refl

render_pattern-Draws_example :
    (c : Cursor) × (out : Bytes) × Draws digits line_of_message one_arg parsed.segments [] out
    × (render_pattern digits line_of_message parsed.segments (payloads one_arg ++ []) []
        ≡ drawn c out)
render_pattern-Draws_example =
    render_pattern-Draws digits line_of_message one_arg pattern parsed [] [] pattern_valid
      message_valid (omega arith, tt) tags_are
