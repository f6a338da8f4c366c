-- ===== src/Tests/Format.antt =====
-- src/format.rs on short texts.
use ticklog.Base.{ℕ, ◌+◌, ◌≤◌, ◌≡◌, ◌⊎◌, refl, arith, Bytes, [], ◌++◌, some, ascii}
use ticklog.Format.{ok, err, and_then, default_spec, FormatSpec, Message, Align}
use ticklog.Format.Chars.{
  is_align_char, is_valid_fill, is_all_digits, skip_fill_align, skip_char, skip_digits,
  skip_precision,
}
use ticklog.Format.Check.{
  parse_spec_const, validate_spec_rt, close, validate_fmt, validate_loop, type_const, type_rt,
  scan_name, skip_placeholder,
}
use ticklog.Format.Check.Agree.{parse_spec_const_agrees}
use ticklog.Format.Check.Returns.{Returns, validate_fmt-Returns}
use ticklog.Format.Pad.{format_with_spec}
use ticklog.Format.Pad.Laws.{Side, between, format_with_spec-pads}
use ticklog.Format.Template.{
  parse, parse_loop, read_placeholder, place_at, read_field, from_str, admit, scan_close, read_spec,
  flush,
}
use ticklog.Format.Template.Accepts.{parse_accepted-validate_fmt}
use ticklog.Format.Template.Returns.{parse-Returns}
use ticklog.Format.Parse.{
  parse_spec_body, parse_fill_align, parse_zero, parse_width, parse_digits, parse_precision,
  parse_alternate, parse_type,
}

parse_spec_const_agrees_example :
    and_then (parse_spec_const (ascii "*>08.3x}!")) close
    ≡ and_then (validate_spec_rt (ascii "*>08.3x")) (λ _. ok (ascii "!"))
parse_spec_const_agrees_example = parse_spec_const_agrees (ascii "*>08.3x") (ascii "!") (
  omega arith,
  (omega arith, (omega arith, (omega arith, (omega arith, (omega arith, (omega arith, tt)))))),
)

validate_fmt-Returns_example : Returns (validate_fmt (ascii "a {} b {:>8} {{}}"))
validate_fmt-Returns_example = validate_fmt-Returns (ascii "a {} b {:>8} {{}}")

parse-Returns_example : Returns (parse (ascii "{level} {message}"))
parse-Returns_example = parse-Returns (ascii "{level} {message}")

abbrev pattern_text : Bytes
pattern_text = ascii "[{level:<5}] {message}"

parse_accepted-validate_fmt_example : validate_fmt pattern_text ≡ some (ok 2)
unfolding parse parse_loop read_placeholder place_at read_field from_str admit scan_close read_spec
    flush scan_name is_all_digits validate_spec_rt skip_fill_align is_align_char is_valid_fill
    skip_char skip_digits skip_precision type_rt parse_spec_body parse_fill_align parse_zero
    parse_width parse_digits parse_precision parse_alternate parse_type
parse_accepted-validate_fmt_example = parse_accepted-validate_fmt pattern_text _ refl

abbrev wide : FormatSpec
wide = record default_spec { width = some 6; precision = some 3; fill = 46; align = Align.center }

format_with_spec-pads_example :
    (l : ℕ) × (r : ℕ) × (format_with_spec (ascii "abc") wide []
      ≡ [] ++ between l r 46 (ascii "abc"))
    × (l + r ≡ 3)
    × ((6 ≤ 3) ⊎ Side Align.center l r)
format_with_spec-pads_example = format_with_spec-pads (ascii "abc") wide []

rejections :
    (validate_fmt (ascii "{0}") ≡ some (err Message.positional))
    × (validate_fmt (ascii "{:+}") ≡ some (err Message.sign_flags))
    × (validate_fmt (ascii "}") ≡ some (err Message.unmatched))
    × (parse (ascii "{}") ≡ some (err Message.unnamed))
    × (parse (ascii "{message:5}") ≡ some (err Message.spec_on_message))
unfolding validate_fmt validate_loop skip_placeholder parse_spec_const type_const parse parse_loop
    read_placeholder place_at read_field from_str admit scan_close read_spec flush scan_name
    is_all_digits validate_spec_rt skip_fill_align is_align_char is_valid_fill skip_char skip_digits
    skip_precision type_rt
rejections = (refl, refl, refl, refl, refl)
