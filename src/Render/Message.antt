-- ===== src/Render/Message.antt =====
-- The message that a format string makes of its arguments.
use ticklog.Base.{
  ℕ, ◌<◌, ◌^◌, ◌%◌, ◌≡◌, ◌≢◌, refl, ap, arith, Byte, Bytes, true, false, List, [], ◌∷◌, ◌++◌,
  length, ◌==◌, if◌then◌else◌,
}
use ticklog.Base.Int.{pos, is_negative, wrap_signed}
use ticklog.Cursor.Laws.{read_slice-append, read_len_prefixed-append}
use ticklog.Encode.{
  Arg, number, text, u64, i64, f64, u32, i32, f32, u16, i16, u8, i8, boolean, width_of_type,
  type_tag, encode,
}
use ticklog.Format.{FormatSpec}
use ticklog.Format.Chars.{open_brace, close_brace}
use ticklog.Format.Check.Agree.{NoClose}
use ticklog.Format.Pad.{format_with_spec, format_unsigned_impl, format_signed_impl, format_bool}
use ticklog.Format.Parse.{parse_spec}
use ticklog.Render.{
  Std, answered, format_arg, format_str, formatters, fmt_unsigned, fmt_signed, fmt_float, fmt_byte,
}
use ticklog.Words.{to_le_bytes, from_le_bytes-to_le_bytes}

-- The value is one of its type, and a string's length fits its prefix.
abbrev pub Fits : Arg → Type 0
Fits (number t v) = v < 256 ^ width_of_type t
Fits (text s) = length s < 2 ^ 16

abbrev pub AllFit : List Arg → Type 0
AllFit [] = Unit {0}
AllFit (a ∷ args) = Fits a × AllFit args

module _ (std : Std) where
  -- An unsigned value, a signed one of `w` bits, and a float, as the standard library prints them.
  abbrev unsigned : FormatSpec → ℕ → Bytes → Bytes
  unsigned spec v buf = format_unsigned_impl (std.unsigned spec v) spec buf

  abbrev signed : ℕ → FormatSpec → ℕ → Bytes → Bytes
  signed w spec v buf =
      let i = wrap_signed w (pos v) in
      format_signed_impl (is_negative i) (std.signed spec i) spec buf

  abbrev float : ℕ → FormatSpec → ℕ → Bytes → Bytes
  float w spec v buf = format_with_spec (std.float spec w v) spec buf

  -- What stands behind `buf` once the argument was shown by the spec: its value by its type.
  abbrev pub shown : FormatSpec → Arg → Bytes → Bytes
  shown spec (text s) buf = format_str std (std.lossy s) spec buf
  shown spec (number u64 v) buf = unsigned spec v buf
  shown spec (number u32 v) buf = unsigned spec v buf
  shown spec (number u16 v) buf = unsigned spec v buf
  shown spec (number u8 v) buf = unsigned spec v buf
  shown spec (number i64 v) buf = signed 64 spec v buf
  shown spec (number i32 v) buf = signed 32 spec v buf
  shown spec (number i16 v) buf = signed 16 spec v buf
  shown spec (number i8 v) buf = signed 8 spec v buf
  shown spec (number f64 v) buf = float 64 spec v buf
  shown spec (number f32 v) buf = float 32 spec v buf
  shown spec (number boolean v) buf = format_bool (if v == 0 then false else true) spec buf

  -- A format string, its arguments, what stood there before, and what stands there once the message is written:
  -- doubled braces stand for one, and the text of a placeholder is the spec of the next argument.
  pub data Shows : Bytes → List Arg → Bytes → Bytes → Type 0 where
    finished : {buf : Bytes} → Shows [] [] buf buf
    doubled_open :
        {s buf out : Bytes} {args : List Arg}
        → Shows s args (buf ++ open_brace ∷ []) out
        → Shows (open_brace ∷ open_brace ∷ s) args buf out
    doubled_close :
        {s buf out : Bytes} {args : List Arg}
        → Shows s args (buf ++ close_brace ∷ []) out
        → Shows (close_brace ∷ close_brace ∷ s) args buf out
    plain :
        {c : Byte} {s buf out : Bytes} {args : List Arg}
        → c ≢ open_brace
        → c ≢ close_brace
        → Shows s args (buf ++ c ∷ []) out
        → Shows (c ∷ s) args buf out
    placed :
        (body s : Bytes) {buf out : Bytes} {a : Arg} {args : List Arg}
        → NoClose body
        → Shows s args (shown (parse_spec body) a buf) out
        → Shows (open_brace ∷ (body ++ close_brace ∷ s)) (a ∷ args) buf out

  one_byte : (v : ℕ) → v < 256 ^ 1 → v % 256 ≡ v
  one_byte v h = omega (arith, h)

  pub format_arg-shown :
      (spec : FormatSpec) (a : Arg) (rest buf : Bytes)
      → Fits a
      → format_arg std (type_tag a) spec (encode a ++ rest) buf
        ≡ answered true rest (shown spec a buf)
  unfolding format_arg formatters fmt_unsigned fmt_signed fmt_float fmt_byte type_tag encode
  format_arg-shown spec (number u64 v) rest buf h =
      rw (read_slice-append (to_le_bytes 8 v) rest)
        (ap (λ x. answered true rest (unsigned spec x buf)) (from_le_bytes-to_le_bytes 8 v h))
  format_arg-shown spec (number i64 v) rest buf h =
      rw (read_slice-append (to_le_bytes 8 v) rest)
        (ap (λ x. answered true rest (signed 64 spec x buf)) (from_le_bytes-to_le_bytes 8 v h))
  format_arg-shown spec (number f64 v) rest buf h =
      rw (read_slice-append (to_le_bytes 8 v) rest)
        (ap (λ x. answered true rest (float 64 spec x buf)) (from_le_bytes-to_le_bytes 8 v h))
  format_arg-shown spec (number u32 v) rest buf h =
      rw (read_slice-append (to_le_bytes 4 v) rest)
        (ap (λ x. answered true rest (unsigned spec x buf)) (from_le_bytes-to_le_bytes 4 v h))
  format_arg-shown spec (number i32 v) rest buf h =
      rw (read_slice-append (to_le_bytes 4 v) rest)
        (ap (λ x. answered true rest (signed 32 spec x buf)) (from_le_bytes-to_le_bytes 4 v h))
  format_arg-shown spec (number f32 v) rest buf h =
      rw (read_slice-append (to_le_bytes 4 v) rest)
        (ap (λ x. answered true rest (float 32 spec x buf)) (from_le_bytes-to_le_bytes 4 v h))
  format_arg-shown spec (number u16 v) rest buf h =
      rw (read_slice-append (to_le_bytes 2 v) rest)
        (ap (λ x. answered true rest (unsigned spec x buf)) (from_le_bytes-to_le_bytes 2 v h))
  format_arg-shown spec (number i16 v) rest buf h =
      rw (read_slice-append (to_le_bytes 2 v) rest)
        (ap (λ x. answered true rest (signed 16 spec x buf)) (from_le_bytes-to_le_bytes 2 v h))
  format_arg-shown spec (number u8 v) rest buf h =
      rw (read_slice-append (to_le_bytes 1 v) rest)
        (ap (λ x. answered true rest (unsigned spec x buf)) (one_byte v h))
  format_arg-shown spec (number i8 v) rest buf h =
      rw (read_slice-append (to_le_bytes 1 v) rest)
        (ap (λ x. answered true rest (signed 8 spec x buf)) (one_byte v h))
  format_arg-shown spec (number boolean v) rest buf h =
      rw (read_slice-append (to_le_bytes 1 v) rest) (
        ap (λ x. answered true rest (format_bool (if x == 0 then false else true) spec buf))
          (one_byte v h))
  format_arg-shown spec (text s) rest buf h =
      let cut : length s % 2 ^ 16 ≡ length s = omega (arith, h) in
      rw (cut, read_len_prefixed-append s rest h) refl
