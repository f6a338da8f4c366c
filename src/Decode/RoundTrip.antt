-- ===== src/Decode/RoundTrip.antt =====
-- A record that the producer lays out is read back by the drain.
use ticklog.Base.{
  ℕ, ◌%◌, ◌^◌, ◌<◌, ◌≡◌, refl, ap, arith, Byte, Bytes, Bool, List, [], ◌∷◌, ◌++◌, map, length, none,
  some,
}
use ticklog.Cursor.{read_u8, read_slice}
use ticklog.Cursor.Laws.{
  read_u8-to_le_bytes, read_u16-to_le_bytes, skip-append, read_u64-to_le_bytes, read_slice-append,
  read_len_prefixed-append,
}
use ticklog.Decode.{decode_record, decode_sections, read_arg, read_args}
use ticklog.Drain.{decode_level}
use ticklog.Encode.{
  ArgType, Arg, number, text, u64, i64, f64, u32, i32, f32, u16, i16, u8, i8, boolean, tag_of,
  width_of_type, type_tag, encode,
}
use ticklog.Encode.Layout.{payloads}
use ticklog.Level.{Level, error, warn, info, debug, trace, to_u8, from_u8}
use ticklog.Record.{flag_site}
use ticklog.Record.Wire.{wire_of, length-map-type_tag, level_byte}
use ticklog.Ring.{version, log_record}
use ticklog.Words.{to_le_bytes}

decode_level_lem : (l : Level) → decode_level (some (to_u8 l)) ≡ l
unfolding to_u8 from_u8
decode_level_lem error = refl
decode_level_lem warn = refl
decode_level_lem info = refl
decode_level_lem debug = refl
decode_level_lem trace = refl

read_byte : (v : Byte) (rest : Bytes) → v < 2 ^ 8 → read_u8 (v ∷ rest) ≡ (v, rest)
read_byte v rest h = let e : v % 256 ≡ v = omega arith in rw e at (read_u8-to_le_bytes v rest h)

-- the bytes that the drain hands to the formatter of an argument
abbrev pub data_of : Arg → Bytes
data_of (number t v) = to_le_bytes (width_of_type t) v
data_of (text s) = s

-- a string's length must fit its prefix
abbrev pub Encodable : List Arg → Type 0
Encodable [] = Unit {0}
Encodable (number t v ∷ args) = Encodable args
Encodable (text s ∷ args) = (length s < 2 ^ 16) × Encodable args

number_lem :
    (t : ArgType) (v : ℕ) (rest : Bytes)
    → read_arg (tag_of t) (to_le_bytes (width_of_type t) v ++ rest)
      ≡ some (to_le_bytes (width_of_type t) v, rest)
unfolding read_arg
number_lem u64 v rest = ap some (read_slice-append (to_le_bytes 8 v) rest)
number_lem i64 v rest = ap some (read_slice-append (to_le_bytes 8 v) rest)
number_lem f64 v rest = ap some (read_slice-append (to_le_bytes 8 v) rest)
number_lem u32 v rest = ap some (read_slice-append (to_le_bytes 4 v) rest)
number_lem i32 v rest = ap some (read_slice-append (to_le_bytes 4 v) rest)
number_lem f32 v rest = ap some (read_slice-append (to_le_bytes 4 v) rest)
number_lem u16 v rest = ap some (read_slice-append (to_le_bytes 2 v) rest)
number_lem i16 v rest = ap some (read_slice-append (to_le_bytes 2 v) rest)
number_lem u8 v rest = ap some (read_slice-append (to_le_bytes 1 v) rest)
number_lem i8 v rest = ap some (read_slice-append (to_le_bytes 1 v) rest)
number_lem boolean v rest = ap some (read_slice-append (to_le_bytes 1 v) rest)

text_lem :
    (s rest : Bytes)
    → length s < 2 ^ 16
    → read_arg 11 ((to_le_bytes 2 (length s % 2 ^ 16) ++ s) ++ rest) ≡ some (s, rest)
unfolding read_arg
text_lem s rest h =
    let cut : length s % 2 ^ 16 ≡ length s = omega arith in
    rw cut (ap (λ t. some (t.0, t.2)) (read_len_prefixed-append s rest h))

-- Where every string is shorter than 2^16 bytes, reading the payloads by their tags gives back the
-- bytes of each argument, in order.
pub read_args-payloads :
    (args : List Arg)
    → Encodable args
    → read_args (map type_tag args) (payloads args) ≡ some (map data_of args)
unfolding read_args type_tag encode
read_args-payloads [] h = refl
read_args-payloads (number t v ∷ args) h =
    rw (number_lem t v (payloads args), read_args) (rw (read_args-payloads args h))
read_args-payloads (text s ∷ args) (h, hs) =
    rw (text_lem s (payloads args) h, read_args) (rw (read_args-payloads args hs))

-- Where the timestamp and the address of the site are below 2^64 and the arguments at most 255, the
-- drain reads from a record of the producer's layout the level, the timestamp, the site, no legacy
-- section, the tags, and the payloads behind them.
pub decode_record-wire_of :
    (is_utf8 : Bytes → Bool) (level : Level) (timestamp site total : ℕ) (args : List Arg)
    → timestamp < 2 ^ 64
    → site < 2 ^ 64
    → length args < 2 ^ 8
    → decode_record is_utf8 (wire_of level timestamp site (length args) total args) ≡ record {
      level = level;
      timestamp = timestamp;
      site = some site;
      source = none;
      thread = none;
      tags = map type_tag args;
      payload = payloads args;
    }
unfolding decode_record decode_sections wire_of
decode_record-wire_of is_utf8 level timestamp site total args ht hs hn =
    let n : Byte = length args in
    let tail : Bytes = map type_tag args ++ payloads args in
    let sited : Bytes = to_le_bytes 8 site ++ n ∷ tail in
    let timed : Bytes = to_le_bytes 8 timestamp ++ sited in
    let flagged : Bytes = to_le_bytes 2 flag_site ++ 0 ∷ timed in
    let front = skip-append (version ∷ log_record ∷ to_le_bytes 2 total) (to_u8 level ∷ flagged) in
    let level_read = read_byte (to_u8 level) flagged (level_byte level) in
    let flags_read = read_u16-to_le_bytes flag_site (0 ∷ timed) (omega arith) in
    let pad = skip-append (0 ∷ []) timed in
    let time_read = read_u64-to_le_bytes timestamp sited ht in
    let site_read = read_u64-to_le_bytes site (n ∷ tail) hs in
    let count_read = read_byte n tail hn in
    let tags_read : read_slice n tail ≡ (map type_tag args, payloads args) =
      rw (length-map-type_tag args) at (read_slice-append (map type_tag args) (payloads args)) in
    rw
      (
        front,
        level_read,
        flags_read,
        pad,
        time_read,
        site_read,
        count_read,
        tags_read,
        decode_level_lem level,
      )
      refl
