-- ===== src/Decode.antt =====
-- src/drain.rs: what `decode_and_format` reads from a record before it renders the line, and what
-- `format_arg` reads for an argument. Pointers are left as addresses.
pub mod RoundTrip
use ticklog.Base.{
  ℕ, zero, suc, ◌+◌, Byte, Bytes, Bool, Option, none, some, List, [], ◌∷◌, ◌==◌, ltb, if◌then◌else◌,
  length, get_or, ◌&&◌,
}
use ticklog.Cursor.{
  Cursor, read_u8, read_u16, read_u32, read_u64, read_slice, read_len_prefixed, skip,
}
use ticklog.Drain.{decode_level}
use ticklog.Encode.{tag_str, fixed_sizes}
use ticklog.Level.{Level}
use ticklog.Level
use ticklog.Record.{is_flagged, flag_site}

abbrev pub flag_source : ℕ
flag_source = 2

abbrev pub flag_thread : ℕ
flag_thread = 4

abbrev pub flag_process : ℕ
flag_process = 8

abbrev pub flag_complex : ℕ
flag_complex = 16

-- `source` is the legacy section: the file's address, its length and the line; `thread` the legacy
-- override: the id and the bytes of the name, if there are any.
pub record Decoded : Type 0 where
  pub level : Level
  pub timestamp : ℕ
  pub site : Option ℕ
  pub source : Option (ℕ × ℕ × ℕ)
  pub thread : Option (ℕ × Option Bytes)
  pub tags : Bytes
  pub payload : Cursor

-- A section that a flag announces.
abbrev pub section {ℓ} : {A : Type ℓ} → Bool → (Cursor → A × Cursor) → Cursor → Option A × Cursor
section flagged read c = if flagged then (let (a, c') = read c in (some a, c')) else (none, c)

abbrev pub read_source : Cursor → (ℕ × ℕ × ℕ) × Cursor
read_source c =
    let (p, c1) = read_u64 c in
    let (l, c2) = read_u16 c1 in let (ln, c3) = read_u32 c2 in ((p, l, ln), c3)

-- `is_utf8` is the standard library's check, which a name must pass.
abbrev pub read_thread : (Bytes → Bool) → Cursor → (ℕ × Option Bytes) × Cursor
read_thread is_utf8 c =
    let (id, c1) = read_u64 c in
    let (name, len, c2) = read_len_prefixed c1 in
    ((id, if ltb 0 len && is_utf8 name then some name else none), c2)

-- the sections behind the header, the count and the tags
unfoldable pub decode_sections : (Bytes → Bool) → Level → ℕ → ℕ → Cursor → Decoded
decode_sections is_utf8 level flags timestamp c =
    let (site, c1) = section (is_flagged flags flag_site) read_u64 c in
    let (source, c2) = section (is_flagged flags flag_source) read_source c1 in
    let (thread, c3) = section (is_flagged flags flag_thread) (read_thread is_utf8) c2 in
    let c4 = if is_flagged flags flag_process then skip 4 c3 else c3 in
    let c5 = if is_flagged flags flag_complex then skip 8 c4 else c4 in
    let (n_args, c6) = read_u8 c5 in
    let (tags, c7) = read_slice n_args c6 in
    record {
      level = level;
      timestamp = timestamp;
      site = site;
      source = source;
      thread = thread;
      tags = tags;
      payload = c7;
    }

unfoldable pub decode_record : (Bytes → Bool) → Bytes → Decoded
decode_record is_utf8 bytes =
    let c = skip 4 bytes in
    let (level_byte, c1) = read_u8 c in
    let (flags, c2) = read_u16 c1 in
    let c3 = skip 1 c2 in
    let (timestamp, c4) = read_u64 c3 in
    decode_sections is_utf8 (decode_level (some level_byte)) flags timestamp c4

-- The bytes of one argument, or `none` for an unknown tag.
unfoldable pub read_arg : Byte → Cursor → Option (Bytes × Cursor)
read_arg tag c =
    if tag == tag_str
    then (let (data', len, rest) = read_len_prefixed c in some (data', rest))
    else if ltb tag (length fixed_sizes)
    then some (read_slice (get_or fixed_sizes tag 0) c)
    else none

abbrev keep : Bytes → Option (List Bytes) → Option (List Bytes)
keep d none = none
keep d (some ds) = some (d ∷ ds)

-- The arguments in order, as a format string with a placeholder for each reads them.
unfoldable pub read_args : Bytes → Cursor → Option (List Bytes)
read_args [] c = some []
read_args (t ∷ tags) c = elim (read_arg t c) [
  | none ↦ none
  | some (d, rest) ↦ keep d (read_args tags rest)
]
