-- ===== src/Record.antt =====
-- src/record.rs: the fixed sections of a record, and `assemble`.
pub mod Wire
use ticklog.Base.{
  ℕ, ◌+◌, ◌*◌, ◌%◌, ◌^◌, Byte, Bytes, Bool, not, [], ◌∷◌, bit_and, bit_or, ◌==◌, if◌then◌else◌,
}
use ticklog.Level.{Level, to_u8}
use ticklog.Memory.{Memory, write_bytes}
use ticklog.Ring.{version, log_record, header_size}
use ticklog.Words.{to_le_bytes}

abbrev pub site_section_size : ℕ
site_section_size = 8

abbrev pub count_size : ℕ
count_size = 1

abbrev pub base_record_size : ℕ
base_record_size = header_size + site_section_size + count_size

abbrev pub flag_site : ℕ
flag_site = 1

abbrev pub is_flagged : ℕ → ℕ → Bool
is_flagged flags flag = not (bit_and flags flag == 0)

-- The first eight bytes of the header as one word.
unfoldable pub header_word : Level → ℕ → ℕ → ℕ
header_word level flags total =
    bit_or
      (bit_or (bit_or (bit_or version (log_record * 2 ^ 8)) (total * 2 ^ 16))
        (to_u8 level * 2 ^ 32))
      (flags * 2 ^ 40)

-- `site` is the address of the call site's descriptor, and `write_args` the caller's closure, which
-- is given the place behind the count byte.
unfoldable pub assemble : Memory → ℕ → Level → ℕ → ℕ → ℕ → Byte → ℕ → (Memory → ℕ → Memory) → Memory
assemble mem dst level timestamp flags site n_args total_size write_args =
    let first =
      write_bytes mem dst (to_le_bytes 8 (header_word level flags (total_size % 2 ^ 16))) in
    let header = write_bytes first (dst + 8) (to_le_bytes 8 timestamp) in
    let sited =
      if is_flagged flags flag_site
      then write_bytes header (dst + 16) (to_le_bytes 8 site)
      else header in
    let pos = if is_flagged flags flag_site then 24 else 16 in
    write_args (write_bytes sited (dst + pos) (n_args ∷ [])) (dst + (pos + 1))
