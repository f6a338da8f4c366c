-- ===== src/Record/Wire.antt =====
-- The bytes of an assembled record.
use ticklog.Base.{
  ℕ, suc, ◌+◌, ◌*◌, ◌/◌, ◌%◌, ◌^◌, ◌≤◌, ◌<◌, ◌≡◌, refl, ap, ◌∙◌, sym, arith, Byte, Bytes, List, [],
  ◌∷◌, ◌++◌, map, length, inl, length-append, bit_or, bit_or_disjoint,
}
use ticklog.Encode.{Arg, type_tag, write_args}
use ticklog.Encode.Layout.{payloads, write_args-Outside, write_args-tags, write_args-payloads}
use ticklog.Level.{Level, error, warn, info, debug, trace, to_u8}
use ticklog.Memory.{
  Memory, write_bytes, read_bytes, read_bytes-congr, read_bytes-split, write_bytes_outside,
  read_bytes-write_bytes,
}
use ticklog.Record.{assemble, header_word, flag_site, base_record_size}
use ticklog.Ring.{version, log_record, max_record_size}
use ticklog.Ring.Frames.{IsWire}
use ticklog.Words.{to_le_bytes}

-- The record as it is read: the header, the site, the count, the tags and the payloads.
unfoldable pub wire_of : Level → ℕ → ℕ → Byte → ℕ → List Arg → Bytes
wire_of level timestamp site n_args total args =
    version
    ∷ log_record
    ∷ (to_le_bytes 2 total
        ++ to_u8 level
          ∷ (to_le_bytes 2 flag_site
              ++ 0
                ∷ (to_le_bytes 8 timestamp
                    ++ (to_le_bytes 8 site ++ n_args ∷ (map type_tag args ++ payloads args)))))

pub level_byte : (l : Level) → to_u8 l < 256
unfolding to_u8
level_byte error = omega arith
level_byte warn = omega arith
level_byte info = omega arith
level_byte debug = omega arith
level_byte trace = omega arith

header_word-sum :
    (l : Level) (total : ℕ)
    → total < 2 ^ 16
    → header_word l flag_site total ≡ 2 + 1 * 2 ^ 8 + total * 2 ^ 16 + to_u8 l * 2 ^ 32 + 1 * 2 ^ 40
unfolding header_word
header_word-sum l total h =
    let b = level_byte l in
    let one : bit_or 2 (1 * 2 ^ 8) ≡ 2 + 1 * 2 ^ 8 = bit_or_disjoint 8 2 1 (omega arith) in
    let two = bit_or_disjoint 16 (2 + 1 * 2 ^ 8) total (omega arith) in
    let three = bit_or_disjoint 32 (2 + 1 * 2 ^ 8 + total * 2 ^ 16) (to_u8 l) (omega arith) in
    let four =
      bit_or_disjoint 40 (2 + 1 * 2 ^ 8 + total * 2 ^ 16 + to_u8 l * 2 ^ 32) 1 (omega arith) in
    rw (one, two, three, four)

word_bytes :
    (l total : ℕ)
    → l < 256
    → total < 2 ^ 16
    → to_le_bytes 8 (2 + 1 * 2 ^ 8 + total * 2 ^ 16 + l * 2 ^ 32 + 1 * 2 ^ 40)
      ≡ 2 ∷ 1 ∷ (to_le_bytes 2 total ++ l ∷ (to_le_bytes 2 1 ++ 0 ∷ []))
word_bytes l total hl ht =
    let w : ℕ = 2 + 1 * 2 ^ 8 + total * 2 ^ 16 + l * 2 ^ 32 + 1 * 2 ^ 40 in
    let b0 : w % 256 ≡ 2 = omega arith in
    let b1 : w / 256 % 256 ≡ 1 = omega arith in
    let b2 : w / 256 / 256 % 256 ≡ total % 256 = omega arith in
    let b3 : w / 256 / 256 / 256 % 256 ≡ total / 256 % 256 = omega arith in
    let b4 : w / 256 / 256 / 256 / 256 % 256 ≡ l = omega arith in
    let b5 : w / 256 / 256 / 256 / 256 / 256 % 256 ≡ 1 = omega arith in
    let b6 : w / 256 / 256 / 256 / 256 / 256 / 256 % 256 ≡ 0 = omega arith in
    let b7 : w / 256 / 256 / 256 / 256 / 256 / 256 / 256 % 256 ≡ 0 = omega arith in
    cc (b0, b1, b2, b3, b4, b5, b6, b7)

-- Writing right behind what is read makes the read longer.
read_bytes-behind :
    (mem : Memory) (base n : ℕ) (bytes : Bytes)
    → read_bytes (write_bytes mem (base + n) bytes) base (n + length bytes)
      ≡ read_bytes mem base n ++ bytes
read_bytes-behind mem base n bytes =
    read_bytes-split (write_bytes mem (base + n) bytes) base n (length bytes)
    ∙ rw (
      read_bytes-write_bytes mem (base + n) bytes,
      read_bytes-congr mem (write_bytes mem (base + n) bytes) base n
          (λ i lo hi. write_bytes_outside mem (base + n) bytes i (inl hi)),
    )

-- `__N_ARGS`, cut to a u8
abbrev pub args_count : List Arg → Byte
args_count args = length args % 2 ^ 8

-- What the macros write behind the count byte.
abbrev pub args_writer : List Arg → Memory → ℕ → Memory
args_writer args mem at = write_args args mem at (at + args_count args)

module _ (mem : Memory) (dst : ℕ) (word timestamp site : ℕ) (n : Byte) where
  abbrev m1 : Memory
  m1 = write_bytes mem dst (to_le_bytes 8 word)

  abbrev m2 : Memory
  m2 = write_bytes m1 (dst + 8) (to_le_bytes 8 timestamp)

  abbrev m3 : Memory
  m3 = write_bytes m2 (dst + 16) (to_le_bytes 8 site)

  abbrev m4 : Memory
  m4 = write_bytes m3 (dst + 24) (n ∷ [])

  -- the 25 bytes of the fixed sections
  fixed_sections :
      read_bytes m4 dst 25
      ≡ to_le_bytes 8 word ++ (to_le_bytes 8 timestamp ++ (to_le_bytes 8 site ++ n ∷ []))
  fixed_sections =
      read_bytes-behind m3 dst 24 (n ∷ [])
      ∙ ap (λ x. x ++ n ∷ [])
          (read_bytes-behind m2 dst 16 (to_le_bytes 8 site)
            ∙ ap (λ x. x ++ to_le_bytes 8 site)
                (read_bytes-behind m1 dst 8 (to_le_bytes 8 timestamp)
                  ∙ ap (λ x. x ++ to_le_bytes 8 timestamp)
                      (read_bytes-write_bytes mem dst (to_le_bytes 8 word))))

  with_args :
      (args : List Arg)
      → n ≡ length args
      → read_bytes
          (write_args args m4 (dst + 25) (dst + 25 + n))
          dst
          (25 + (n + length (payloads args)))
        ≡ to_le_bytes 8 word
          ++ (to_le_bytes 8 timestamp
              ++ (to_le_bytes 8 site ++ n ∷ (map type_tag args ++ payloads args)))
  with_args args count =
      let all = write_args args m4 (dst + 25) (dst + 25 + n) in
      let fixed =
        read_bytes-congr m4 all dst 25 (λ i lo hi.
          write_args-Outside args m4 (dst + 25) (dst + 25 + n) i
            (inl (omega arith), inl (omega arith)))
        ∙ fixed_sections in
      let tags : read_bytes all (dst + 25) n ≡ map type_tag args =
        rw (← count) at (write_args-tags args m4 (dst + 25) (dst + 25 + n) (omega arith)) in
      let pays = write_args-payloads args m4 (dst + 25) (dst + 25 + n) (omega arith) in
      let front : Bytes =
        to_le_bytes 8 word ++ (to_le_bytes 8 timestamp ++ (to_le_bytes 8 site ++ n ∷ [])) in
      let size : ℕ = length (payloads args) in
      read_bytes-split all dst 25 (n + size)
      ∙ ap (λ x. x ++ read_bytes all (dst + 25) (n + size)) fixed
      ∙ ap (λ x. front ++ x) (read_bytes-split all (dst + 25) n size)
      ∙ ap (λ x. front ++ (x ++ read_bytes all (dst + 25 + n) size)) tags
      ∙ ap (λ x. front ++ (map type_tag args ++ x)) pays

pub length-map-type_tag : (args : List Arg) → length (map type_tag args) ≡ length args
length-map-type_tag [] = refl
length-map-type_tag (a ∷ args) = ap suc (length-map-type_tag args)

length-wire_of :
    (level : Level) (timestamp site total : ℕ) (n : Byte) (args : List Arg)
    → length (wire_of level timestamp site n total args)
      ≡ base_record_size + (length args + length (payloads args))
unfolding wire_of
length-wire_of level timestamp site total n args =
    omega (arith, length-append (map type_tag args) (payloads args), length-map-type_tag args)

wire_of-IsWire :
    (level : Level) (timestamp site total : ℕ) (n : Byte) (args : List Arg)
    → total ≡ base_record_size + (length args + length (payloads args))
    → total ≤ max_record_size
    → IsWire (wire_of level timestamp site n total args)
unfolding wire_of
wire_of-IsWire level timestamp site total n args sum small =
    let size : length (wire_of level timestamp site n total args) ≡ total =
      omega (arith, length-wire_of level timestamp site total n args) in
    record {
      body =
          to_u8 level
          ∷ (to_le_bytes 2 flag_site
              ++ 0
                ∷ (to_le_bytes 8 timestamp
                    ++ (to_le_bytes 8 site ++ n ∷ (map type_tag args ++ payloads args))));
      shape =
          ap
            (λ t.
              version
              ∷ log_record
              ∷ (to_le_bytes 2 t
                  ++ to_u8 level
                    ∷ (to_le_bytes 2 flag_site
                        ++ 0
                          ∷ (to_le_bytes 8 timestamp
                              ++ (to_le_bytes 8 site
                                  ++ n ∷ (map type_tag args ++ payloads args))))))
            (sym size);
      long = omega arith;
      short = omega arith;
    }

-- For at most 255 arguments and at most the largest record, where the total is that of the fixed
-- sections, the tags and the payloads: the bytes that assemble leaves at its destination under the
-- site flag are the record of the level, the timestamp, the site and the arguments, and they frame
-- themselves as the ring wants.
pub assemble-wire_of :
    (mem : Memory) (dst : ℕ) (level : Level) (timestamp site total : ℕ) (args : List Arg)
    → length args < 2 ^ 8
    → total ≡ base_record_size + (args_count args + length (payloads args))
    → total ≤ max_record_size
    → let after =
        assemble mem dst level timestamp flag_site site
          (args_count args)
          total
          (args_writer args) in
      let wire = wire_of level timestamp site (args_count args) total args in
      (read_bytes after dst total ≡ wire) × IsWire wire
unfolding assemble wire_of
assemble-wire_of mem dst level timestamp site total args few sum small =
    let n : Byte = args_count args in
    let count : n ≡ length args = omega (arith, few) in
    let word = header_word level flag_site (total % 2 ^ 16) in
    let cut : total % 2 ^ 16 ≡ total = omega arith in
    let rest : Bytes =
      to_le_bytes 8 timestamp ++ (to_le_bytes 8 site ++ n ∷ (map type_tag args ++ payloads args)) in
    (
      ap (read_bytes _ dst) sum
          ∙ with_args mem dst word timestamp site n args count
          ∙ ap (λ x. x ++ rest)
              (ap (to_le_bytes 8)
                  (ap (header_word level flag_site) cut ∙ header_word-sum level total (omega arith))
                ∙ word_bytes (to_u8 level) total (level_byte level) (omega arith)),
      wire_of-IsWire level timestamp site total n args
          (sum ∙ ap (λ k. base_record_size + (k + length (payloads args))) count) small,
    )
