-- ===== src/Encode/Layout.antt =====
-- Where `write_args` leaves the tags and the payloads.
use ticklog.Base.{
  ℕ, ◌+◌, ◌-◌, get_or, ◌%◌, ◌^◌, ◌≤◌, ◌<◌, ◌≡◌, ◌⊎◌, refl, ap, ◌∙◌, arith, Bytes, List, [], ◌∷◌,
  ◌++◌, map, length, inl, inr, length-append,
}
use ticklog.Encode.{Arg, number, text, width_of_type, type_tag, encoded_size, encode, write_args}
use ticklog.Memory.{
  Memory, write_bytes, read_bytes, read_bytes-split, read_bytes-congr, write_bytes_outside,
  read_bytes-write_bytes,
}
use ticklog.Words.{to_le_bytes, length-to_le_bytes}

-- the payloads, one behind the other
abbrev pub payloads : List Arg → Bytes
payloads [] = []
payloads (a ∷ args) = encode a ++ payloads args

length-encode : (a : Arg) → length (encode a) ≡ encoded_size a
unfolding encode encoded_size
length-encode (number t v) = length-to_le_bytes (width_of_type t) v
length-encode (text s) = omega (
  arith,
  length-append (to_le_bytes 2 (length s % 2 ^ 16)) s,
  length-to_le_bytes 2 (length s % 2 ^ 16),
)

-- outside the tags and the payloads
abbrev pub Outside : List Arg → ℕ → ℕ → ℕ → Type 0
Outside args tag pay i =
    ((i < tag) ⊎ (tag + length args ≤ i)) × ((i < pay) ⊎ (pay + length (payloads args) ≤ i))

pub write_args-Outside :
    (args : List Arg) (mem : Memory) (tag pay i : ℕ)
    → Outside args tag pay i
    → write_args args mem tag pay i ≡ mem i
unfolding write_args
write_args-Outside [] mem tag pay i h = refl
write_args-Outside (a ∷ args) mem tag pay i (ht, hp) =
    let size = length-encode a in
    let all = length-append (encode a) (payloads args) in
    let mem1 : Memory = write_bytes mem tag (type_tag a ∷ []) in
    write_args-Outside args (write_bytes mem1 pay (encode a)) (tag + 1) (pay + encoded_size a) i
      (ground arith, ground arith)
    ∙ write_bytes_outside mem1 pay (encode a) i (ground arith)
    ∙ write_bytes_outside mem tag (type_tag a ∷ []) i (ground arith)

-- the first byte of what was written
write_bytes_here : (mem : Memory) (at b : ℕ) → write_bytes mem at (b ∷ []) at ≡ b
unfolding write_bytes
write_bytes_here mem at b =
    let zero_off : at - at ≡ 0 = omega arith in
    ground (arith, ap (λ j. get_or (b ∷ []) j 0) zero_off)

-- Where the tags end before the payloads start, they stand there in order.
pub write_args-tags :
    (args : List Arg) (mem : Memory) (tag pay : ℕ)
    → tag + length args ≤ pay
    → read_bytes (write_args args mem tag pay) tag (length args) ≡ map type_tag args
unfolding write_args
write_args-tags [] mem tag pay h = refl
write_args-tags (a ∷ args) mem tag pay h =
    let mem1 : Memory = write_bytes mem tag (type_tag a ∷ []) in
    let here =
      write_args-Outside args (write_bytes mem1 pay (encode a)) (tag + 1) (pay + encoded_size a) tag
        (inl (omega arith), inl (omega arith))
      ∙ write_bytes_outside mem1 pay (encode a) tag (inl (omega arith))
      ∙ write_bytes_here mem tag (type_tag a) in
    let there =
      write_args-tags args (write_bytes mem1 pay (encode a)) (tag + 1) (pay + encoded_size a)
        (omega arith) in
    cc (here, there)

-- The payloads stand behind, in order.
pub write_args-payloads :
    (args : List Arg) (mem : Memory) (tag pay : ℕ)
    → tag + length args ≤ pay
    → read_bytes (write_args args mem tag pay) pay (length (payloads args)) ≡ payloads args
unfolding write_args
write_args-payloads [] mem tag pay h = refl
write_args-payloads (a ∷ args) mem tag pay h =
    let mem1 : Memory = write_bytes mem tag (type_tag a ∷ []) in
    let mem2 : Memory = write_bytes mem1 pay (encode a) in
    let all = write_args args mem2 (tag + 1) (pay + encoded_size a) in
    let size = length-encode a in
    let first : read_bytes all pay (length (encode a)) ≡ encode a =
      read_bytes-congr mem2 all pay (length (encode a)) (λ i lo hi.
        write_args-Outside args mem2 (tag + 1) (pay + encoded_size a) i
          (inr (omega arith), inl (omega arith)))
      ∙ read_bytes-write_bytes mem1 pay (encode a) in
    let rest = write_args-payloads args mem2 (tag + 1) (pay + encoded_size a) (omega arith) in
    rw (length-append (encode a) (payloads args), read_bytes-split, first)
      (rw size (ap (λ x. encode a ++ x) rest))
