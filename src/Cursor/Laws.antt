-- ===== src/Cursor/Laws.antt =====
-- Reading back what was laid out, and staying inside the record.
use ticklog.Base.{
  false, ℕ, ◌^◌, ◌<◌, ◌≡◌, ap, ◌∙◌, arith, Bytes, ◌++◌, length, take-append, drop-append,
  length-append, length-take, take-append-drop, ltb, le→ltb, min,
}
use ticklog.Cursor.{
  Cursor, read_array, read_u8, read_u16, read_u64, skip, read_slice, read_len_prefixed,
}
use ticklog.Words.{to_le_bytes, from_le_bytes, length-to_le_bytes, from_le_bytes-to_le_bytes}

read_array-append : (xs rest : Bytes) → read_array (length xs) (xs ++ rest) ≡ (xs, rest)
unfolding read_array
read_array-append xs rest =
    let far : ltb (length (xs ++ rest)) (length xs) ≡ false =
      le→ltb _ _ (omega (arith, length-append xs rest)) in
    rw (far, take-append xs rest, drop-append xs rest)

read_array_word :
    (n v : ℕ) (rest : Bytes) → read_array n (to_le_bytes n v ++ rest) ≡ (to_le_bytes n v, rest)
read_array_word n v rest = rw (length-to_le_bytes n v) at (read_array-append (to_le_bytes n v) rest)

-- the common body of the fixed-width reads
abbrev word : Bytes × Cursor → ℕ × Cursor
word t = (from_le_bytes t.0, t.1)

read_word :
    (n v : ℕ) (rest : Bytes)
    → v < 256 ^ n
    → word (read_array n (to_le_bytes n v ++ rest)) ≡ (v, rest)
read_word n v rest h =
    ap word (read_array_word n v rest) ∙ ap (λ t. (t, rest)) (from_le_bytes-to_le_bytes n v h)

pub read_u8-to_le_bytes :
    (v : ℕ) (rest : Bytes) → v < 2 ^ 8 → read_u8 (to_le_bytes 1 v ++ rest) ≡ (v, rest)
unfolding read_u8
read_u8-to_le_bytes v rest h = read_word 1 v rest h

pub read_u16-to_le_bytes :
    (v : ℕ) (rest : Bytes) → v < 2 ^ 16 → read_u16 (to_le_bytes 2 v ++ rest) ≡ (v, rest)
unfolding read_u16
read_u16-to_le_bytes v rest h = read_word 2 v rest h

pub read_u64-to_le_bytes :
    (v : ℕ) (rest : Bytes) → v < 2 ^ 64 → read_u64 (to_le_bytes 8 v ++ rest) ≡ (v, rest)
unfolding read_u64
read_u64-to_le_bytes v rest h = read_word 8 v rest h

min-length : (xs rest : Bytes) → min (length xs) (length (xs ++ rest)) ≡ length xs
min-length xs rest = omega (arith, length-append xs rest)

pub read_slice-append : (xs rest : Bytes) → read_slice (length xs) (xs ++ rest) ≡ (xs, rest)
unfolding read_slice
read_slice-append xs rest = rw (min-length xs rest, take-append xs rest, drop-append xs rest)

pub skip-append : (xs rest : Bytes) → skip (length xs) (xs ++ rest) ≡ rest
unfolding skip
skip-append xs rest = rw (min-length xs rest, drop-append xs rest)

-- A length-prefixed run of fewer than 2^16 bytes is read back whole.
pub read_len_prefixed-append :
    (xs rest : Bytes)
    → length xs < 2 ^ 16
    → read_len_prefixed (to_le_bytes 2 (length xs) ++ (xs ++ rest)) ≡ (xs, length xs, rest)
unfolding read_len_prefixed
read_len_prefixed-append xs rest h =
    ap (λ t. (let (slice, c) = read_slice t.0 t.1 in (slice, t.0, c)))
      (read_u16-to_le_bytes (length xs) (xs ++ rest) h)
    ∙ ap (λ t. (t.0, length xs, t.1)) (read_slice-append xs rest)

-- Whatever the prefix says, the slice and what is left make up what followed the prefix, so no read
-- leaves the record; a slice is short only where the record ends.
read_slice_bounds :
    (n : ℕ) (c : Cursor)
    → let (slice, rest) = read_slice n c in (slice ++ rest ≡ c) × (length slice ≡ min n (length c))
unfolding read_slice
read_slice_bounds n c =
    (take-append-drop (min n (length c)) c, omega (arith, length-take (min n (length c)) c))
