-- ===== src/Cursor.antt =====
-- src/drain.rs, `Cursor`: the bounded parser over one record slice. A cursor is the bytes that
-- remain between its pointer and its end.
pub mod Laws
use ticklog.Base.{ℕ, Byte, Bytes, ltb, if◌then◌else◌, min, length, take, drop, replicate}
use ticklog.Words.{from_le_bytes}

abbrev pub Cursor : Type 0
Cursor = Bytes

abbrev pub remaining : Cursor → ℕ
remaining c = length c

-- `read_array::<N>`: zeroes, without moving, if fewer than `n` bytes remain
unfoldable pub read_array : ℕ → Cursor → Bytes × Cursor
read_array n c = if ltb (remaining c) n then (replicate n 0, c) else (take n c, drop n c)

unfoldable pub read_u8 : Cursor → ℕ × Cursor
read_u8 c = let (v, c') = read_array 1 c in (from_le_bytes v, c')

unfoldable pub read_u16 : Cursor → ℕ × Cursor
read_u16 c = let (v, c') = read_array 2 c in (from_le_bytes v, c')

unfoldable pub read_u32 : Cursor → ℕ × Cursor
read_u32 c = let (v, c') = read_array 4 c in (from_le_bytes v, c')

unfoldable pub read_u64 : Cursor → ℕ × Cursor
read_u64 c = let (v, c') = read_array 8 c in (from_le_bytes v, c')

unfoldable pub skip : ℕ → Cursor → Cursor
skip n c = drop (min n (remaining c)) c

unfoldable pub read_slice : ℕ → Cursor → Bytes × Cursor
read_slice n c = let n' = min n (remaining c) in (take n' c, drop n' c)

-- the bytes, the length that the prefix names, and the rest
unfoldable pub read_len_prefixed : Cursor → Bytes × ℕ × Cursor
read_len_prefixed c =
    let (len, c') = read_u16 c in let (slice, c'') = read_slice len c' in (slice, len, c'')
