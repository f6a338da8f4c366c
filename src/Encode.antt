-- ===== src/Encode.antt =====
-- src/encode.rs: the type tags and the payloads of the arguments, and `LoggableArgs::write_args`.
pub mod Layout
use ticklog.Base.{
  ℕ, ◌+◌, ◌%◌, ◌^◌, Byte, Bytes, Bool, true, false, List, [], ◌∷◌, ◌++◌, length, get_or,
}
use ticklog.Memory.{Memory, write_bytes}
use ticklog.Words.{to_le_bytes, wrapping_add}

-- The primitive types.
pub data ArgType : Type 0 where
  u64 i64 f64 u32 i32 f32 u16 i16 u8 i8 boolean : ArgType

-- An argument of a primitive type by its bits; `&str`, `String` and `&String` by their bytes.
pub data Arg : Type 0 where
  number : ArgType → ℕ → Arg
  text : Bytes → Arg

abbrev pub tag_of : ArgType → Byte
tag_of u64 = 0
tag_of i64 = 1
tag_of f64 = 2
tag_of u32 = 3
tag_of i32 = 4
tag_of f32 = 5
tag_of u16 = 6
tag_of i16 = 7
tag_of u8 = 8
tag_of i8 = 9
tag_of boolean = 10

-- `FIXED_SIZES`, indexed by the tag
abbrev pub fixed_sizes : List ℕ
fixed_sizes = 8 ∷ 8 ∷ 8 ∷ 4 ∷ 4 ∷ 4 ∷ 2 ∷ 2 ∷ 1 ∷ 1 ∷ 1 ∷ 0 ∷ []

-- the widths that the `Loggable` impls write
abbrev pub width_of_type : ArgType → ℕ
width_of_type u64 = 8
width_of_type i64 = 8
width_of_type f64 = 8
width_of_type u32 = 4
width_of_type i32 = 4
width_of_type f32 = 4
width_of_type u16 = 2
width_of_type i16 = 2
width_of_type u8 = 1
width_of_type i8 = 1
width_of_type boolean = 1

abbrev pub tag_str : Byte
tag_str = 11

abbrev pub str_len_prefix : ℕ
str_len_prefix = 2

unfoldable pub type_tag : Arg → Byte
type_tag (number t v) = tag_of t
type_tag (text s) = tag_str

unfoldable pub encoded_size : Arg → ℕ
encoded_size (number t v) = width_of_type t
encoded_size (text s) = str_len_prefix + length s

-- A string's length is cut to a u16.
unfoldable pub encode : Arg → Bytes
encode (number t v) = to_le_bytes (width_of_type t) v
encode (text s) = to_le_bytes 2 (length s % 2 ^ 16) ++ s

unfoldable pub args_encoded_size : List Arg → ℕ
args_encoded_size [] = 0
args_encoded_size (a ∷ args) = wrapping_add (encoded_size a) (args_encoded_size args)

-- The cursors `tag` and `pay` are offsets into the memory.
unfoldable pub write_args : List Arg → Memory → ℕ → ℕ → Memory
write_args [] mem tag pay = mem
write_args (a ∷ args) mem tag pay =
    write_args args (write_bytes (write_bytes mem tag (type_tag a ∷ [])) pay (encode a)) (tag + 1)
      (pay + encoded_size a)
