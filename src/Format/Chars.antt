-- ===== src/Format/Chars.antt =====
-- src/format.rs: the classes of characters, and the parts of a spec that both checkers skip alike.
use ticklog.Base.{
  Byte, Bytes, Bool, true, false, not, ◌&&◌, ◌||◌, [], ◌∷◌, leb, ◌==◌, if◌then◌else◌,
}
use ticklog.Format.{Checked, ok, err, Message}

abbrev pub open_brace : Byte
open_brace = 123

abbrev pub close_brace : Byte
close_brace = 125

abbrev pub colon : Byte
colon = 58

abbrev pub is_digit : Byte → Bool
is_digit c = leb 48 c && leb c 57

unfoldable pub is_all_digits : Bytes → Bool
is_all_digits [] = true
is_all_digits (c ∷ s) = is_digit c && is_all_digits s

-- `<`, `>` and `^`
unfoldable pub is_align_char : Byte → Bool
is_align_char c = c == 60 || c == 62 || c == 94

-- all but `+`, `-`, `0` and `#`
unfoldable pub is_valid_fill : Byte → Bool
is_valid_fill c = not (c == 43) && not (c == 45) && not (c == 48) && not (c == 35)

-- `?`, `x`, `X`, `o`, `b`, `e` and `E`
abbrev pub is_type_char : Byte → Bool
is_type_char c = c == 63 || c == 120 || c == 88 || c == 111 || c == 98 || c == 101 || c == 69

abbrev pub is_sign : Byte → Bool
is_sign c = c == 43 || c == 45

-- `[fill] [align]`
unfoldable pub skip_fill_align : Bytes → Checked Bytes
skip_fill_align [] = ok []
skip_fill_align (a ∷ []) = if is_align_char a then ok [] else ok (a ∷ [])
skip_fill_align (a ∷ b ∷ s) =
    if is_align_char b
    then (if is_valid_fill a then ok s else err Message.invalid_fill)
    else if is_align_char a
    then ok (b ∷ s)
    else ok (a ∷ b ∷ s)

-- one given character, if it is there
unfoldable pub skip_char : Byte → Bytes → Bytes
skip_char c [] = []
skip_char c (a ∷ s) = if a == c then s else a ∷ s

unfoldable pub skip_digits : Bytes → Bytes
skip_digits [] = []
skip_digits (a ∷ s) = elim (is_digit a) [ true ↦ skip_digits s | false ↦ a ∷ s ]

abbrev pub expect_digits : Bytes → Checked Bytes
expect_digits [] = err Message.expected_digits
expect_digits (a ∷ s) = if is_digit a then ok (skip_digits s) else err Message.expected_digits

-- `['.' precision]`
unfoldable pub skip_precision : Bytes → Checked Bytes
skip_precision [] = ok []
skip_precision (a ∷ s) = if a == 46 then expect_digits s else ok (a ∷ s)
