-- ===== src/Format/Check.antt =====
-- src/format.rs: `parse_spec_const`, `validate_spec_rt`, `validate_fmt` and `check_fmt`.
pub mod Agree
pub mod Closing
pub mod Closed
pub mod Returns
use ticklog.Base.{
  ℕ, zero, suc, ◌+◌, Byte, Bytes, Bool, true, false, not, ◌&&◌, ◌||◌, Option, none, some, [], ◌∷◌,
  length, ◌==◌, if◌then◌else◌,
}
use ticklog.Format.{Checked, ok, err, and_then, Message}
use ticklog.Format.Chars.{
  open_brace, close_brace, colon, is_all_digits, is_type_char, is_sign, skip_fill_align, skip_char,
  skip_digits, skip_precision,
}

abbrev pub at_close : Bytes → Bool
at_close [] = false
at_close (c ∷ s) = c == close_brace

-- `if i < bytes.len() && bytes[i] == b'}' { return Ok(i); }`
abbrev pub until_close : Bytes → (Bytes → Checked Bytes) → Checked Bytes
until_close s rest = if at_close s then ok s else rest s

unfoldable pub type_const : Bytes → Checked Bytes
type_const [] = ok []
type_const (c ∷ s) =
    if is_type_char c
    then ok s
    else if c == close_brace
    then ok (c ∷ s)
    else if is_sign c
    then err Message.sign_flags
    else err Message.unsupported_type

-- the parts of the spec from the last to the first, each with those behind it
abbrev pub alternate_const : Bytes → Checked Bytes
alternate_const s = until_close (skip_char 35 s) type_const

abbrev pub precision_const : Bytes → Checked Bytes
precision_const s = and_then (skip_precision s) (λ s. until_close s alternate_const)

abbrev pub width_const : Bytes → Checked Bytes
width_const s = until_close (skip_digits s) precision_const

abbrev pub zero_const : Bytes → Checked Bytes
zero_const s = until_close (skip_char 48 s) width_const

abbrev pub align_const : Bytes → Checked Bytes
align_const s = and_then (skip_fill_align s) (λ s. until_close s zero_const)

-- Where the spec ends.
unfoldable pub parse_spec_const : Bytes → Checked Bytes
parse_spec_const [] = err Message.unclosed
parse_spec_const (c ∷ s) = until_close (c ∷ s) align_const

-- `if i >= len { return Ok(()); }`
abbrev pub until_end : Bytes → (Bytes → Checked (Unit {0})) → Checked (Unit {0})
until_end [] rest = ok tt
until_end (c ∷ s) rest = rest (c ∷ s)

abbrev pub at_end : Bytes → Checked (Unit {0})
at_end [] = ok tt
at_end (c ∷ s) = err Message.trailing

unfoldable pub type_rt : Bytes → Checked (Unit {0})
type_rt [] = ok tt
type_rt (c ∷ s) =
    if is_type_char c
    then at_end s
    else if is_sign c
    then err Message.sign_flags
    else err Message.unsupported_type

-- the parts of the spec from the last to the first, each with those behind it
abbrev pub alternate_rt : Bytes → Checked (Unit {0})
alternate_rt s = until_end (skip_char 35 s) type_rt

abbrev pub precision_rt : Bytes → Checked (Unit {0})
precision_rt s = and_then (skip_precision s) (λ s. until_end s alternate_rt)

abbrev pub width_rt : Bytes → Checked (Unit {0})
width_rt s = until_end (skip_digits s) precision_rt

abbrev pub zero_rt : Bytes → Checked (Unit {0})
zero_rt s = until_end (skip_char 48 s) width_rt

abbrev pub align_rt : Bytes → Checked (Unit {0})
align_rt s = and_then (skip_fill_align s) (λ s. until_end s zero_rt)

unfoldable pub validate_spec_rt : Bytes → Checked (Unit {0})
validate_spec_rt s = until_end s align_rt

-- the name, up to `:` or `}`, and the rest from there on
unfoldable pub scan_name : Bytes → Bytes × Bytes
scan_name [] = ([], [])
scan_name (c ∷ s) = elim (c == colon || c == close_brace) [
  | true ↦ ([], c ∷ s)
  | false ↦ let (name, rest) = scan_name s in (c ∷ name, rest)
]

abbrev pub is_positional : Bytes → Bool
is_positional [] = false
is_positional (c ∷ s) = is_all_digits (c ∷ s)

-- the closing brace that must follow
abbrev pub close : Bytes → Checked Bytes
close [] = err Message.unclosed
close (c ∷ s) = if c == close_brace then ok s else err Message.trailing

abbrev pub spec_of : Bytes → Checked Bytes
spec_of [] = err Message.unclosed
spec_of (c ∷ s) = if c == colon then and_then (parse_spec_const s) close else close (c ∷ s)

-- a placeholder, from behind its opening brace
unfoldable pub skip_placeholder : Bytes → Checked Bytes
skip_placeholder s =
    let (name, rest) = scan_name s in
    if is_positional name then err Message.positional else spec_of rest

-- whether a second brace makes an escape
abbrev pub starts_with : Byte → Bytes → Bool
starts_with b [] = false
starts_with b (c ∷ s) = c == b

abbrev pub tail_of : Bytes → Bytes
tail_of [] = []
tail_of (c ∷ s) = s

abbrev pub resume {ℓ ℓ'} :
    {A : Type ℓ} {B : Type ℓ'} → Checked A → (A → Option (Checked B)) → Option (Checked B)
resume (ok a) f = f a
resume (err m) f = some (err m)

-- The main loop, on fuel; `none` means that it ran out.
unfoldable pub validate_loop : ℕ → Bytes → ℕ → Option (Checked ℕ)
validate_loop zero s count = none
validate_loop (suc fuel) [] count = some (ok count)
validate_loop (suc fuel) (c ∷ s) count =
    if c == open_brace
    then (if starts_with open_brace s
        then validate_loop fuel (tail_of s) count
        else resume (skip_placeholder s) (λ rest. validate_loop fuel rest (suc count)))
    else if c == close_brace
    then (if starts_with close_brace s
        then validate_loop fuel (tail_of s) count
        else some (err Message.unmatched))
    else validate_loop fuel s count

unfoldable pub validate_fmt : Bytes → Option (Checked ℕ)
validate_fmt fmt = validate_loop (suc (length fmt)) fmt 0

abbrev counts : ℕ → Checked ℕ → Bool
counts n (ok placeholders) = placeholders == n
counts n (err m) = false

-- Whether the check lets the call site compile, rather than panic.
unfoldable pub check_fmt : Bytes → ℕ → Option Bool
check_fmt fmt n_args = elim (validate_fmt fmt) [ none ↦ none | some r ↦ some (counts n_args r) ]
