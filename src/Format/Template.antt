-- ===== src/Format/Template.antt =====
-- src/format.rs: `Field`, `Segment` and `Template::parse`.
pub mod Accepts
pub mod Returns
use ticklog.Base.{
  ℕ, zero, suc, Byte, Bytes, Bool, true, false, ◌&&◌, ◌||◌, Option, none, some, List, [], ◌∷◌, ◌++◌,
  length, ◌==◌, if◌then◌else◌, ascii,
}
use ticklog.Format.{Checked, ok, err, and_then, Message, FormatSpec, default_spec}
use ticklog.Format.Chars.{open_brace, close_brace, colon}
use ticklog.Format.Check.{scan_name, is_positional, validate_spec_rt, starts_with, tail_of, resume}
use ticklog.Format.Parse.{parse_spec_body}

pub data Field : Type 0 where
  timestamp level file line thread_name thread_id message : Field

abbrev bytes_eq : Bytes → Bytes → Bool
bytes_eq [] [] = true
bytes_eq [] (b ∷ t) = false
bytes_eq (a ∷ s) [] = false
bytes_eq (a ∷ s) (b ∷ t) = a == b && bytes_eq s t

unfoldable pub from_str : Bytes → Checked Field
from_str name =
    if bytes_eq name (ascii "timestamp")
    then ok timestamp
    else if bytes_eq name (ascii "level")
    then ok level
    else if bytes_eq name (ascii "file")
    then ok file
    else if bytes_eq name (ascii "line")
    then ok line
    else if bytes_eq name (ascii "thread_name")
    then ok thread_name
    else if bytes_eq name (ascii "thread_id")
    then ok thread_id
    else if bytes_eq name (ascii "message")
    then ok message
    else err Message.unknown_field

pub data Segment : Type 0 where
  lit : Bytes → Segment
  place : Field → FormatSpec → Segment

-- The locals of the loop; `literal` are the bytes from `lit_start` on.
pub record Parsed : Type 0 where
  pub segments : List Segment
  pub literal : Bytes
  pub seen_message : Bool

unfoldable pub flush : Parsed → Parsed
flush p = elim (p.literal) [
  | [] ↦ p
  | b ∷ bs ↦ record p { segments = p.segments ++ lit (b ∷ bs) ∷ []; literal = [] }
]

abbrev pub push : Segment → Parsed → Parsed
push s p = record p { segments = p.segments ++ s ∷ [] }

-- The checks on the field, where `spec_follows` says that a colon does. The new `seen_message`.
unfoldable pub admit : Field → Bool → Bool → Checked Bool
admit timestamp seen true = err Message.spec_on_timestamp
admit timestamp seen false = ok seen
admit message true spec_follows = err Message.duplicate_message
admit message false true = err Message.spec_on_message
admit message false false = ok true
admit level seen spec_follows = ok seen
admit file seen spec_follows = ok seen
admit line seen spec_follows = ok seen
admit thread_name seen spec_follows = ok seen
admit thread_id seen spec_follows = ok seen

-- the bytes up to the closing brace, and the rest behind it
unfoldable pub scan_close : Bytes → Checked (Bytes × Bytes)
scan_close [] = err Message.unclosed
scan_close (c ∷ s) = elim (c == close_brace) [
  | true ↦ ok ([], s)
  | false ↦ and_then (scan_close s) (λ t. ok (c ∷ t.0, t.1))
]

-- The spec of a placeholder, from behind its colon, and the rest.
unfoldable pub read_spec : Bytes → Checked (FormatSpec × Bytes)
read_spec s =
    and_then (scan_close s)
      (λ t. and_then (validate_spec_rt t.0) (λ _. ok (parse_spec_body t.0, t.1)))

-- what follows the name, whose first character is a colon or the closing brace
abbrev pub read_rest : Byte → Bytes → Checked (FormatSpec × Bytes)
read_rest c s = if c == colon then read_spec s else ok (default_spec, s)

unfoldable pub read_field : Bytes → Checked Field
read_field [] = err Message.unnamed
read_field (c ∷ name) =
    if is_positional (c ∷ name) then err Message.positional else from_str (c ∷ name)

-- The placeholder whose name and what follows it have been found.
unfoldable pub place_at : Bytes → Bytes → Parsed → Checked (Parsed × Bytes)
place_at name [] p = err Message.unclosed
place_at name (c ∷ s) p = and_then (read_field name) (λ field.
    and_then (admit field p.seen_message (c == colon)) (λ seen.
      and_then (read_rest c s)
        (λ t. ok (push (place field t.0) (record p { seen_message = seen }), t.1))))

-- a placeholder, from behind its opening brace
unfoldable pub read_placeholder : Bytes → Parsed → Checked (Parsed × Bytes)
read_placeholder s p = let (name, rest) = scan_name s in place_at name rest p

-- The main loop, on fuel; `none` means that it ran out.
unfoldable pub parse_loop : ℕ → Bytes → Parsed → Option (Checked Parsed)
parse_loop zero s p = none
parse_loop (suc fuel) [] p = some (ok (flush p))
parse_loop (suc fuel) (c ∷ s) p =
    if c == open_brace
    then (if starts_with open_brace s
        then parse_loop fuel (tail_of s) (push (lit (open_brace ∷ [])) (flush p))
        else resume (read_placeholder s (flush p)) (λ t. parse_loop fuel t.1 t.0))
    else if c == close_brace
    then (if starts_with close_brace s
        then parse_loop fuel (tail_of s) (push (lit (close_brace ∷ [])) (flush p))
        else some (err Message.unmatched))
    else parse_loop fuel s (record p { literal = p.literal ++ c ∷ [] })

unfoldable pub parse : Bytes → Option (Checked Parsed)
parse fmt =
    parse_loop (suc (length fmt)) fmt (record { segments = []; literal = []; seen_message = false })
