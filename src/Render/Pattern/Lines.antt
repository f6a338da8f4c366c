-- ===== src/Render/Pattern/Lines.antt =====
-- The lines that a pattern makes of the records of the producer's layout.
use ticklog.Base.{
  ℕ, ◌≤◌, ◌++◌, ◌≡◌, refl, ap, ◌∙◌, arith, Bytes, Option, none, some, [], ◌∷◌, List, map, length,
  ascii, ◌⊎◌, inl, inr,
}
use ticklog.Cursor.{Cursor}
use ticklog.Encode.{Arg, type_tag}
use ticklog.Encode.Layout.{payloads}
use ticklog.Format.{FormatSpec, ok}
use ticklog.Format.Check.{validate_fmt}
use ticklog.Format.Pad.{format_unsigned_impl}
use ticklog.Format.Template.{
  Field, timestamp, level, file, line, thread_name, thread_id, message, Segment, Parsed, parse, lit,
  place,
}
use ticklog.Level.{as_str}
use ticklog.Render.{Std, format_str, interleave}
use ticklog.Render.Exact.{interleave-Shows}
use ticklog.Render.Message.{AllFit, Shows}
use ticklog.Render.Pattern.{
  Line, Drawn, drawn, of_message, and_then_draw, render_field, render_pattern, of_file, of_line,
  of_name,
}
use ticklog.Render.Pattern.Once.{of_field, messages, parse-messages}
use ticklog.Timestamp.{format_iso8601}

module _ (std : Std) (l : Line) (args : List Arg) where
  -- The buffer behind a segment of the pattern, but for the message.
  abbrev of_location : Option (Bytes × ℕ) → (Bytes → ℕ → Bytes → Bytes) → Bytes → Bytes
  of_location none f buf = buf
  of_location (some (name, n)) f buf = f name n buf

  abbrev of_thread : Option Bytes → FormatSpec → Bytes → Bytes
  of_thread none spec buf = buf
  of_thread (some name) spec buf = format_str std name spec buf

  -- A pattern, what stood before the line, and what stands there once the line is written.
  pub data Draws : List Segment → Bytes → Bytes → Type 0 where
    ended : {buf : Bytes} → Draws [] buf buf
    literal :
        {s buf out : Bytes} {segments : List Segment}
        → Draws segments (buf ++ s) out
        → Draws (lit s ∷ segments) buf out
    time :
        {spec : FormatSpec} {buf out : Bytes} {segments : List Segment}
        → Draws segments (format_iso8601 l.ns l.timezone_offset buf) out
        → Draws (place timestamp spec ∷ segments) buf out
    severity :
        {spec : FormatSpec} {buf out : Bytes} {segments : List Segment}
        → Draws segments (format_str std (as_str l.severity) spec buf) out
        → Draws (place level spec ∷ segments) buf out
    source :
        {spec : FormatSpec} {buf out : Bytes} {segments : List Segment}
        → Draws segments (of_location l.file_line (λ name n b. format_str std name spec b) buf) out
        → Draws (place file spec ∷ segments) buf out
    line_number :
        {spec : FormatSpec} {buf out : Bytes} {segments : List Segment}
        → Draws segments
            (of_location l.file_line
              (λ name n b. format_unsigned_impl (std.unsigned spec n) spec b)
              buf)
            out
        → Draws (place line spec ∷ segments) buf out
    thread :
        {spec : FormatSpec} {buf out : Bytes} {segments : List Segment}
        → Draws segments (of_thread l.name spec buf) out
        → Draws (place thread_name spec ∷ segments) buf out
    thread_number :
        {spec : FormatSpec} {buf out : Bytes} {segments : List Segment}
        → Draws segments
            (format_unsigned_impl (std.unsigned spec l.thread) spec (buf ++ ascii "ThreadId(")
              ++ 41 ∷ [])
            out
        → Draws (place thread_id spec ∷ segments) buf out
    body :
        {spec : FormatSpec} {buf out : Bytes} (mid : Bytes) {segments : List Segment}
        → Shows std l.fmt args buf mid
        → Draws segments mid out
        → Draws (place message spec ∷ segments) buf out

  -- The line is drawn.
  abbrev LineDrawn : List Segment → Bytes → Drawn → Type 0
  LineDrawn segments buf d =
      (c : Cursor) × (out : Bytes) × Draws segments buf out × (d ≡ drawn c out)

  file_same :
      (o : Option (Bytes × ℕ)) (spec : FormatSpec) (buf : Bytes)
      → of_file std l o spec buf ≡ of_location o (λ name n b. format_str std name spec b) buf
  file_same none spec buf = refl
  file_same (some (name, n)) spec buf = refl

  line_same :
      (o : Option (Bytes × ℕ)) (spec : FormatSpec) (buf : Bytes)
      → of_line std l o spec buf
        ≡ of_location o (λ name n b. format_unsigned_impl (std.unsigned spec n) spec b) buf
  line_same none spec buf = refl
  line_same (some (name, n)) spec buf = refl

  name_same :
      (o : Option Bytes) (spec : FormatSpec) (buf : Bytes)
      → of_name std l o spec buf ≡ of_thread o spec buf
  name_same none spec buf = refl
  name_same (some name) spec buf = refl

  onward :
      (segments : List Segment) (c : Cursor) {b b' : Bytes} {d : Drawn}
      → b ≡ b'
      → render_pattern std l segments c b' ≡ d
      → render_pattern std l segments c b ≡ d
  onward segments c same e = ap (render_pattern std l segments c) same ∙ e

  -- No message is to come, or at most one, and the cursor stands before its arguments.
  abbrev Ready : List Segment → Cursor → Cursor → Type 0
  Ready segments c rest =
      (messages segments ≡ 0) ⊎ ((messages segments ≤ 1) × (c ≡ payloads args ++ rest))

  less :
      (field : Field) (spec : FormatSpec) (segments : List Segment) (c rest : Cursor)
      → of_field field ≡ 0
      → Ready (place field spec ∷ segments) c rest
      → Ready segments c rest
  less field spec segments c rest other (inl none_left) = inl (omega (arith, other, none_left))
  less field spec segments c rest other (inr (once, here)) = inr (omega (arith, other, once), here)

  module _ (valid : validate_fmt l.fmt ≡ some (ok (length args))) (fits : AllFit args)
      (tags_are : l.tags ≡ map type_tag args) where
    draw :
        (segments : List Segment) (c rest : Cursor) (buf : Bytes)
        → Ready segments c rest
        → LineDrawn segments buf (render_pattern std l segments c buf)
    unfolding render_pattern render_field
    draw [] c rest buf r = (c, buf, ended, refl)
    draw (lit s ∷ segments) c rest buf r =
        let (c', out, d, e) = draw segments c rest (buf ++ s) r in (c', out, literal d, e)
    draw (place timestamp spec ∷ segments) c rest buf r =
        let (c', out, d, e) =
          draw segments c rest (format_iso8601 l.ns l.timezone_offset buf)
            (less timestamp spec segments c rest refl r) in
        (c', out, time d, e)
    draw (place level spec ∷ segments) c rest buf r =
        let (c', out, d, e) =
          draw segments c rest (format_str std (as_str l.severity) spec buf)
            (less level spec segments c rest refl r) in
        (c', out, severity d, e)
    draw (place file spec ∷ segments) c rest buf r =
        let (c', out, d, e) =
          draw segments c rest
            (of_location l.file_line (λ name n b. format_str std name spec b) buf)
            (less file spec segments c rest refl r) in
        (c', out, source d, onward segments c (file_same l.file_line spec buf) e)
    draw (place line spec ∷ segments) c rest buf r =
        let (c', out, d, e) =
          draw segments c rest
            (of_location l.file_line (λ name n b. format_unsigned_impl (std.unsigned spec n) spec b)
              buf)
            (less line spec segments c rest refl r) in
        (c', out, line_number d, onward segments c (line_same l.file_line spec buf) e)
    draw (place thread_name spec ∷ segments) c rest buf r =
        let (c', out, d, e) =
          draw segments c rest (of_thread l.name spec buf)
            (less thread_name spec segments c rest refl r) in
        (c', out, thread d, onward segments c (name_same l.name spec buf) e)
    draw (place thread_id spec ∷ segments) c rest buf r =
        let (c', out, d, e) =
          draw segments c rest
            (format_unsigned_impl (std.unsigned spec l.thread) spec (buf ++ ascii "ThreadId(")
              ++ 41 ∷ [])
            (less thread_id spec segments c rest refl r) in
        (c', out, thread_number d, e)
    draw (place message spec ∷ segments) c rest buf (inl none_left) =
        absurd (omega (arith, none_left))
    draw (place message spec ∷ segments) c rest buf (inr (once, here)) =
        let (mid, sh, eq) = interleave-Shows std l.fmt args rest buf valid fits in
        let (c', out, d, e) = draw segments rest rest mid (inl (omega (arith, once))) in
        (
          c',
          out,
          body mid sh d,
          ap (λ x. and_then_draw (of_message x) (render_pattern std l segments))
                (ap (λ t. interleave std l.fmt t c buf) tags_are
                  ∙ ap (λ x. interleave std l.fmt (map type_tag args) x buf) here
                  ∙ eq)
              ∙ e,
        )

-- For a pattern that Template::parse accepts, and a record of the producer's layout whose format string the
-- compile-time checker accepts with as many placeholders as there are arguments, each a value of its type and
-- each string shorter than 2^16 bytes, whatever the standard library prints: the line is drawn without a panic.
-- Behind what the buffer held it has, segment by segment, the text of the literals, the fields by their specs,
-- and in place of the message the format string with its arguments in the places of its placeholders.
pub render_pattern-Draws :
    (std : Std) (l : Line) (args : List Arg) (pattern : Bytes) (p : Parsed) (rest : Cursor)
    (buf : Bytes)
    → parse pattern ≡ some (ok p)
    → validate_fmt l.fmt ≡ some (ok (length args))
    → AllFit args
    → l.tags ≡ map type_tag args
    → (c : Cursor) × (out : Bytes) × Draws std l args p.segments buf out
      × (render_pattern std l p.segments (payloads args ++ rest) buf ≡ drawn c out)
render_pattern-Draws std l args pattern p rest buf accepted valid fits tags_are =
    draw std l args valid fits tags_are p.segments (payloads args ++ rest) rest buf
      (inr (parse-messages pattern p accepted, refl))
