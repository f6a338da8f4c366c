-- ===== src/Render/Pattern.antt =====
-- src/drain.rs, `render_pattern`: one line, by the segments of its pattern.
pub mod Once
pub mod Lines
use ticklog.Base.{ℕ, ◌++◌, ◌≡◌, Bytes, Option, none, some, [], ◌∷◌, List, ascii}
use ticklog.Base.Int.{ℤ}
use ticklog.Cursor.{Cursor}
use ticklog.Format.{FormatSpec, ok}
use ticklog.Format.Check.{validate_fmt}
use ticklog.Format.Pad.{format_unsigned_impl}
use ticklog.Format.Template.{
  Field, timestamp, level, file, line, thread_name, thread_id, message, Segment, lit, place,
}
use ticklog.Level.{Level, as_str}
use ticklog.Render.{Std, Rendered, rendered, broken, out_of_fuel, format_str, interleave}
use ticklog.Timestamp.{format_iso8601}

-- What a line is made of; the arguments stand at the cursor.
pub record Line : Type 0 where
  pub ns : ℕ
  pub timezone_offset : ℤ
  pub severity : Level
  pub fmt : Bytes
  pub file_line : Option (Bytes × ℕ)
  pub thread : ℕ
  pub name : Option Bytes
  pub tags : Bytes

-- `failed` is the panic of a formatter.
pub data Drawn : Type 0 where
  drawn : Cursor → Bytes → Drawn
  failed endless : Drawn

abbrev pub of_message : Rendered → Drawn
of_message (rendered w) = drawn w.cursor w.buf
of_message broken = failed
of_message out_of_fuel = endless

abbrev pub and_then_draw : Drawn → (Cursor → Bytes → Drawn) → Drawn
and_then_draw (drawn c buf) f = f c buf
and_then_draw failed f = failed
and_then_draw endless f = endless

module _ (std : Std) (l : Line) where
  abbrev pub of_file : Option (Bytes × ℕ) → FormatSpec → Bytes → Bytes
  of_file none spec buf = buf
  of_file (some (f, n)) spec buf = format_str std f spec buf

  abbrev pub of_line : Option (Bytes × ℕ) → FormatSpec → Bytes → Bytes
  of_line none spec buf = buf
  of_line (some (f, n)) spec buf = format_unsigned_impl (std.unsigned spec n) spec buf

  abbrev pub of_name : Option Bytes → FormatSpec → Bytes → Bytes
  of_name none spec buf = buf
  of_name (some s) spec buf = format_str std s spec buf

  unfoldable pub render_field : Field → FormatSpec → Cursor → Bytes → Drawn
  render_field timestamp spec c buf = drawn c (format_iso8601 l.ns l.timezone_offset buf)
  render_field level spec c buf = drawn c (format_str std (as_str l.severity) spec buf)
  render_field file spec c buf = drawn c (of_file l.file_line spec buf)
  render_field line spec c buf = drawn c (of_line l.file_line spec buf)
  render_field thread_name spec c buf = drawn c (of_name l.name spec buf)
  render_field thread_id spec c buf =
      drawn c (
        format_unsigned_impl (std.unsigned spec l.thread) spec (buf ++ ascii "ThreadId(")
        ++ 41 ∷ [])
  render_field message spec c buf = of_message (interleave std l.fmt l.tags c buf)

  unfoldable pub render_pattern : List Segment → Cursor → Bytes → Drawn
  render_pattern [] c buf = drawn c buf
  render_pattern (lit s ∷ segments) c buf = render_pattern segments c (buf ++ s)
  render_pattern (place field spec ∷ segments) c buf =
      and_then_draw (render_field field spec c buf) (render_pattern segments)
