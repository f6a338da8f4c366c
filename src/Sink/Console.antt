-- ===== src/Sink/Console.antt =====
-- src/sink/console.rs: the console sink. Whether the stream is a terminal is an argument.
use ticklog.Base.{
  ◌≡◌, refl, ◌∙◌, ap, arith, Bytes, Bool, true, false, [], ◌∷◌, ◌++◌, length, take, drop,
  take-append, length-append, append_assoc, ◌-◌, if◌then◌else◌,
}
use ticklog.Level.{Level, error, warn, info, debug, trace}
use ticklog.Sink.Lines.{Writer, newline}

pub data ColorMode : Type 0 where
  auto always never : ColorMode

-- escape, `[`, two digits and `m`
unfoldable pub color_code : Level → Bytes
color_code error = 27 ∷ 91 ∷ 57 ∷ 49 ∷ 109 ∷ []
color_code warn = 27 ∷ 91 ∷ 51 ∷ 51 ∷ 109 ∷ []
color_code info = 27 ∷ 91 ∷ 51 ∷ 50 ∷ 109 ∷ []
color_code debug = 27 ∷ 91 ∷ 51 ∷ 54 ∷ 109 ∷ []
color_code trace = 27 ∷ 91 ∷ 57 ∷ 48 ∷ 109 ∷ []

abbrev pub reset : Bytes
reset = 27 ∷ 91 ∷ 48 ∷ 109 ∷ []

unfoldable pub resolve : ColorMode → Bool → Bool
resolve ColorMode.always is_terminal = true
resolve ColorMode.never is_terminal = false
resolve ColorMode.auto is_terminal = is_terminal

unfoldable pub render : Bytes → Level → Bool → Bytes
render line level color = (if color then color_code level ++ (line ++ reset) else line) ++ newline

module _ (writer : Writer) where
  open writer use {State, write_all, flush}

  -- The stream, what it says of itself, and the scratch buffer.
  pub record ConsoleSink : Type 0 where
    pub stream : State
    pub is_terminal : Bool
    pub mode : ColorMode
    pub use_color : Bool
    pub buf : Bytes

  unfoldable pub with_stream : State → Bool → ConsoleSink
  with_stream stream is_terminal = record {
    stream = stream;
    is_terminal = is_terminal;
    mode = ColorMode.auto;
    use_color = resolve ColorMode.auto is_terminal;
    buf = [];
  }

  unfoldable pub with_color : ConsoleSink → ColorMode → ConsoleSink
  with_color c mode = record c { mode = mode; use_color = resolve mode c.is_terminal }

  unfoldable pub console_accept : ConsoleSink → Bytes → Level → ConsoleSink × Bool
  console_accept c line level =
      let out = render line level c.use_color in
      let (stream, done) = write_all c.stream out in (record c { stream = stream; buf = out }, done)

  unfoldable pub console_flush : ConsoleSink → ConsoleSink × Bool
  console_flush c = let (stream, done) = flush c.stream in (record c { stream = stream }, done)

-- A colored line read back: what is set between a color code and the reset with the newline.
abbrev uncolored : Bytes → Bytes
uncolored s = take (length (drop 5 s) - 5) (drop 5 s)

length-suffix : (line : Bytes) → length ((line ++ reset) ++ newline) - 5 ≡ length line
length-suffix line = omega (arith, length-append (line ++ reset) newline, length-append line reset)

within :
    (line : Bytes)
    → take (length ((line ++ reset) ++ newline) - 5) ((line ++ reset) ++ newline) ≡ line
within line =
    ap (λ n. take n ((line ++ reset) ++ newline)) (length-suffix line)
    ∙ ap (take (length line)) (append_assoc line reset newline)
    ∙ take-append line (reset ++ newline)

-- Whatever the level, the code is the front of a colored line, and the line stands behind it.
render_colored :
    (line : Bytes) (level : Level)
    → (take 5 (render line level true) ≡ color_code level)
      × (uncolored (render line level true) ≡ line)
unfolding render color_code
render_colored line error = (refl, within line)
render_colored line warn = (refl, within line)
render_colored line info = (refl, within line)
render_colored line debug = (refl, within line)
render_colored line trace = (refl, within line)
