-- ===== src/Sink/Lines.antt =====
-- src/sink/writer.rs and src/sink/file.rs: sinks that hand lines to a writer, `io::Write` or a buffered
-- file. What the writer does is an argument, with what its documentation says of `write_all`.
use ticklog.Base.{
  ◌≡◌, ◌≢◌, refl, sym, ap, ◌∙◌, Bytes, Bool, true, false, List, [], ◌∷◌, ◌++◌, map, append_assoc,
  append-nil, ◌⊎◌, inl, inr, ◌==◌, if◌then◌else◌, arith,
}
use ticklog.Drain.{Delivery}
use ticklog.Level.{Level}

-- b'\n'
abbrev pub newline : Bytes
newline = 10 ∷ []

-- A writer. A `write_all` that fails may have written a front of the bytes.
pub record Writer : Type 1 where
  pub State : Type 0
  pub write_all : State → Bytes → State × Bool
  pub flush : State → State × Bool
  pub held : State → Bytes
  pub wrote :
      (w : State) (bytes : Bytes)
      → (((write_all w bytes).1 ≡ true) × (held (write_all w bytes).0 ≡ held w ++ bytes))
        ⊎ (((write_all w bytes).1 ≡ false)
            × ((p : Bytes) × (q : Bytes) × (p ++ q ≡ bytes)
                × (held (write_all w bytes).0 ≡ held w ++ p)))

module _ (writer : Writer) where
  open writer use {State, write_all, flush, held, wrote}

  -- the answer of the first write, or what follows it
  abbrev and_newline : State × Bool → State × Bool
  and_newline (w, true) = write_all w newline
  and_newline (w, false) = (w, false)

  -- `WriterSink::accept` and `FileSink::accept`, which take no heed of the level
  unfoldable pub writer_accept : State → Bytes → Level → State × Bool
  writer_accept w line level = and_newline (write_all w line)

  unfoldable pub writer_flush : State → State × Bool
  writer_flush w = flush w

  -- A run of deliveries that are all accepted.
  pub data Accepts : State → List Delivery → State → Type 0 where
    done : {w : State} → Accepts w [] w
    next :
        {w w1 w' : State} {ds : List Delivery} (line : Bytes) (level : Level)
        → writer_accept w line level ≡ (w1, true)
        → Accepts w1 ds w'
        → Accepts w ((line, level) ∷ ds) w'

  -- An accepted line is written whole with its newline behind it; of another, a front of that.
  accept_lem :
      (w : State) (line : Bytes) (level : Level)
      → (((writer_accept w line level).1 ≡ true)
          × (held (writer_accept w line level).0 ≡ held w ++ (line ++ newline)))
        ⊎ (((writer_accept w line level).1 ≡ false)
            × ((p : Bytes) × (q : Bytes) × (p ++ q ≡ line ++ newline)
                × (held (writer_accept w line level).0 ≡ held w ++ p)))
  unfolding writer_accept
  accept_lem w line level = elim (wrote w line) [
    | inr (failed, (p, q, whole, now)) ↦ rw failed (
        inr (
          refl,
          (p, q ++ newline, sym (append_assoc p q newline) ∙ ap (λ s. s ++ newline) whole, now),
        ))
    | inl (ok, now) ↦ rw ok (elim (wrote (write_all w line).0 newline) [
      | inl (ok', now') ↦
          inl (ok', now' ∙ ap (λ s. s ++ newline) now ∙ append_assoc (held w) line newline)
      | inr (failed, (p, q, whole, now')) ↦ inr (
        failed,
        (
          line ++ p,
          q,
          append_assoc line p q ∙ ap (λ s. line ++ s) whole,
          now' ∙ ap (λ s. s ++ p) now ∙ append_assoc (held w) line p,
        ),
      )
    ])
  ]

-- What a reader of the file sees: the bytes between newlines, and what follows the last.
abbrev cons_line : Bytes → List Bytes → List Bytes
cons_line line rest = line ∷ rest

unfoldable pub split_lines : Bytes → Bytes → List Bytes
split_lines line [] = []
split_lines line (b ∷ s) =
    let ended = cons_line line (split_lines [] s) in
    let longer = split_lines (line ++ b ∷ []) s in if b == 10 then ended else longer

-- No byte of the line is a newline.
abbrev pub OneLine : Bytes → Type 0
OneLine [] = Unit {0}
OneLine (b ∷ s) = (b ≢ 10) × OneLine s

abbrev pub AllOneLine : List Delivery → Type 0
AllOneLine [] = Unit {0}
AllOneLine (d ∷ ds) = OneLine d.0 × AllOneLine ds

split_lines-line :
    (before line rest : Bytes)
    → OneLine line
    → split_lines before (line ++ (newline ++ rest)) ≡ (before ++ line) ∷ split_lines [] rest
unfolding split_lines
split_lines-line before [] rest h = ap (λ s. s ∷ split_lines [] rest) (sym (append-nil before))
split_lines-line before (b ∷ line) rest h =
    let other : (b == 10) ≡ false = ground arith in
    rw other (
      split_lines-line (before ++ b ∷ []) line rest h.1
      ∙ ap (λ s. s ∷ split_lines [] rest) (append_assoc before (b ∷ []) line))

module _ (writer : Writer) where
  open writer use {State, held}

  abbrev lines_of : List Delivery → Bytes
  lines_of [] = []
  lines_of (d ∷ ds) = d.0 ++ (newline ++ lines_of ds)

  Accepts-held :
      {w w' : State} {ds : List Delivery} → Accepts writer w ds w' → held w' ≡ held w ++ lines_of ds
  Accepts-held (done {w}) = sym (append-nil (held w))
  Accepts-held (next {w} {w1} {w'} {ds} line level e rest) =
      Accepts-held rest
      ∙ ap (λ s. s ++ lines_of ds) here
      ∙ append_assoc (held w) (line ++ newline) (lines_of ds)
      ∙ ap (λ s. held w ++ s) (append_assoc line newline (lines_of ds))
    where
      here : held w1 ≡ held w ++ (line ++ newline)
      here = elim (accept_lem writer w line level) [
        | inl (ok, now) ↦ ap (λ t. held t.0) (sym e) ∙ now
        | inr (failed, (p, q, whole, now)) ↦ cc
      ]

  split_lines-lines_of :
      (ds : List Delivery) → AllOneLine ds → split_lines [] (lines_of ds) ≡ map (λ d. d.0) ds
  unfolding split_lines
  split_lines-lines_of [] h = refl
  split_lines-lines_of (d ∷ ds) h =
      split_lines-line [] d.0 (lines_of ds) h.0 ∙ ap (λ ls. d.0 ∷ ls) (split_lines-lines_of ds h.1)

  -- When an empty writer has accepted lines, none of which has a newline in it, then what it holds reads
  -- back as just these lines, in order.
  pub split_lines-held :
      (w w' : State) (ds : List Delivery)
      → held w ≡ []
      → AllOneLine ds
      → Accepts writer w ds w'
      → split_lines [] (held w') ≡ map (λ d. d.0) ds
  split_lines-held w w' ds empty one run =
      ap (split_lines []) (Accepts-held run ∙ ap (λ s. s ++ lines_of ds) empty)
      ∙ split_lines-lines_of ds one
