-- ===== src/Tests/Sink.antt =====
-- src/sink/ on a few lines.
use ticklog.Base.{ℕ, suc, ◌≡◌, refl, arith, Bool, true, false, Bytes, [], ◌∷◌, ◌++◌, List, map, inl}
use ticklog.Drain.{Delivery}
use ticklog.Level.{Level, error, info, trace}
use ticklog.Sink.{drop_oldest, Child, empty, push_all, fan_all, fan_accept}
use ticklog.Sink.Console.{
  ColorMode, with_stream, with_color, console_accept, render, resolve, color_code,
}
use ticklog.Sink.Fan.{served, fan_all_lem}
use ticklog.Sink.Lines.{Writer, Accepts, done, next, writer_accept, split_lines, split_lines-held}
use ticklog.Sink.Memory.{retained, dropped_of, push_all_lem}

abbrev lines : List Delivery
lines = (1 ∷ [], error) ∷ (2 ∷ [], info) ∷ (3 ∷ [], trace) ∷ []

two_latest : retained drop_oldest 2 lines ≡ (2 ∷ [], info) ∷ (3 ∷ [], trace) ∷ []
two_latest = refl

push_all_lem_example :
    push_all drop_oldest 2 empty lines
    ≡ record { items = retained drop_oldest 2 lines; dropped = dropped_of drop_oldest 2 lines }
push_all_lem_example = push_all_lem drop_oldest 2 lines (omega arith)

-- A sink that counts what it is given and always fails.
abbrev count : ℕ → Bytes → Level → ℕ × Bool
count n line level = (suc n, false)

abbrev two_sinks : List (Child ℕ)
two_sinks = record { state = 0; max_level = error } ∷ record { state = 0; max_level = trace } ∷ []

fan_all_lem_example :
    (fan_all count two_sinks lines ≡ map (served count lines) two_sinks)
    × ((line : Bytes) (level : Level) → (fan_accept count two_sinks line level).1 ≡ true)
fan_all_lem_example = fan_all_lem count two_sinks lines

-- `Vec<u8>` as a writer: every write is taken whole.
abbrev list_writer : Writer
list_writer = record {
  State = Bytes;
  write_all = λ w bytes. (w ++ bytes, true);
  flush = λ w. (w, true);
  held = λ w. w;
  wrote = λ w bytes. inl (refl, refl);
}

abbrev two_lines : List Delivery
two_lines = (104 ∷ 105 ∷ [], info) ∷ ([], error) ∷ []

both_accepted : Accepts list_writer [] two_lines (104 ∷ 105 ∷ 10 ∷ 10 ∷ [])
unfolding writer_accept
both_accepted = next (104 ∷ 105 ∷ []) info refl (next [] error refl done)

split_lines-held_example : split_lines [] (104 ∷ 105 ∷ 10 ∷ 10 ∷ []) ≡ map (λ d. d.0) two_lines
split_lines-held_example =
    split_lines-held list_writer [] (104 ∷ 105 ∷ 10 ∷ 10 ∷ []) two_lines refl
      ((λ e. absurd (omega (arith, e)), (λ e. absurd (omega (arith, e)), tt)), (tt, tt))
      both_accepted

-- An error in bright red, on a stream that is no terminal.
red_line :
    (console_accept list_writer
      (with_color list_writer (with_stream list_writer [] false) ColorMode.always)
      (104 ∷ [])
      error).0.stream
    ≡ 27 ∷ 91 ∷ 57 ∷ 49 ∷ 109 ∷ 104 ∷ 27 ∷ 91 ∷ 48 ∷ 109 ∷ 10 ∷ []
unfolding console_accept with_color with_stream render resolve color_code
red_line = refl
