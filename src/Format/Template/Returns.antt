-- ===== src/Format/Template/Returns.antt =====
-- The parser of line patterns comes to an end on every text.
use ticklog.Base.{
  ℕ, zero, suc, ◌≤◌, ◌<◌, refl, arith, Byte, Bytes, [], ◌∷◌, length, ◌==◌, Bool-cases, inl, inr,
}
use ticklog.Format.{Checked, ok, err, and_then, Message}
use ticklog.Format.Chars.{open_brace, close_brace, colon}
use ticklog.Format.Check.{scan_name, validate_spec_rt, starts_with, tail_of, resume}
use ticklog.Format.Check.Returns.{scan_name-le, tail_of-le, Returns}
use ticklog.Format.Parse.{parse_spec_body}
use ticklog.Format.Template.{
  place, Parsed, flush, push, admit, scan_close, read_spec, read_rest, read_field, place_at,
  read_placeholder, parse_loop, parse,
}

-- what is left behind the result is at most `n` bytes long
abbrev Leaves {ℓ} : {A : Type ℓ} → ℕ → Checked (A × Bytes) → Type 0
Leaves n (ok (a, s)) = length s ≤ n
Leaves n (err m) = Unit {0}

then-Leaves {ℓ ℓ'} :
    {A : Type ℓ} {B : Type ℓ'} (n : ℕ) (r : Checked (A × Bytes))
    (f : A × Bytes → Checked (B × Bytes))
    → Leaves n r
    → ((a : A) (s : Bytes) → length s ≤ n → Leaves n (f (a, s)))
    → Leaves n (and_then r f)
then-Leaves n (ok (a, s)) f h g = g a s h
then-Leaves n (err m) f h g = tt

after-Leaves {ℓ ℓ'} :
    {A : Type ℓ} {B : Type ℓ'} (n : ℕ) (r : Checked A) (f : A → Checked (B × Bytes))
    → ((a : A) → Leaves n (f a))
    → Leaves n (and_then r f)
after-Leaves n (ok a) f g = g a
after-Leaves n (err m) f g = tt

scan_close-Leaves : (n : ℕ) (s : Bytes) → length s ≤ n → Leaves n (scan_close s)
unfolding scan_close
scan_close-Leaves n [] h = tt
scan_close-Leaves n (c ∷ s) h = elim (Bool-cases (c == close_brace)) [
  | inl e ↦ rw (e, scan_close) (omega arith)
  | inr e ↦
      rw (e, scan_close)
        (then-Leaves n (scan_close s) (λ t. ok (c ∷ t.0, t.1)) (scan_close-Leaves n s (omega arith))
          (λ a s' h'. h'))
]

read_rest-Leaves : (n : ℕ) (c : Byte) (s : Bytes) → length s ≤ n → Leaves n (read_rest c s)
unfolding read_spec
read_rest-Leaves n c s h = elim (Bool-cases (c == colon)) [
  | inl e ↦ rw e (
      then-Leaves n (scan_close s)
        (λ t. and_then (validate_spec_rt t.0) (λ _. ok (parse_spec_body t.0, t.1)))
        (scan_close-Leaves n s h)
        (λ a s' h'.
          after-Leaves n (validate_spec_rt a) (λ _. ok (parse_spec_body a, s')) (λ u. h')))
  | inr e ↦ rw e h
]

place_at-Leaves :
    (n : ℕ) (name rest : Bytes) (p : Parsed) → length rest ≤ n → Leaves n (place_at name rest p)
unfolding place_at
place_at-Leaves n name [] p h = tt
place_at-Leaves n name (c ∷ s) p h = after-Leaves n (read_field name) _ (λ field.
    after-Leaves n (admit field p.seen_message (c == colon)) _ (λ seen.
      then-Leaves n (read_rest c s)
        (λ t. ok (push (place field t.0) (record p { seen_message = seen }), t.1))
        (read_rest-Leaves n c s (omega arith)) (λ a s' h'. h')))

read_placeholder-Leaves :
    (n : ℕ) (s : Bytes) (p : Parsed) → length s ≤ n → Leaves n (read_placeholder s p)
unfolding read_placeholder
read_placeholder-Leaves n s p h =
    place_at-Leaves n (scan_name s).0 (scan_name s).1 p (omega (arith, scan_name-le s))

resume-Returns :
    (n fuel : ℕ) (r : Checked (Parsed × Bytes))
    → Leaves n r
    → ((s : Bytes) (p : Parsed) → length s ≤ n → Returns (parse_loop fuel s p))
    → Returns (resume r (λ t. parse_loop fuel t.1 t.0))
resume-Returns n fuel (ok (q, s)) h g = g s q h
resume-Returns n fuel (err m) h g = (err m, refl)

parse_loop-Returns :
    (fuel : ℕ) (s : Bytes) (p : Parsed) → length s < fuel → Returns (parse_loop fuel s p)
unfolding parse_loop
parse_loop-Returns zero s p h = absurd (omega arith)
parse_loop-Returns (suc fuel) [] p h = (ok (flush p), refl)
parse_loop-Returns (suc fuel) (c ∷ s) p h =
    let skip = tail_of-le s in
    elim (Bool-cases (c == open_brace)) [
      | inl e ↦ elim (Bool-cases (starts_with open_brace s)) [
        | inl f ↦ rw (e, f) (parse_loop-Returns fuel (tail_of s) _ (omega arith))
        | inr f ↦
            rw (e, f)
              (resume-Returns (length s) fuel (read_placeholder s (flush p))
                (read_placeholder-Leaves (length s) s (flush p) (omega arith))
                (λ s' q h'. parse_loop-Returns fuel s' q (omega arith)))
      ]
      | inr e ↦ elim (Bool-cases (c == close_brace)) [
        | inl f ↦ elim (Bool-cases (starts_with close_brace s)) [
          | inl g ↦ rw (e, f, g) (parse_loop-Returns fuel (tail_of s) _ (omega arith))
          | inr g ↦ rw (e, f, g) (err Message.unmatched, refl)
        ]
        | inr f ↦ rw (e, f) (parse_loop-Returns fuel s _ (omega arith))
      ]
    ]

-- Template::parse returns on every text: its fuel does not run out.
pub parse-Returns : (fmt : Bytes) → Returns (parse fmt)
unfolding parse
parse-Returns fmt = parse_loop-Returns (suc (length fmt)) fmt _ (omega arith)
