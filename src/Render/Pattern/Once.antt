-- ===== src/Render/Pattern/Once.antt =====
-- A pattern that the parser accepts names the message at most once.
use ticklog.Base.{
  ℕ, zero, suc, ◌+◌, ◌≤◌, ◌++◌, ◌≡◌, refl, ap, arith, Bytes, Bool, true, false, Option, none, some,
  [], ◌∷◌, List, length, ◌==◌, Bool-cases, inl, inr,
}
use ticklog.Format.{Checked, ok, err, and_then}
use ticklog.Format.Chars.{open_brace, close_brace, colon}
use ticklog.Format.Check.{starts_with, tail_of, resume, scan_name}
use ticklog.Format.Template.{
  Field, timestamp, level, file, line, thread_name, thread_id, message, Segment, lit, place, Parsed,
  flush, push, admit, read_field, read_rest, place_at, read_placeholder, parse_loop, parse,
}
use mathlib.Core.Path.{subst}

abbrev pub of_field : Field → ℕ
of_field message = 1
of_field timestamp = 0
of_field level = 0
of_field file = 0
of_field line = 0
of_field thread_name = 0
of_field thread_id = 0

-- How often the segments name the message.
abbrev pub messages : List Segment → ℕ
messages [] = 0
messages (lit s ∷ segments) = messages segments
messages (place field spec ∷ segments) = of_field field + messages segments

abbrev once : Bool → ℕ
once true = 1
once false = 0

-- The flag tells whether the message was named.
abbrev Counted : Parsed → Type 0
Counted p = messages p.segments ≤ once p.seen_message

messages-append : (xs ys : List Segment) → messages (xs ++ ys) ≡ messages xs + messages ys
messages-append [] ys = omega arith
messages-append (lit s ∷ xs) ys = messages-append xs ys
messages-append (place field spec ∷ xs) ys = omega (arith, messages-append xs ys)

flush-Counted : (p : Parsed) → Counted p → Counted (flush p)
unfolding flush
flush-Counted p h = by_literal p.literal
  where
    by_literal :
        (s : Bytes)
        → Counted (elim s [
          | [] ↦ p
          | b ∷ bs ↦ record p { segments = p.segments ++ lit (b ∷ bs) ∷ []; literal = [] }
        ])
    by_literal [] = h
    by_literal (b ∷ bs) = omega (arith, h, messages-append p.segments (lit (b ∷ bs) ∷ []))

abbrev is_ok {ℓ} : {A : Type ℓ} → Checked A → Bool
is_ok (ok a) = true
is_ok (err m) = false

abbrev value : Bool → Checked Bool → Bool
value d (ok a) = a
value d (err m) = d

admit-once :
    (field : Field) (seen colon_follows seen' : Bool)
    → admit field seen colon_follows ≡ ok seen'
    → of_field field + once seen ≤ once seen'
unfolding admit
admit-once timestamp seen true s' e = absurd (ground (arith, ap is_ok e))
admit-once timestamp seen false s' e = omega (arith, ap (λ c. once (value seen c)) e)
admit-once message true b s' e = absurd (ground (arith, ap is_ok e))
admit-once message false true s' e = absurd (ground (arith, ap is_ok e))
admit-once message false false s' e = omega (arith, ap (λ c. once (value false c)) e)
admit-once level seen b s' e = omega (arith, ap (λ c. once (value seen c)) e)
admit-once file seen b s' e = omega (arith, ap (λ c. once (value seen c)) e)
admit-once line seen b s' e = omega (arith, ap (λ c. once (value seen c)) e)
admit-once thread_name seen b s' e = omega (arith, ap (λ c. once (value seen c)) e)
admit-once thread_id seen b s' e = omega (arith, ap (λ c. once (value seen c)) e)

abbrev AfterPlace : Checked (Parsed × Bytes) → Type 0
AfterPlace (ok t) = Counted t.0
AfterPlace (err m) = Unit {0}

then-AfterPlace :
    {A : Type 0} (a : Checked A) (f : A → Checked (Parsed × Bytes))
    → ((x : A) → a ≡ ok x → AfterPlace (f x))
    → AfterPlace (and_then a f)
then-AfterPlace (ok x) f h = h x refl
then-AfterPlace (err m) f h = tt

place_at-Counted : (name rest : Bytes) (p : Parsed) → Counted p → AfterPlace (place_at name rest p)
unfolding place_at
place_at-Counted name [] p h = tt
place_at-Counted name (c ∷ s) p h = then-AfterPlace (read_field name) _ (λ field e.
    then-AfterPlace (admit field p.seen_message (c == colon)) _ (λ seen f.
      then-AfterPlace (read_rest c s) _ (λ t g. omega (
        arith,
        h,
        messages-append p.segments (place field t.0 ∷ []),
        admit-once field p.seen_message (c == colon) seen f,
      ))))

abbrev AfterLoop : Option (Checked Parsed) → Type 0
AfterLoop none = Unit {0}
AfterLoop (some (ok p)) = Counted p
AfterLoop (some (err m)) = Unit {0}

resume-AfterLoop :
    (r : Checked (Parsed × Bytes)) (f : Parsed × Bytes → Option (Checked Parsed))
    → AfterPlace r
    → ((t : Parsed × Bytes) → Counted t.0 → AfterLoop (f t))
    → AfterLoop (resume r f)
resume-AfterLoop (ok t) f a h = h t a
resume-AfterLoop (err m) f a h = tt

lit-Counted : (s : Bytes) (p : Parsed) → Counted p → Counted (push (lit s) p)
lit-Counted s p h = omega (arith, h, messages-append p.segments (lit s ∷ []))

parse_loop-Counted :
    (fuel : ℕ) (s : Bytes) (p : Parsed) → Counted p → AfterLoop (parse_loop fuel s p)
unfolding parse_loop read_placeholder
parse_loop-Counted zero s p h = tt
parse_loop-Counted (suc fuel) [] p h = flush-Counted p h
parse_loop-Counted (suc fuel) (c ∷ s) p h = elim (Bool-cases (c == open_brace)) [
  | inl e ↦ elim (Bool-cases (starts_with open_brace s)) [
    | inl f ↦
        rw (e, f)
          (parse_loop-Counted fuel (tail_of s) (push (lit (open_brace ∷ [])) (flush p))
            (lit-Counted (open_brace ∷ []) (flush p) (flush-Counted p h)))
    | inr f ↦
        rw (e, f)
          (resume-AfterLoop (read_placeholder s (flush p)) _
            (place_at-Counted (scan_name s).0 (scan_name s).1 (flush p) (flush-Counted p h))
            (λ t k. parse_loop-Counted fuel t.1 t.0 k))
  ]
  | inr e ↦ elim (Bool-cases (c == close_brace)) [
    | inl f ↦ elim (Bool-cases (starts_with close_brace s)) [
      | inl g ↦
          rw (e, f, g)
            (parse_loop-Counted fuel (tail_of s) (push (lit (close_brace ∷ [])) (flush p))
              (lit-Counted (close_brace ∷ []) (flush p) (flush-Counted p h)))
      | inr g ↦ rw (e, f, g) tt
    ]
    | inr f ↦ rw (e, f) (parse_loop-Counted fuel s (record p { literal = p.literal ++ c ∷ [] }) h)
  ]
]

pub parse-messages :
    (pattern : Bytes) (p : Parsed) → parse pattern ≡ some (ok p) → messages p.segments ≤ 1
unfolding parse
parse-messages pattern p e = at_most p.seen_message (subst AfterLoop e counted)
  where
    counted : AfterLoop (parse pattern)
    counted =
        parse_loop-Counted (suc (length pattern)) pattern
          (record { segments = []; literal = []; seen_message = false }) (omega arith)

    at_most : (seen : Bool) → messages p.segments ≤ once seen → messages p.segments ≤ 1
    at_most true h = h
    at_most false h = omega (arith, h)
