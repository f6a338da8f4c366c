-- ===== src/Format/Template/Accepts.antt =====
-- A line pattern that the runtime parser accepts passes the compile-time checker of format strings.
use ticklog.Base.{
  ℕ, zero, suc, ◌+◌, ◌≡◌, ◌≢◌, refl, ap, arith, Byte, Bytes, Bool, true, false, Option, none, some,
  List, [], ◌∷◌, ◌++◌, ◌==◌, ◌||◌, if◌then◌else◌, Bool-cases, inl, inr, length, ==_iff,
}
use ticklog.Format.{Checked-cases, Checked, ok, err, and_then, Message, FormatSpec}
use ticklog.Format.Chars.{open_brace, close_brace, colon}
use ticklog.Format.Check.{
  scan_name, is_positional, validate_spec_rt, parse_spec_const, starts_with, tail_of, resume,
  spec_of, close, skip_placeholder, validate_loop, validate_fmt,
}
use ticklog.Format.Check.Agree.{NoClose, parse_spec_const_agrees}
use ticklog.Format.Parse.{parse_spec_body}
use ticklog.Format.Template.{
  Field, Segment, lit, place, Parsed, flush, push, admit, scan_close, read_spec, read_rest,
  read_field, place_at, read_placeholder, parse_loop, parse, from_str,
}

-- the placeholders among the segments
abbrev pub places : List Segment → ℕ
places [] = 0
places (lit b ∷ ss) = places ss
places (place f spec ∷ ss) = suc (places ss)

places-append : (ss ts : List Segment) → places (ss ++ ts) ≡ places ss + places ts
places-append [] ts = omega arith
places-append (lit b ∷ ss) ts = places-append ss ts
places-append (place f spec ∷ ss) ts = omega (arith, places-append ss ts)

places-flush : (p : Parsed) → places (flush p).segments ≡ places p.segments
unfolding flush
places-flush p = go (p.literal) refl
  where
    go : (l : Bytes) → p.literal ≡ l → places (flush p).segments ≡ places p.segments
    go [] e = rw e refl
    go (b ∷ bs) e = rw e (omega (arith, places-append p.segments (lit (b ∷ bs) ∷ [])))

places-push :
    (f : Field) (spec : FormatSpec) (p : Parsed)
    → places (push (place f spec) p).segments ≡ suc (places p.segments)
places-push f spec p = omega (arith, places-append p.segments (place f spec ∷ []))

places-escape :
    (b : Byte) (p : Parsed) → places (push (lit (b ∷ [])) (flush p)).segments ≡ places p.segments
places-escape b p =
    omega (arith, places-append (flush p).segments (lit (b ∷ []) ∷ []), places-flush p)

-- the bytes up to the first closing brace and those behind it
abbrev Cut : Bytes → Checked (Bytes × Bytes) → Type 0
Cut s (ok (body, rest)) = (s ≡ body ++ close_brace ∷ rest) × NoClose body
Cut s (err m) = Unit {0}

Cut-cons :
    (c : Byte) (s : Bytes) (r : Checked (Bytes × Bytes))
    → c ≢ close_brace
    → Cut s r
    → Cut (c ∷ s) (and_then r (λ t. ok (c ∷ t.0, t.1)))
Cut-cons c s (ok (body, rest)) ne (e, n) = (ap (λ x. c ∷ x) e, (ne, n))
Cut-cons c s (err m) ne h = tt

scan_close-Cut : (s : Bytes) → Cut s (scan_close s)
unfolding scan_close
scan_close-Cut [] = tt
scan_close-Cut (c ∷ s) = elim (Bool-cases (c == close_brace)) [
  | inl e ↦ rw (e, scan_close) (ap (λ x. x ∷ s) ((==_iff _ _).0 e), tt)
  | inr e ↦ rw (e, scan_close) (Cut-cons c s (scan_close s) (ground arith) (scan_close-Cut s))
]

-- If the first reads a spec, the second ends at the same place.
abbrev Fits : Checked (FormatSpec × Bytes) → Checked Bytes → Type 0
Fits (ok (spec, rest)) v = v ≡ ok rest
Fits (err m) v = Unit {0}

validated-Fits :
    (s body rest : Bytes)
    → s ≡ body ++ close_brace ∷ rest
    → NoClose body
    → Fits
        (and_then (validate_spec_rt body) (λ _. ok (parse_spec_body body, rest)))
        (and_then (parse_spec_const s) close)
validated-Fits s body rest e n =
    let agree : and_then (parse_spec_const s) close
        ≡ and_then (validate_spec_rt body) (λ _. ok rest) =
      rw e (parse_spec_const_agrees body rest n) in
    elim (Checked-cases (validate_spec_rt body)) [
      | inl (u, v) ↦ rw v (rw v at agree)
      | inr (m, v) ↦ rw v tt
    ]

read_spec-Fits : (s : Bytes) → Fits (read_spec s) (and_then (parse_spec_const s) close)
unfolding read_spec
read_spec-Fits s = cut (scan_close s) (scan_close-Cut s)
  where
    cut :
        (r : Checked (Bytes × Bytes))
        → Cut s r
        → Fits
            (and_then r (λ t. and_then (validate_spec_rt t.0) (λ _. ok (parse_spec_body t.0, t.1))))
            (and_then (parse_spec_const s) close)
    cut (ok (body, rest)) (e, n) = validated-Fits s body rest e n
    cut (err m) h = tt

read_rest-Fits :
    (c : Byte) (s : Bytes)
    → (c == colon || c == close_brace) ≡ true
    → Fits (read_rest c s) (spec_of (c ∷ s))
read_rest-Fits c s h = elim (Bool-cases (c == colon)) [
  | inl e ↦ rw e (read_spec-Fits s)
  | inr e ↦ rw (e, rw e at h) refl
]

-- If the first reads a placeholder, the second skips it.
abbrev Skips : ℕ → Checked (Parsed × Bytes) → Checked Bytes → Type 0
Skips n (ok (q, rest)) v = (v ≡ ok rest) × (places q.segments ≡ suc n)
Skips n (err m) v = Unit {0}

placed-Skips :
    (f : Field) (p : Parsed) (r : Checked (FormatSpec × Bytes)) (v : Checked Bytes)
    → Fits r v
    → Skips (places p.segments) (and_then r (λ t. ok (push (place f t.0) p, t.1))) v
placed-Skips f p (ok (spec, rest)) v h = (h, places-push f spec p)
placed-Skips f p (err m) v h = tt

-- The checks on the field.
admitted-Skips :
    (c : Byte) (s : Bytes) (p : Parsed) (field : Field) (seen : Bool)
    → (c == colon || c == close_brace) ≡ true
    → Skips
        (places p.segments)
        (and_then
          (read_rest c s)
          (λ t. ok (push (place field t.0) (record p { seen_message = seen }), t.1)))
        (spec_of (c ∷ s))
admitted-Skips c s p field seen h =
    placed-Skips field (record p { seen_message = seen }) (read_rest c s) (spec_of (c ∷ s))
      (read_rest-Fits c s h)

checked-Skips :
    (n : Byte) (ns : Bytes) (c : Byte) (s : Bytes) (p : Parsed)
    → (c == colon || c == close_brace) ≡ true
    → Skips
        (places p.segments)
        (place_at (n ∷ ns) (c ∷ s) p)
        (if is_positional (n ∷ ns) then err Message.positional else spec_of (c ∷ s))
unfolding place_at read_field
checked-Skips n ns c s p h = elim (Bool-cases (is_positional (n ∷ ns))) [
  | inl e ↦ rw e tt
  | inr e ↦ elim (Checked-cases (from_str (n ∷ ns))) [
    | inr (m, f) ↦ rw (e, f) tt
    | inl (field, f) ↦ elim (Checked-cases (admit field p.seen_message (c == colon))) [
      | inr (m, g) ↦ rw (e, f, g) tt
      | inl (seen, g) ↦ rw (e, f, g) (admitted-Skips c s p field seen h)
    ]
  ]
]

-- what is left starts with a colon or a closing brace
abbrev Stops : Bytes → Type 0
Stops [] = Unit {0}
Stops (c ∷ s) = (c == colon || c == close_brace) ≡ true

scan_name-Stops : (s : Bytes) → Stops (scan_name s).1
unfolding scan_name
scan_name-Stops [] = tt
scan_name-Stops (c ∷ s) = elim (Bool-cases (c == colon || c == close_brace)) [
  | inl e ↦ rw (e, scan_name) e
  | inr e ↦ rw (e, scan_name) (scan_name-Stops s)
]

read_placeholder-Skips :
    (s : Bytes) (p : Parsed) → Skips (places p.segments) (read_placeholder s p) (skip_placeholder s)
unfolding read_placeholder skip_placeholder place_at read_field
read_placeholder-Skips s p = at (scan_name s).0 (scan_name s).1 (scan_name-Stops s)
  where
    at :
        (name rest : Bytes)
        → Stops rest
        → Skips
            (places p.segments)
            (place_at name rest p)
            (if is_positional name then err Message.positional else spec_of rest)
    at name [] h = tt
    at [] (c ∷ s) h = tt
    at (n ∷ ns) (c ∷ s) h = checked-Skips n ns c s p h

-- If the first accepts, the second counts the placeholders.
abbrev Accepted : Option (Checked Parsed) → Option (Checked ℕ) → Type 0
Accepted none v = Unit {0}
Accepted (some (err m)) v = Unit {0}
Accepted (some (ok p)) v = v ≡ some (ok (places p.segments))

resume-Accepted :
    (fuel n : ℕ) (r : Checked (Parsed × Bytes)) (v : Checked Bytes)
    → ((s : Bytes) (p : Parsed)
        → Accepted (parse_loop fuel s p) (validate_loop fuel s (places p.segments)))
    → Skips n r v
    → Accepted
        (resume r (λ t. parse_loop fuel t.1 t.0))
        (resume v (λ rest. validate_loop fuel rest (suc n)))
resume-Accepted fuel n (ok (q, rest)) v ih (e, c) = rw (e, ← c) (ih rest q)
resume-Accepted fuel n (err m) v ih h = tt

parse_loop-Accepted :
    (fuel : ℕ) (s : Bytes) (p : Parsed)
    → Accepted (parse_loop fuel s p) (validate_loop fuel s (places p.segments))
unfolding parse_loop validate_loop
parse_loop-Accepted zero s p = tt
parse_loop-Accepted (suc fuel) [] p = rw (places-flush p) refl
parse_loop-Accepted (suc fuel) (c ∷ s) p = elim (Bool-cases (c == open_brace)) [
  | inl e ↦ elim (Bool-cases (starts_with open_brace s)) [
    | inl f ↦
        rw (e, f)
          (rw (places-escape open_brace p) at
            (parse_loop-Accepted fuel (tail_of s) (push (lit (open_brace ∷ [])) (flush p))))
    | inr f ↦
        rw (e, f)
          (resume-Accepted fuel (places p.segments) (read_placeholder s (flush p))
            (skip_placeholder s) (parse_loop-Accepted fuel)
            (rw (places-flush p) at (read_placeholder-Skips s (flush p))))
  ]
  | inr e ↦ elim (Bool-cases (c == close_brace)) [
    | inl f ↦ elim (Bool-cases (starts_with close_brace s)) [
      | inl g ↦
          rw (e, f, g)
            (rw (places-escape close_brace p) at
              (parse_loop-Accepted fuel (tail_of s) (push (lit (close_brace ∷ [])) (flush p))))
      | inr g ↦ rw (e, f, g) tt
    ]
    | inr f ↦ rw (e, f) (parse_loop-Accepted fuel s (record p { literal = p.literal ++ c ∷ [] }))
  ]
]

-- If the runtime parser accepts a line pattern, the compile-time checker accepts the same text, and
-- the number of placeholders it counts is that of the parsed pattern.
pub parse_accepted-validate_fmt :
    (fmt : Bytes) (p : Parsed)
    → parse fmt ≡ some (ok p)
    → validate_fmt fmt ≡ some (ok (places p.segments))
unfolding parse validate_fmt
parse_accepted-validate_fmt fmt p e = rw e at (
    parse_loop-Accepted (suc (length fmt)) fmt
      (record { segments = []; literal = []; seen_message = false }))
