-- ===== src/Format/Check/Closing.antt =====
-- Where a placeholder ends for the compile-time checker: at the first closing brace.
use ticklog.Base.{
  ◌≡◌, ◌≢◌, ◌⊎◌, refl, sym, ap, ◌∙◌, arith, Bytes, Bool, true, false, [], ◌∷◌, ◌++◌, ◌==◌, ◌||◌,
  if◌then◌else◌, ==_iff, Bool-cases, inl, inr,
}
use ticklog.Format.{Checked, ok, err, and_then, Message}
use ticklog.Format.Chars.{
  close_brace, colon, is_type_char, is_sign, skip_fill_align, skip_char, skip_digits,
  skip_precision,
}
use ticklog.Format.Check.{
  at_close, until_close, type_const, zero_const, width_const, precision_const, alternate_const,
  align_const, parse_spec_const, scan_name, is_positional, spec_of, skip_placeholder, close,
  validate_spec_rt,
}
use ticklog.Format.Check.Agree.{
  NoClose, Stage, not_close, skip_char-Stage, skip_digits-Stage, skip_precision-Stage,
  skip_fill_align-Stage, parse_spec_const_agrees,
}

-- a part that leaves no closing brace
abbrev LeavesNone : Checked Bytes → Type 0
LeavesNone (ok s) = NoClose s
LeavesNone (err m) = Unit {0}

Stage-LeavesNone : (a b : Checked Bytes) → Stage [] a b → LeavesNone b
Stage-LeavesNone a (ok s) st = st.1
Stage-LeavesNone a (err m) st = tt

until-LeavesNone :
    (s : Bytes) (f : Bytes → Checked Bytes)
    → NoClose s
    → ((t : Bytes) → NoClose t → LeavesNone (f t))
    → LeavesNone (until_close s f)
until-LeavesNone s f n h = elim (Bool-cases (at_close s)) [ inl e ↦ rw e n | inr e ↦ rw e (h s n) ]

then-LeavesNone :
    (a : Checked Bytes) (f : Bytes → Checked Bytes)
    → LeavesNone a
    → ((t : Bytes) → NoClose t → LeavesNone (f t))
    → LeavesNone (and_then a f)
then-LeavesNone (ok s) f n h = h s n
then-LeavesNone (err m) f n h = tt

type-LeavesNone : (s : Bytes) → NoClose s → LeavesNone (type_const s)
unfolding type_const
type-LeavesNone [] n = tt
type-LeavesNone (c ∷ s) n = elim (Bool-cases (is_type_char c)) [
  | inl e ↦ rw e n.1
  | inr e ↦ elim (Bool-cases (is_sign c)) [
    | inl v ↦ rw (e, not_close c n.0, v) tt
    | inr v ↦ rw (e, not_close c n.0, v) tt
  ]
]

fill_align-LeavesNone : (s : Bytes) → NoClose s → LeavesNone (skip_fill_align s)
unfolding skip_fill_align
fill_align-LeavesNone [] n = tt
fill_align-LeavesNone (c ∷ s) n =
    Stage-LeavesNone _ (skip_fill_align (c ∷ s)) (skip_fill_align-Stage [] c s n)

parse_spec_const-LeavesNone : (s : Bytes) → NoClose s → LeavesNone (parse_spec_const s)
unfolding parse_spec_const
parse_spec_const-LeavesNone [] n = tt
parse_spec_const-LeavesNone (c ∷ s) n = until-LeavesNone (c ∷ s) align_const n (λ s n.
    then-LeavesNone (skip_fill_align s) _ (fill_align-LeavesNone s n) (λ s n.
      until-LeavesNone s zero_const n (λ s n.
        until-LeavesNone (skip_char 48 s) width_const (skip_char-Stage [] 48 s (omega arith) n).1
          (λ s n.
            until-LeavesNone (skip_digits s) precision_const (skip_digits-Stage [] s n).1 (λ s n.
              then-LeavesNone (skip_precision s) _
                (Stage-LeavesNone _ (skip_precision s) (skip_precision-Stage [] s n))
                (λ s n. until-LeavesNone s alternate_const n (λ s n.
                  until-LeavesNone (skip_char 35 s) type_const
                    (skip_char-Stage [] 35 s (omega arith) n).1 type-LeavesNone)))))))

abbrev is_ok : Checked Bytes → Bool
is_ok (ok s) = true
is_ok (err m) = false

pub err-ne : {m : Message} {rest : Bytes} → err m ≢ ok rest
err-ne e = absurd (ground (arith, ap is_ok e))

-- What the closing brace demands is not there.
pub unclosed_spec : (s rest : Bytes) → NoClose s → and_then (parse_spec_const s) close ≢ ok rest
unclosed_spec s rest n = refuse (parse_spec_const s) (parse_spec_const-LeavesNone s n)
  where
    refuse : (r : Checked Bytes) → LeavesNone r → and_then r close ≢ ok rest
    refuse (ok []) n e = err-ne e
    refuse (ok (c ∷ t)) n e =
        err-ne (sym (ap (λ b. if b then ok t else err Message.trailing) (not_close c n.0)) ∙ e)
    refuse (err m) n e = err-ne e

-- the text up to the closing brace, and what follows it
unfoldable pub split_close : Bytes → Bytes × Bytes
split_close [] = ([], [])
split_close (c ∷ s) = elim (c == close_brace) [
  | true ↦ ([], s)
  | false ↦ let (spec, rest) = split_close s in (c ∷ spec, rest)
]

abbrev or_else : Bytes → Checked Bytes → Bytes
or_else d (ok x) = x
or_else d (err m) = d

-- Either there is no closing brace, or the text is split at the first.
split_close-cases :
    (s : Bytes)
    → NoClose s
      ⊎ ((body : Bytes) × (tail : Bytes) × (s ≡ body ++ close_brace ∷ tail)
          × NoClose body
          × ((split_close s).1 ≡ tail))
unfolding split_close
split_close-cases [] = inl tt
split_close-cases (c ∷ s) = elim (Bool-cases (c == close_brace)) [
  | inl e ↦ inr ([], s, ap (λ b. b ∷ s) ((==_iff c close_brace).0 e), tt, rw (e, split_close) refl)
  | inr e ↦
      let ne : c ≢ close_brace = λ h. ground (arith, (==_iff c close_brace).1 h) in
      elim (split_close-cases s) [
        | inl n ↦ inl (ne, n)
        | inr (body, tail, shape, n, t) ↦
            inr (c ∷ body, tail, ap (λ x. c ∷ x) shape, (ne, n), rw (e, split_close) t)
      ]
]

-- A spec that the compile-time checker accepts ends at the first closing brace.
spec-split :
    (s rest : Bytes) → and_then (parse_spec_const s) close ≡ ok rest → (split_close s).1 ≡ rest
spec-split s rest e = elim (split_close-cases s) [
  | inl n ↦ absurd (unclosed_spec s rest n e)
  | inr (body, tail, shape, n, t) ↦
      let agreed =
        sym (parse_spec_const_agrees body tail n)
        ∙ ap (λ x. and_then (parse_spec_const x) close) (sym shape)
        ∙ e in
      t ∙ same (validate_spec_rt body) tail agreed
]
  where
    same :
        (r : Checked (Unit {0})) (tail : Bytes) → and_then r (λ _. ok tail) ≡ ok rest → tail ≡ rest
    same (ok u) tail h = ap (or_else tail) h
    same (err m) tail h = absurd (err-ne h)

-- The name does not hold the closing brace.
scan_name-split : (s : Bytes) → (split_close s).1 ≡ (split_close (scan_name s).1).1
unfolding split_close scan_name
scan_name-split [] = refl
scan_name-split (c ∷ s) = elim (Bool-cases (c == colon || c == close_brace)) [
  | inl e ↦ rw (e, scan_name) refl
  | inr e ↦
      let n : (c == close_brace) ≡ false = ground arith in
      rw (e, scan_name, n, split_close) (scan_name-split s)
]

spec_of-split : (r rest : Bytes) → spec_of r ≡ ok rest → (split_close r).1 ≡ rest
unfolding split_close
spec_of-split [] rest e = absurd (err-ne e)
spec_of-split (c ∷ t) rest e = elim (Bool-cases (c == colon)) [
  | inl h ↦
      let n : (c == close_brace) ≡ false = ground arith in
      let inside =
        sym (ap (λ b. if b then and_then (parse_spec_const t) close else close (c ∷ t)) h) ∙ e in
      rw (n, split_close) (spec-split t rest inside)
  | inr h ↦
      let alone =
        sym (ap (λ b. if b then and_then (parse_spec_const t) close else close (c ∷ t)) h) ∙ e in
      elim (Bool-cases (c == close_brace)) [
        | inl k ↦
            let same : ok t ≡ ok rest =
              sym (ap (λ b. if b then ok t else err Message.trailing) k) ∙ alone in
            rw (k, split_close) (ap (or_else t) same)
        | inr k ↦
            absurd (err-ne (sym (ap (λ b. if b then ok t else err Message.trailing) k) ∙ alone))
      ]
]

-- A placeholder that the compile-time checker accepts ends at the first closing brace.
pub skip_placeholder-split :
    (s rest : Bytes) → skip_placeholder s ≡ ok rest → (split_close s).1 ≡ rest
unfolding skip_placeholder
skip_placeholder-split s rest e = scan_name-split s ∙ behind (is_positional (scan_name s).0) e
  where
    behind :
        (positional : Bool)
        → (if positional then err Message.positional else spec_of (scan_name s).1) ≡ ok rest
        → (split_close (scan_name s).1).1 ≡ rest
    behind true h = absurd (err-ne h)
    behind false h = spec_of-split (scan_name s).1 rest h
