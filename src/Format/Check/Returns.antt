-- ===== src/Format/Check/Returns.antt =====
-- The compile-time checker comes to an end on every text.
use ticklog.Base.{
  ℕ, zero, suc, ◌≤◌, ◌<◌, ◌≡◌, refl, arith, Byte, Bytes, Option, some, [], ◌∷◌, length, ◌==◌, ◌||◌,
  Bool-cases, inl, inr,
}
use ticklog.Format.{Checked, ok, err, and_then, Message}
use ticklog.Format.Chars.{
  open_brace, close_brace, colon, is_digit, is_align_char, is_valid_fill, is_type_char, is_sign,
  skip_fill_align, skip_char, skip_digits, skip_precision,
}
use ticklog.Format.Check.{
  at_close, until_close, type_const, alternate_const, precision_const, width_const, zero_const,
  align_const, parse_spec_const, scan_name, is_positional, starts_with, tail_of, resume, spec_of,
  close, skip_placeholder, validate_loop, validate_fmt,
}

-- what is left is at most `n` bytes long
abbrev Within : ℕ → Checked Bytes → Type 0
Within n (ok s) = length s ≤ n
Within n (err m) = Unit {0}

then-Within :
    (n : ℕ) (a : Checked Bytes) (f : Bytes → Checked Bytes)
    → Within n a
    → ((s : Bytes) → length s ≤ n → Within n (f s))
    → Within n (and_then a f)
then-Within n (ok s) f h g = g s h
then-Within n (err m) f h g = tt

until-Within :
    (n : ℕ) (s : Bytes) (f : Bytes → Checked Bytes)
    → length s ≤ n
    → ((s : Bytes) → length s ≤ n → Within n (f s))
    → Within n (until_close s f)
until-Within n s f h g = elim (Bool-cases (at_close s)) [ inl e ↦ rw e h | inr e ↦ rw e (g s h) ]

skip_char-le : (b : Byte) (s : Bytes) → length (skip_char b s) ≤ length s
unfolding skip_char
skip_char-le b [] = omega arith
skip_char-le b (c ∷ s) = ground arith

skip_digits-le : (s : Bytes) → length (skip_digits s) ≤ length s
unfolding skip_digits
skip_digits-le [] = omega arith
skip_digits-le (c ∷ s) = elim (Bool-cases (is_digit c)) [
  | inl e ↦ rw (e, skip_digits) (omega (arith, skip_digits-le s))
  | inr e ↦ rw (e, skip_digits) (omega arith)
]

skip_precision-Within : (n : ℕ) (s : Bytes) → length s ≤ n → Within n (skip_precision s)
unfolding skip_precision
skip_precision-Within n [] h = h
skip_precision-Within n (c ∷ []) h = elim (Bool-cases (c == 46)) [
  | inl e ↦ rw e tt
  | inr e ↦ rw e h
]
skip_precision-Within n (c ∷ d ∷ s) h = elim (Bool-cases (c == 46)) [
  | inl e ↦ elim (Bool-cases (is_digit d)) [
    | inl f ↦ rw (e, f) (omega (arith, skip_digits-le s))
    | inr f ↦ rw (e, f) tt
  ]
  | inr e ↦ rw e h
]

skip_fill_align-Within : (n : ℕ) (s : Bytes) → length s ≤ n → Within n (skip_fill_align s)
unfolding skip_fill_align
skip_fill_align-Within n [] h = h
skip_fill_align-Within n (a ∷ []) h = elim (Bool-cases (is_align_char a)) [
  | inl e ↦ rw e (omega arith)
  | inr e ↦ rw e h
]
skip_fill_align-Within n (a ∷ b ∷ s) h = elim (Bool-cases (is_align_char b)) [
  | inl e ↦ elim (Bool-cases (is_valid_fill a)) [
    | inl f ↦ rw (e, f) (omega arith)
    | inr f ↦ rw (e, f) tt
  ]
  | inr e ↦ elim (Bool-cases (is_align_char a)) [
    | inl f ↦ rw (e, f) (omega arith)
    | inr f ↦ rw (e, f) h
  ]
]

type-Within : (n : ℕ) (s : Bytes) → length s ≤ n → Within n (type_const s)
unfolding type_const
type-Within n [] h = h
type-Within n (c ∷ s) h = elim (Bool-cases (is_type_char c)) [
  | inl e ↦ rw e (omega arith)
  | inr e ↦ elim (Bool-cases (c == close_brace)) [
    | inl f ↦ rw (e, f) h
    | inr f ↦ elim (Bool-cases (is_sign c)) [ inl g ↦ rw (e, f, g) tt | inr g ↦ rw (e, f, g) tt ]
  ]
]

parse_spec_const-Within : (n : ℕ) (s : Bytes) → length s ≤ n → Within n (parse_spec_const s)
unfolding parse_spec_const
parse_spec_const-Within n [] h = tt
parse_spec_const-Within n (c ∷ s) h = until-Within n (c ∷ s) align_const h (λ s h.
    then-Within n _ _ (skip_fill_align-Within n s h) (λ s h. until-Within n s zero_const h (λ s h.
      until-Within n (skip_char 48 s) width_const (omega (arith, skip_char-le 48 s)) (λ s h.
        until-Within n (skip_digits s) precision_const (omega (arith, skip_digits-le s)) (λ s h.
          then-Within n _ _ (skip_precision-Within n s h) (λ s h.
            until-Within n s alternate_const h (λ s h.
              until-Within n (skip_char 35 s) type_const (omega (arith, skip_char-le 35 s))
                (type-Within n))))))))

close-Within : (n : ℕ) (s : Bytes) → length s ≤ n → Within n (close s)
close-Within n [] h = tt
close-Within n (c ∷ s) h = elim (Bool-cases (c == close_brace)) [
  | inl e ↦ rw e (omega arith)
  | inr e ↦ rw e tt
]

pub scan_name-le : (s : Bytes) → length (scan_name s).1 ≤ length s
unfolding scan_name
scan_name-le [] = omega arith
scan_name-le (c ∷ s) = elim (Bool-cases (c == colon || c == close_brace)) [
  | inl e ↦ rw (e, scan_name) (omega arith)
  | inr e ↦ rw (e, scan_name) (omega (arith, scan_name-le s))
]

spec_of-Within : (n : ℕ) (s : Bytes) → length s ≤ n → Within n (spec_of s)
spec_of-Within n [] h = tt
spec_of-Within n (c ∷ s) h = elim (Bool-cases (c == colon)) [
  | inl e ↦
      rw e (then-Within n _ close (parse_spec_const-Within n s (omega arith)) (close-Within n))
  | inr e ↦ rw e (close-Within n (c ∷ s) h)
]

skip_placeholder-Within : (n : ℕ) (s : Bytes) → length s ≤ n → Within n (skip_placeholder s)
unfolding skip_placeholder
skip_placeholder-Within n s h = elim (Bool-cases (is_positional (scan_name s).0)) [
  | inl e ↦ rw e tt
  | inr e ↦ rw e (spec_of-Within n (scan_name s).1 (omega (arith, scan_name-le s)))
]

pub tail_of-le : (s : Bytes) → length (tail_of s) ≤ length s
tail_of-le [] = omega arith
tail_of-le (c ∷ s) = omega arith

abbrev pub Returns {ℓ} : {A : Type ℓ} → Option A → Type ℓ
Returns {A} o = (a : A) × (o ≡ some a)

resume-Returns :
    (n fuel count : ℕ) (r : Checked Bytes)
    → Within n r
    → ((s : Bytes) → length s ≤ n → Returns (validate_loop fuel s count))
    → Returns (resume r (λ s. validate_loop fuel s count))
resume-Returns n fuel count (ok s) h g = g s h
resume-Returns n fuel count (err m) h g = (err m, refl)

validate_loop-Returns :
    (fuel : ℕ) (s : Bytes) (count : ℕ) → length s < fuel → Returns (validate_loop fuel s count)
unfolding validate_loop
validate_loop-Returns zero s count h = absurd (omega arith)
validate_loop-Returns (suc fuel) [] count h = (ok count, refl)
validate_loop-Returns (suc fuel) (c ∷ s) count h = elim (Bool-cases (c == open_brace)) [
  | inl e ↦ elim (Bool-cases (starts_with open_brace s)) [
    | inl f ↦ rw (e, f) (validate_loop-Returns fuel (tail_of s) count (omega (arith, tail_of-le s)))
    | inr f ↦
        rw (e, f)
          (resume-Returns (length s) fuel (suc count) (skip_placeholder s)
            (skip_placeholder-Within (length s) s (omega arith))
            (λ s' h'. validate_loop-Returns fuel s' (suc count) (omega arith)))
  ]
  | inr e ↦ elim (Bool-cases (c == close_brace)) [
    | inl f ↦ elim (Bool-cases (starts_with close_brace s)) [
      | inl g ↦
          rw (e, f, g) (validate_loop-Returns fuel (tail_of s) count (omega (arith, tail_of-le s)))
      | inr g ↦ rw (e, f, g) (err Message.unmatched, refl)
    ]
    | inr f ↦ rw (e, f) (validate_loop-Returns fuel s count (omega arith))
  ]
]

-- validate_fmt returns on every text: its fuel does not run out.
pub validate_fmt-Returns : (fmt : Bytes) → Returns (validate_fmt fmt)
unfolding validate_fmt
validate_fmt-Returns fmt = validate_loop-Returns (suc (length fmt)) fmt 0 (omega arith)
