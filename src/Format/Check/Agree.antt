-- ===== src/Format/Check/Agree.antt =====
-- The compile-time checker of a spec and the one for line patterns agree.
use ticklog.Base.{
  ◌≡◌, ◌≢◌, refl, ap, ◌∙◌, arith, Byte, Bytes, false, [], ◌∷◌, ◌++◌, ◌==◌, Bool-cases, inl, inr,
}
use ticklog.Format.{Checked, ok, err, and_then}
use ticklog.Format.Chars.{
  close_brace, is_type_char, is_sign, is_digit, is_align_char, is_valid_fill, skip_fill_align,
  skip_char, skip_digits, skip_precision, expect_digits,
}
use ticklog.Format.Check.{
  until_close, type_const, zero_const, width_const, precision_const, alternate_const,
  parse_spec_const, until_end, type_rt, zero_rt, width_rt, precision_rt, alternate_rt, at_end,
  validate_spec_rt, close,
}

-- no closing brace among the bytes
abbrev pub NoClose : Bytes → Type 0
NoClose [] = Unit {0}
NoClose (c ∷ s) = (c ≢ close_brace) × NoClose s

-- The two results say the same, where `tail` is what follows the closing brace.
abbrev Same : Bytes → Checked Bytes → Checked (Unit {0}) → Type 0
Same tail a b = and_then a close ≡ and_then b (λ _. ok tail)

pub not_close : (c : Byte) → c ≢ close_brace → (c == close_brace) ≡ false
not_close c h = ground arith

module _ (tail : Bytes) where
  abbrev closed : Bytes → Bytes
  closed s = s ++ close_brace ∷ tail

  abbrev bytes_of : Bytes → Checked Bytes → Bytes
  bytes_of d (ok s) = s
  bytes_of d (err m) = d

  -- how a part of the spec is skipped with the closing brace behind it, and alone
  abbrev pub Stage : Checked Bytes → Checked Bytes → Type 0
  Stage a (ok s) = (a ≡ ok (closed s)) × NoClose s
  Stage a (err m) = a ≡ err m

  until-Same :
      (s : Bytes) (f : Bytes → Checked Bytes) (g : Bytes → Checked (Unit {0}))
      → NoClose s
      → ((c : Byte) (s' : Bytes) → NoClose (c ∷ s') → Same tail (f (closed (c ∷ s'))) (g (c ∷ s')))
      → Same tail (until_close (closed s) f) (until_end s g)
  until-Same [] f g n h = refl
  until-Same (c ∷ s) f g (nc, n) h = rw (not_close c nc) (h c s (nc, n))

  pub skip_char-Stage :
      (b : Byte) (s : Bytes)
      → b ≢ close_brace
      → NoClose s
      → Stage (ok (skip_char b (closed s))) (ok (skip_char b s))
  unfolding skip_char
  skip_char-Stage b [] ne n =
      let far : (close_brace == b) ≡ false = ground arith in rw far (refl, tt)
  skip_char-Stage b (c ∷ s) ne n = elim (Bool-cases (c == b)) [
    | inl e ↦ rw e (refl, n.1)
    | inr e ↦ rw e (refl, n)
  ]

  pub skip_digits-Stage :
      (s : Bytes) → NoClose s → Stage (ok (skip_digits (closed s))) (ok (skip_digits s))
  unfolding skip_digits
  skip_digits-Stage [] n = (refl, tt)
  skip_digits-Stage (c ∷ s) n = elim (Bool-cases (is_digit c)) [
    | inl e ↦ rw (e, skip_digits) (skip_digits-Stage s n.1)
    | inr e ↦ rw (e, skip_digits) (refl, n)
  ]

  expect_digits-Stage : (s : Bytes) → NoClose s → Stage (expect_digits (closed s)) (expect_digits s)
  expect_digits-Stage [] n = refl
  expect_digits-Stage (c ∷ s) n = elim (Bool-cases (is_digit c)) [
    | inl e ↦ rw e (skip_digits-Stage s n.1)
    | inr e ↦ rw e refl
  ]

  pub skip_precision-Stage :
      (s : Bytes) → NoClose s → Stage (skip_precision (closed s)) (skip_precision s)
  unfolding skip_precision
  skip_precision-Stage [] n = (refl, tt)
  skip_precision-Stage (c ∷ s) n = elim (Bool-cases (c == 46)) [
    | inl e ↦ rw e (expect_digits-Stage s n.1)
    | inr e ↦ rw e (refl, n)
  ]

  pub skip_fill_align-Stage :
      (c : Byte) (s : Bytes)
      → NoClose (c ∷ s)
      → Stage (skip_fill_align (closed (c ∷ s))) (skip_fill_align (c ∷ s))
  unfolding skip_fill_align is_align_char
  skip_fill_align-Stage c [] n = elim (Bool-cases (is_align_char c)) [
    | inl e ↦ rw e (refl, tt)
    | inr e ↦ rw e (refl, n)
  ]
  skip_fill_align-Stage c (d ∷ s) n = elim (Bool-cases (is_align_char d)) [
    | inl e ↦ elim (Bool-cases (is_valid_fill c)) [
      | inl v ↦ rw (e, v) (refl, n.1.1)
      | inr v ↦ rw (e, v) refl
    ]
    | inr e ↦ elim (Bool-cases (is_align_char c)) [
      | inl v ↦ rw (e, v) (refl, n.1)
      | inr v ↦ rw (e, v) (refl, n)
    ]
  ]

  end-Same : (s : Bytes) → NoClose s → Same tail (ok (closed s)) (at_end s)
  end-Same [] n = refl
  end-Same (c ∷ s) n = rw (not_close c n.0) refl

  type-Same :
      (c : Byte) (s : Bytes)
      → NoClose (c ∷ s)
      → Same tail (type_const (closed (c ∷ s))) (type_rt (c ∷ s))
  unfolding type_const type_rt
  type-Same c s n = elim (Bool-cases (is_type_char c)) [
    | inl e ↦ rw e (end-Same s n.1)
    | inr e ↦ elim (Bool-cases (is_sign c)) [
      | inl v ↦ rw (e, not_close c n.0, v) refl
      | inr v ↦ rw (e, not_close c n.0, v) refl
    ]
  ]

  -- A part that may fail, then what follows it.
  then-Same :
      (a b : Checked Bytes) (f : Bytes → Checked Bytes) (g : Bytes → Checked (Unit {0}))
      → Stage a b
      → ((s : Bytes) → NoClose s → Same tail (f (closed s)) (g s))
      → Same tail (and_then a f) (and_then b g)
  then-Same a (ok s) f g (e, n) h = rw e (h s n)
  then-Same a (err m) f g e h = rw e refl

  -- A part that cannot fail, then the test for the end, then what follows it.
  next-Same :
      (a b : Bytes) (f : Bytes → Checked Bytes) (g : Bytes → Checked (Unit {0}))
      → Stage (ok a) (ok b)
      → ((c : Byte) (s : Bytes) → NoClose (c ∷ s) → Same tail (f (closed (c ∷ s))) (g (c ∷ s)))
      → Same tail (until_close a f) (until_end b g)
  next-Same a b f g (e, n) h =
      ap (λ r. and_then (until_close (bytes_of a r) f) close) e ∙ until-Same b f g n h

-- On a spec without a closing brace, parse_spec_const with the closing brace that must follow and
-- validate_spec_rt on the spec alone both accept, the former stopping just behind the brace, or
-- both reject with the same message.
pub parse_spec_const_agrees :
    (s tail : Bytes)
    → NoClose s
    → and_then (parse_spec_const (s ++ close_brace ∷ tail)) close
      ≡ and_then (validate_spec_rt s) (λ _. ok tail)
unfolding parse_spec_const validate_spec_rt
parse_spec_const_agrees [] tail n = refl
parse_spec_const_agrees (c ∷ s) tail n = rw (not_close c n.0) (
    then-Same tail _ _ (λ s. until_close s zero_const) (λ s. until_end s zero_rt)
      (skip_fill_align-Stage tail c s n)
      (λ s n. until-Same tail s zero_const zero_rt n (λ c s n.
        next-Same tail _ _ width_const width_rt (skip_char-Stage tail 48 (c ∷ s) (omega arith) n)
          (λ c s n.
            next-Same tail _ _ precision_const precision_rt (skip_digits-Stage tail (c ∷ s) n)
              (λ c s n.
                then-Same tail _ _ (λ s. until_close s alternate_const)
                  (λ s. until_end s alternate_rt) (skip_precision-Stage tail (c ∷ s) n)
                  (λ s n. until-Same tail s alternate_const alternate_rt n (λ c s n.
                    next-Same tail _ _ type_const type_rt
                      (skip_char-Stage tail 35 (c ∷ s) (omega arith) n) (type-Same tail))))))))
