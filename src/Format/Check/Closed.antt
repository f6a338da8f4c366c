-- ===== src/Format/Check/Closed.antt =====
-- A placeholder that the compile-time checker accepts has its closing brace.
use ticklog.Base.{
  ◌≡◌, ◌≢◌, ◌⊎◌, sym, ap, ◌∙◌, arith, Bytes, Bool, true, false, [], ◌∷◌, ◌++◌, ◌==◌, ◌||◌,
  if◌then◌else◌, ==_iff, Bool-cases, inl, inr,
}
use ticklog.Format.{ok, err, and_then, Message}
use ticklog.Format.Chars.{close_brace, colon}
use ticklog.Format.Check.{
  parse_spec_const, scan_name, is_positional, spec_of, skip_placeholder, close,
}
use ticklog.Format.Check.Agree.{NoClose, not_close}
use ticklog.Format.Check.Closing.{unclosed_spec, err-ne, split_close}

-- what the text is when its first closing brace ends `body`
abbrev pub Closed : Bytes → Type 0
Closed s = (s ≡ (split_close s).0 ++ close_brace ∷ (split_close s).1) × NoClose (split_close s).0

split_close-Closed : (s : Bytes) → NoClose s ⊎ Closed s
unfolding split_close
split_close-Closed [] = inl tt
split_close-Closed (c ∷ s) = elim (Bool-cases (c == close_brace)) [
  | inl e ↦ inr (rw (e, split_close) (ap (λ b. b ∷ s) ((==_iff c close_brace).0 e), tt))
  | inr e ↦
      let ne : c ≢ close_brace = λ h. ground (arith, (==_iff c close_brace).1 h) in
      elim (split_close-Closed s) [
        | inl n ↦ inl (ne, n)
        | inr (shape, n) ↦ inr (rw (e, split_close) (ap (λ x. c ∷ x) shape, (ne, n)))
      ]
]

scan_name-NoClose : (s : Bytes) → NoClose s → NoClose (scan_name s).1
unfolding scan_name
scan_name-NoClose [] n = tt
scan_name-NoClose (c ∷ s) n = elim (Bool-cases (c == colon || c == close_brace)) [
  | inl e ↦ rw (e, NoClose) n
  | inr e ↦ rw (e, NoClose) (scan_name-NoClose s n.1)
]

spec_of-NoClose : (s rest : Bytes) → NoClose s → spec_of s ≢ ok rest
spec_of-NoClose [] rest n e = err-ne e
spec_of-NoClose (c ∷ t) rest n e = elim (Bool-cases (c == colon)) [
  | inl h ↦
      unclosed_spec t rest n.1
        (sym (ap (λ b. if b then and_then (parse_spec_const t) close else close (c ∷ t)) h) ∙ e)
  | inr h ↦ err-ne (
      sym (ap (λ b. if b then ok t else err Message.trailing) (not_close c n.0))
      ∙ sym (ap (λ b. if b then and_then (parse_spec_const t) close else close (c ∷ t)) h)
      ∙ e)
]

pub skip_placeholder-Closed : (s rest : Bytes) → skip_placeholder s ≡ ok rest → Closed s
unfolding skip_placeholder
skip_placeholder-Closed s rest e = elim (split_close-Closed s) [
  | inr c ↦ c
  | inl n ↦ absurd (refuse (is_positional (scan_name s).0) e n)
]
  where
    refuse :
        (positional : Bool)
        → (if positional then err Message.positional else spec_of (scan_name s).1) ≡ ok rest
        → NoClose s
        → ⊥
    refuse true h n = err-ne h
    refuse false h n = spec_of-NoClose (scan_name s).1 rest (scan_name-NoClose s n) h
