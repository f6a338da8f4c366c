-- ===== src/Render/Checked.antt =====
-- What the compile-time checker's answer says of a format string from a position on.
use ticklog.Base.{
  ℕ, zero, suc, ◌≤◌, ◌≡◌, sym, ap, ◌∙◌, arith, Byte, Bytes, Bool, true, false, Option, none, some,
  [], ◌∷◌, length, get_elem?, drop, ◌==◌, ==_iff, Bool-cases, inl, inr,
}
use ticklog.Format.{Checked, ok, err, Checked-cases}
use ticklog.Format.Chars.{open_brace, close_brace}
use ticklog.Format.Check.{validate_loop, starts_with, tail_of, skip_placeholder, resume}
use ticklog.Format.Check.Closed.{Closed, skip_placeholder-Closed}
use ticklog.Format.Check.Closing.{split_close, skip_placeholder-split}

-- What the checker said of the rest of the string.
abbrev pub Accepts : ℕ → Option (Checked ℕ) → Type 0
Accepts m r = r ≡ some (ok m)

abbrev pub accepted : Option (Checked ℕ) → Bool
accepted none = false
accepted (some (ok k)) = true
accepted (some (err msg)) = false

abbrev pub count_of : Option (Checked ℕ) → ℕ
count_of none = 0
count_of (some (ok k)) = k
count_of (some (err msg)) = 0

-- A placeholder that the checker passed.
pub passed_on :
    (fuel n m : ℕ) (s : Bytes)
    → Accepts m (resume (skip_placeholder s) (λ rest. validate_loop fuel rest n))
    → Closed s × Accepts m (validate_loop fuel (split_close s).1 n)
passed_on fuel n m s v = elim (Checked-cases (skip_placeholder s)) [
  | inl (rest, e) ↦ (
    skip_placeholder-Closed s rest e,
    ap (λ t. validate_loop fuel t n) (skip_placeholder-split s rest e)
        ∙ sym (ap (λ r. resume r (λ t. validate_loop fuel t n)) e)
        ∙ v,
  )
  | inr (msg, e) ↦
      absurd
        (ground (arith, ap accepted (sym (ap (λ r. resume r (λ t. validate_loop fuel t n)) e) ∙ v)))
]

-- The count only grows.
pub validate_loop-grows :
    (fuel : ℕ) (s : Bytes) (n m : ℕ) → Accepts m (validate_loop fuel s n) → n ≤ m
unfolding validate_loop
validate_loop-grows zero s n m v = absurd (ground (arith, ap accepted v))
validate_loop-grows (suc fuel) [] n m v = omega (arith, ap count_of v)
validate_loop-grows (suc fuel) (c ∷ s) n m v = elim (Bool-cases (c == open_brace)) [
  | inl e ↦ elim (Bool-cases (starts_with open_brace s)) [
    | inl f ↦ validate_loop-grows fuel (tail_of s) n m (rw (e, f) at v)
    | inr f ↦ omega (
      arith,
      validate_loop-grows fuel (split_close s).1 (suc n) m
          (passed_on fuel (suc n) m s (rw (e, f) at v)).1,
    )
  ]
  | inr e ↦ elim (Bool-cases (c == close_brace)) [
    | inl f ↦ elim (Bool-cases (starts_with close_brace s)) [
      | inl g ↦ validate_loop-grows fuel (tail_of s) n m (rw (e, f, g) at v)
      | inr g ↦ absurd (ground (arith, ap accepted (rw (e, f, g) at v)))
    ]
    | inr f ↦ validate_loop-grows fuel s n m (rw (e, f) at v)
  ]
]

pub starts_with-shape : (b : Byte) (s : Bytes) → starts_with b s ≡ true → s ≡ b ∷ tail_of s
starts_with-shape b [] e = absurd (ground (arith, e))
starts_with-shape b (c ∷ s) e = ap (λ x. x ∷ s) ((==_iff c b).0 e)

pub get_elem?-drop :
    (n : ℕ) (xs ys : Bytes) (y : Byte) → drop n xs ≡ y ∷ ys → get_elem? xs n ≡ some y
get_elem?-drop zero xs ys y e = ap (λ t. get_elem? t 0) e
get_elem?-drop (suc n) [] ys y e = absurd (ground (arith, ap length e))
get_elem?-drop (suc n) (x ∷ xs) ys y e = get_elem?-drop n xs ys y e

pub drop-next : (n : ℕ) (xs ys : Bytes) (y : Byte) → drop n xs ≡ y ∷ ys → drop (suc n) xs ≡ ys
drop-next zero [] ys y e = absurd (ground (arith, ap length e))
drop-next zero (x ∷ xs) ys y e = ap tail_of e
drop-next (suc n) [] ys y e = absurd (ground (arith, ap length e))
drop-next (suc n) (x ∷ xs) ys y e = drop-next n xs ys y e
