-- ===== src/Base/Addresses.antt =====
-- Lists of addresses: the registries of shared objects compare by pointer.
use Prim.Native.Nat.{ℕ}
use mathlib.Core.Path.{◌≡◌, refl, ap}
use mathlib.Core.Bool.{Bool, true, false, not, ◌&&◌, ◌||◌}
use mathlib.Core.List.{List, [], ◌∷◌, ◌++◌}
use native.Mathlib.Omega.{arith}
use ticklog.Base.Tests.{◌==◌, if◌then◌else◌, Bool-cases, ==_iff}
use mathlib.Core.Logic.{inl, inr}

-- `iter().any(|r| Arc::ptr_eq(r, a))`
abbrev pub has : List ℕ → ℕ → Bool
has [] a = false
has (x ∷ xs) a = x == a || has xs a

-- `iter().filter` and `retain`
abbrev pub keep_if : (ℕ → Bool) → List ℕ → List ℕ
keep_if p [] = []
keep_if p (x ∷ xs) = let rest = keep_if p xs in if p x then x ∷ rest else rest

abbrev pub distinct : List ℕ → Bool
distinct [] = true
distinct (x ∷ xs) = not (has xs x) && distinct xs

pub has-append : (xs ys : List ℕ) (a : ℕ) → has (xs ++ ys) a ≡ (has xs a || has ys a)
has-append [] ys a = refl
has-append (x ∷ xs) ys a = ground (arith, has-append xs ys a)

pub has-keep_if : (p : ℕ → Bool) (xs : List ℕ) (a : ℕ) → has (keep_if p xs) a ≡ (has xs a && p a)
has-keep_if p [] a = refl
has-keep_if p (x ∷ xs) a = elim (Bool-cases (x == a)) [
  | inl e ↦ ground (arith, has-keep_if p xs a, ap p ((==_iff x a).0 e))
  | inr e ↦ ground (arith, has-keep_if p xs a)
]

pub distinct-keep_if :
    (p : ℕ → Bool) (xs : List ℕ) → distinct xs ≡ true → distinct (keep_if p xs) ≡ true
distinct-keep_if p [] h = refl
distinct-keep_if p (x ∷ xs) h = ground (arith, distinct-keep_if p xs, has-keep_if p xs x)

pub distinct-snoc :
    (xs : List ℕ) (a : ℕ) → distinct xs ≡ true → has xs a ≡ false → distinct (xs ++ a ∷ []) ≡ true
distinct-snoc [] a h n = refl
distinct-snoc (x ∷ xs) a h n = ground (arith, distinct-snoc xs a, has-append xs (a ∷ []) x)
