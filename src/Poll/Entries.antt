-- ===== src/Poll/Entries.antt =====
-- The drain's list of rings, moved about.
use ticklog.Base.{
  ℕ, ◌+◌, ◌≡◌, refl, ap, arith, ◌∙◌, ◌&&◌, ◌||◌, ◌++◌, Bool, true, false, not, [], ◌∷◌, List,
  length, length-append, ◌==◌, Bool-cases, inl, inr, has, has-append, distinct, distinct-snoc,
  ==_iff,
}
use ticklog.Poll.{Entry, addresses, last_first}
use ticklog.Shared.{Shared}

pub addresses-append : (xs ys : List Entry) → addresses (xs ++ ys) ≡ addresses xs ++ addresses ys
addresses-append [] ys = refl
addresses-append ((a, s) ∷ xs) ys = ap (λ t. a ∷ t) (addresses-append xs ys)

pub has-addresses-append :
    (xs ys : List Entry) (b : ℕ)
    → has (addresses (xs ++ ys)) b ≡ (has (addresses xs) b || has (addresses ys) b)
has-addresses-append xs ys b =
    ap (λ t. has t b) (addresses-append xs ys) ∙ has-append (addresses xs) (addresses ys) b

-- Whether every entry has the serial that its ring has now.
abbrev pub current : Shared → List Entry → Bool
current w [] = true
current w ((a, s) ∷ rest) = s == (w.store a).serial && current w rest

pub current-append :
    (w : Shared) (xs ys : List Entry) → current w (xs ++ ys) ≡ (current w xs && current w ys)
current-append w [] ys = refl
current-append w ((a, s) ∷ xs) ys = ground (arith, current-append w xs ys)

distinct_front : (xs : List ℕ) (a : ℕ) → distinct (xs ++ a ∷ []) ≡ distinct (a ∷ xs)
distinct_front [] a = refl
distinct_front (x ∷ xs) a = ground (arith, distinct_front xs a, has-append xs (a ∷ []) x)

pub length-last_first : (p r : List Entry) → length (last_first p r) ≡ length p + length r
length-last_first p [] = omega arith
length-last_first p (e ∷ []) = omega arith
length-last_first p (e ∷ f ∷ r) =
    omega (arith, length-last_first (p ++ e ∷ []) (f ∷ r), length-append p (e ∷ []))

pub has-last_first :
    (p r : List Entry) (b : ℕ)
    → has (addresses (last_first p r)) b ≡ (has (addresses p) b || has (addresses r) b)
has-last_first p [] b = ground arith
has-last_first p ((a, s) ∷ []) b = ground arith
has-last_first p ((a, s) ∷ f ∷ r) b =
    ground
      (arith, has-last_first (p ++ (a, s) ∷ []) (f ∷ r) b, has-addresses-append p ((a, s) ∷ []) b)

abbrev pub Apart : List Entry → List Entry → Type 0
Apart p r = (b : ℕ) → (has (addresses p) b && has (addresses r) b) ≡ false

-- An entry that moves from the front of the one list to the end of the other.
module _ (p r : List Entry) (a s t : ℕ) (dp : distinct (addresses p) ≡ true)
    (dr : distinct (addresses ((a, s) ∷ r)) ≡ true) (apart : Apart p ((a, s) ∷ r)) where
  pub moved-distinct : distinct (addresses (p ++ (a, t) ∷ [])) ≡ true
  moved-distinct =
      ap distinct (addresses-append p ((a, t) ∷ []))
      ∙ distinct-snoc (addresses p) a dp (ground (arith, apart a))

  pub moved-Apart : Apart (p ++ (a, t) ∷ []) r
  moved-Apart b = elim (Bool-cases (a == b)) [
    | inl e ↦
        let n : has (addresses r) a ≡ false = ground arith in
        ground
          (arith, has-addresses-append p ((a, t) ∷ []) b, ap (has (addresses r)) ((==_iff a b).0 e))
    | inr e ↦ ground (arith, has-addresses-append p ((a, t) ∷ []) b, apart b)
  ]

pub distinct-last_first :
    (p r : List Entry)
    → distinct (addresses p) ≡ true
    → distinct (addresses r) ≡ true
    → Apart p r
    → distinct (addresses (last_first p r)) ≡ true
distinct-last_first p [] dp dr apart = dp
distinct-last_first p ((a, s) ∷ []) dp dr apart = ground (arith, apart a)
distinct-last_first p ((a, s) ∷ f ∷ r) dp dr apart =
    distinct-last_first (p ++ (a, s) ∷ []) (f ∷ r) (moved-distinct p (f ∷ r) a s s dp dr apart)
      (ground arith) (moved-Apart p (f ∷ r) a s s dp dr apart)

pub kept :
    (same hp hp' hr st : Bool)
    → hp' ≡ (hp || (same || false))
    → (same ≡ true → st ≡ true)
    → (hp' || (hr && st)) ≡ (hp || ((same || hr) && st))
kept true hp hp' hr st e f = ground (arith, f refl)
kept false hp hp' hr st e f = ground arith

pub gone :
    (same hp hr hr' st : Bool)
    → hr' ≡ hr
    → (same ≡ true → st ≡ false)
    → (hp || (hr' && st)) ≡ (hp || ((same || hr) && st))
gone true hp hr hr' st e f = ground (arith, f refl)
gone false hp hr hr' st e f = ground arith

pub known :
    (same hp hx st : Bool)
    → (same ≡ true → (st && not hp) ≡ false)
    → (hp || (hx && st)) ≡ (hp || ((same || hx) && st))
known true hp hx st f = ground (arith, f refl)
known false hp hx st f = ground arith
