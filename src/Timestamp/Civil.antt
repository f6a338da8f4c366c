-- ===== src/Timestamp/Civil.antt =====
-- `civil_from_days` finds the Gregorian date.
use ticklog.Base.{
  ℕ, zero, suc, ◌+◌, ◌-◌, ◌*◌, ◌/◌, ◌%◌, ◌^◌, ◌≤◌, ◌<◌, ◌≡◌, refl, arith, Bool, true, false, ◌==◌,
  if◌then◌else◌, not, ltb, leb, ◌&&◌, ◌||◌, ◌⊎◌, inl, inr, Bool-cases, and_left, and_right, ==_iff,
  ap, sym, ◌∙◌,
}
use ticklog.Base.Int.{pos, pos_part, ◌+ℤ◌, ◌-ℤ◌, scale, wrap_signed}
use ticklog.Timestamp.{era_of, civil_from_days, year_of_era, day_of_year, day_of_month, month_of}
use ticklog.Timestamp.Calendar.{
  is_leap, days_in_year, days_of_month, days_before_year, days_before_month, day_number, IsDate,
  days_before_year_closed,
}

abbrev start : ℕ → ℕ
start y = 365 * y + y / 4 - y / 100

-- The year of the era is the one whose days hold the day.
year_of_era_lem :
    (doe : ℕ)
    → doe < 146097
    → let y = year_of_era doe in (y < 400) × (start y ≤ doe) × (doe ≤ start y + 365)
year_of_era_lem doe h = (omega arith, omega arith, omega arith)

abbrev leap_day : ℕ → ℕ
leap_day y = if is_leap y then 1 else 0

-- The leap years up to `y`, by its divisions.
leap_day_lem :
    (y : ℕ)
    → (y + 3) / 4 + (y + 399) / 400 + y / 100 + leap_day y ≡ y / 4 + y / 400 + 1 + (y + 99) / 100
leap_day_lem y = ground arith

year_length : (y : ℕ) → days_in_year y ≡ 365 + leap_day y
year_length y = elim (Bool-cases (is_leap y)) [ inl e ↦ rw e refl | inr e ↦ rw e refl ]

-- Year `y` of era `e` starts on its first of March.
year_start :
    (y e : ℕ)
    → y < 400
    → days_before_year (y + 400 * e) + leap_day (y + 400 * e) ≡ 146097 * e + start y + 1
year_start y e h = omega (arith, days_before_year_closed (y + 400 * e), leap_day_lem (y + 400 * e))

next_year_start :
    (y e : ℕ) → y < 400 → days_before_year (suc (y + 400 * e)) ≡ 146097 * e + start y + 366
unfolding days_before_year
next_year_start y e h = omega (arith, year_start y e h, year_length (y + 400 * e))

-- whether a test holds of the first so many numbers
holds_for : (ℕ → Bool) → ℕ → Bool
holds_for test zero = true
holds_for test (suc m) = holds_for test m && test m

holds_for-at : (test : ℕ → Bool) {m : ℕ} (k : ℕ) → k < m → holds_for test m ≡ true → test k ≡ true
unfolding holds_for
holds_for-at test {m = zero} k small all = absurd (omega arith)
holds_for-at test {m = suc m} k small all = elim (Bool-cases (k == m)) [
  | inl last ↦ ap test ((==_iff k m).0 last) ∙ and_right _ _ all
  | inr before ↦ holds_for-at test {m = m} k (ground arith) (and_left _ _ all)
]

-- Unless the next year is a leap year, the day 365 days after the first of March is in it.
no_last_day : holds_for (λ y. is_leap (y + 1) || year_of_era (start y + 365) == y + 1) 400 ≡ true
unfolding holds_for
no_last_day = refl

is_leap_period : (y e : ℕ) → is_leap (suc (y + 400 * e)) ≡ is_leap (y + 1)
is_leap_period y e =
    let a : suc (y + 400 * e) % 400 ≡ (y + 1) % 400 = omega arith in
    let b : suc (y + 400 * e) % 100 ≡ (y + 1) % 100 = omega arith in
    let c : suc (y + 400 * e) % 4 ≡ (y + 1) % 4 = omega arith in rw (a, b, c)

-- A 366th day from March on ends a leap year's February.
last_day_leap :
    (y doe e : ℕ)
    → y < 400
    → year_of_era doe ≡ y
    → doe ≡ start y + 365
    → is_leap (suc (y + 400 * e)) ≡ true
last_day_leap y doe e h found last =
    is_leap_period y e
    ∙ leap (Bool-cases (is_leap (y + 1))) (holds_for-at _ y h no_last_day)
        (sym (ap year_of_era last) ∙ found)
  where
    leap :
        (is_leap (y + 1) ≡ true) ⊎ (is_leap (y + 1) ≡ false)
        → (is_leap (y + 1) || year_of_era (start y + 365) == y + 1) ≡ true
        → year_of_era (start y + 365) ≡ y
        → is_leap (y + 1) ≡ true
    leap (inl e') t f = e'
    leap (inr e') t f = absurd (omega (arith, (==_iff _ _).0 (rw e' at t)))

-- the date of a day from March on, in the year that it starts in or in the next
abbrev bit : Bool → ℕ
bit leap = if leap then 1 else 0

abbrev is_day : Bool → ℕ → Bool
is_day leap doy =
    ltb 0 (month_of doy)
    && leb (month_of doy) 12
    && ltb 0 (day_of_month doy)
    && leb (day_of_month doy) (days_of_month leap (month_of doy))

abbrev this_year : Bool → ℕ → Bool
this_year leap doy =
    leb (month_of doy) 2
    || (is_day leap doy
        && days_before_month leap (month_of doy - 1) + day_of_month doy == 60 + bit leap + doy)

abbrev next_year : Bool → ℕ → Bool
next_year leap doy =
    ltb 2 (month_of doy)
    || (doy == 365 && not leap)
    || (is_day leap doy
        && days_before_month leap (month_of doy - 1) + day_of_month doy + 305 == doy)

this_year_days : (holds_for (this_year true) 366 ≡ true) × (holds_for (this_year false) 366 ≡ true)
unfolding holds_for days_before_month
this_year_days = (refl, refl)

next_year_days : (holds_for (next_year true) 366 ≡ true) × (holds_for (next_year false) 366 ≡ true)
unfolding holds_for days_before_month
next_year_days = (refl, refl)

in_this_year : (leap : Bool) (doy : ℕ) → doy < 366 → this_year leap doy ≡ true
in_this_year true doy h = holds_for-at (this_year true) doy h this_year_days.0
in_this_year false doy h = holds_for-at (this_year false) doy h this_year_days.1

in_next_year : (leap : Bool) (doy : ℕ) → doy < 366 → next_year leap doy ≡ true
in_next_year true doy h = holds_for-at (next_year true) doy h next_year_days.0
in_next_year false doy h = holds_for-at (next_year false) doy h next_year_days.1

-- The date that is found for day `doe` of era `e`.
abbrev Found : ℕ → ℕ → ℕ → ℕ → ℕ → Type 0
Found e doe y m d = IsDate y m d × (day_number y m d ≡ 146097 * e + doe + 60)

late_facts :
    (m d doy before extra len : ℕ)
    → (leb m 2 || ((ltb 0 m && leb m 12 && ltb 0 d && leb d len) && before + d == 60 + extra + doy))
      ≡ true
    → leb m 2 ≡ false
    → (1 ≤ m) × (m ≤ 12) × (1 ≤ d) × (d ≤ len) × (before + d ≡ 60 + extra + doy)
late_facts m d doy before extra len h late = ground arith

early_facts :
    (leap : Bool) (m d doy before len : ℕ)
    → (ltb 2 m
        || (doy == 365 && not leap)
        || ((ltb 0 m && leb m 12 && ltb 0 d && leb d len) && before + d + 305 == doy))
      ≡ true
    → leb m 2 ≡ true
    → (doy ≡ 365 → leap ≡ true)
    → (1 ≤ m) × (m ≤ 12) × (1 ≤ d) × (d ≤ len) × (before + d + 305 ≡ doy)
early_facts true m d doy before len h early last = ground arith
early_facts false m d doy before len h early last = elim (Bool-cases (doy == 365)) [
  | inl e ↦ absurd (ground (arith, last ((==_iff _ _).0 e)))
  | inr e ↦ ground arith
]

module _ (e doe : ℕ) (h : doe < 146097) where
  abbrev yoe : ℕ
  yoe = year_of_era doe

  abbrev doy : ℕ
  doy = day_of_year doe

  split_day : (doe ≡ start yoe + doy) × (yoe < 400) × (doy < 366)
  split_day = let (small, lo, hi) = year_of_era_lem doe h in split yoe small lo hi
    where
      split :
          (y : ℕ)
          → y < 400
          → start y ≤ doe
          → doe ≤ start y + 365
          → (doe ≡ start y + (doe - start y)) × (y < 400) × (doe - start y < 366)
      split y small lo hi = omega arith

  late-Found :
      leb (month_of doy) 2 ≡ false → Found e doe (yoe + 400 * e) (month_of doy) (day_of_month doy)
  unfolding day_number
  late-Found late =
      finish yoe doy (month_of doy) (day_of_month doy) split_day.0 (year_start yoe e split_day.1)
        (late_facts _ _ _ _ _ _ (in_this_year (is_leap (yoe + 400 * e)) doy split_day.2) late)
    where
      finish :
          (y n m d : ℕ)
          → doe ≡ start y + n
          → days_before_year (y + 400 * e) + leap_day (y + 400 * e) ≡ 146097 * e + start y + 1
          → (1 ≤ m)
            × (m ≤ 12)
            × (1 ≤ d)
            × (d ≤ days_of_month (is_leap (y + 400 * e)) m)
            × (days_before_month (is_leap (y + 400 * e)) (m - 1) + d
                ≡ 60 + bit (is_leap (y + 400 * e)) + n)
          → Found e doe (y + 400 * e) m d
      finish y n m d split begin (m1, m12, d1, dlen, sum) =
          (record { month_in = (m1, m12); day_in = (d1, dlen) }, omega arith)

  early-Found :
      leb (month_of doy) 2 ≡ true
      → Found e doe (suc (yoe + 400 * e)) (month_of doy) (day_of_month doy)
  unfolding day_number
  early-Found early =
      finish yoe doy (month_of doy) (day_of_month doy) split_day.0
        (next_year_start yoe e split_day.1)
        (early_facts (is_leap (suc (yoe + 400 * e))) _ _ _ _ _
          (in_next_year (is_leap (suc (yoe + 400 * e))) doy split_day.2) early
          (λ last.
            last_day_leap yoe doe e split_day.1 refl (split_day.0 ∙ ap (λ n. start yoe + n) last)))
    where
      finish :
          (y n m d : ℕ)
          → doe ≡ start y + n
          → days_before_year (suc (y + 400 * e)) ≡ 146097 * e + start y + 366
          → (1 ≤ m)
            × (m ≤ 12)
            × (1 ≤ d)
            × (d ≤ days_of_month (is_leap (suc (y + 400 * e))) m)
            × (days_before_month (is_leap (suc (y + 400 * e))) (m - 1) + d + 305 ≡ n)
          → Found e doe (suc (y + 400 * e)) m d
      finish y n m d split begin (m1, m12, d1, dlen, sum) =
          (record { month_in = (m1, m12); day_in = (d1, dlen) }, omega arith)

-- The integer steps, where the shifted day is not negative.
shift_back : (z : ℕ) → (pos z -ℤ pos 719468) +ℤ pos 719468 ≡ pos z
shift_back z = ground arith

era_pos : (z : ℕ) → era_of (pos z) ≡ pos (z / 146097)
era_pos z = ground arith

day_of_era : (z : ℕ) → pos_part (pos z -ℤ scale (pos (z / 146097)) 146097) ≡ z % 146097
day_of_era z = ground arith

year_sum : (y e : ℕ) → pos y +ℤ scale (pos e) 400 ≡ pos (y + 400 * e)
year_sum y e = ground arith

wrap_year : (y b : ℕ) → y + b < 2 ^ 31 → wrap_signed 32 (pos y +ℤ pos b) ≡ pos (y + b)
wrap_year y b h = ground arith

-- For z below 2^39, the date that civil_from_days gives for the day z counted from 0000-03-01 is a
-- date of the Gregorian calendar, and its number, counted by the leap rule from 0000-01-01, is z +
-- 60.
pub civil_from_days-day_number :
    (z : ℕ)
    → z < 2 ^ 39
    → (y : ℕ) × (m : ℕ) × (d : ℕ) × (civil_from_days (pos z -ℤ pos 719468) ≡ (pos y, m, d))
      × IsDate y m d
      × (day_number y m d ≡ z + 60)
unfolding civil_from_days
civil_from_days-day_number z h =
    let e : ℕ = z / 146097 in
    let doe : ℕ = z % 146097 in
    let within : doe < 146097 = omega arith in
    let y : ℕ = year_of_era doe + 400 * e in
    let m : ℕ = month_of (day_of_year doe) in
    let d : ℕ = day_of_month (day_of_year doe) in
    let small : year_of_era doe < 400 = (year_of_era_lem doe within).0 in
    elim (Bool-cases (leb m 2)) [
      | inl early ↦
          let (date', number) = early-Found e doe within early in
          (
            suc y,
            m,
            d,
            rw
                (
                  shift_back z,
                  era_pos z,
                  day_of_era z,
                  year_sum (year_of_era doe) e,
                  early,
                  wrap_year y 1 (omega arith),
                )
                (cc (plus_one y)),
            date',
            omega arith,
          )
      | inr late ↦
          let (date', number) = late-Found e doe within late in
          (
            y,
            m,
            d,
            rw
                (
                  shift_back z,
                  era_pos z,
                  day_of_era z,
                  year_sum (year_of_era doe) e,
                  late,
                  wrap_year y 0 (omega arith),
                )
                (cc (plus_zero y)),
            date',
            omega arith,
          )
    ]
  where
    plus_one : (y : ℕ) → y + 1 ≡ suc y
    plus_one y = omega arith

    plus_zero : (y : ℕ) → y + 0 ≡ y
    plus_zero y = omega arith
