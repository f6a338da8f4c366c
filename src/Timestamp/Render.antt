-- ===== src/Timestamp/Render.antt =====
-- The time of day, and the shape of a rendered time.
use ticklog.Base.{
  ℕ, zero, suc, ◌+◌, ◌-◌, ◌*◌, ◌/◌, ◌%◌, ◌^◌, ◌<◌, ◌≡◌, refl, ap, ◌∙◌, arith, Byte, Bytes, [], ◌∷◌,
  ◌++◌, length, length-append, ◌==◌, if◌then◌else◌, Bool-cases, inl, inr,
}
use ticklog.Base.Int.{ℤ, pos_part, neg_part}
use native.Mathlib.Nat.{pow-suc}
use ticklog.Timestamp.{time_from_ns, ns_per_day, push_digits, zone_suffix, format_iso8601}

-- Within a day the four parts are in range and make up the time.
time_from_ns_lem :
    (ns : ℕ)
    → ns < ns_per_day
    → let (h, m, s, n) = time_from_ns ns in
      (h < 24)
      × (m < 60)
      × (s < 60)
      × (n < 1000000000)
      × (((h * 60 + m) * 60 + s) * 1000000000 + n ≡ ns)
unfolding time_from_ns
time_from_ns_lem ns h = (omega arith, omega arith, omega arith, omega arith, omega arith)

pub length-push_digits : (digits v : ℕ) → length (push_digits digits v) ≡ digits
unfolding push_digits
length-push_digits zero v = refl
length-push_digits (suc digits) v = omega (
  arith,
  length-append (push_digits digits (v / 10)) ((48 + v % 10) ∷ []),
  length-push_digits digits (v / 10),
)

-- Reading decimal digits, most significant first.
abbrev pub read_digits : ℕ → Bytes → ℕ
read_digits v [] = v
read_digits v (c ∷ s) = read_digits (v * 10 + (c - 48)) s

read_digits-append :
    (v : ℕ) (s : Bytes) (c : Byte) → read_digits v (s ++ c ∷ []) ≡ read_digits v s * 10 + (c - 48)
read_digits-append v [] c = refl
read_digits-append v (a ∷ s) c = read_digits-append (v * 10 + (a - 48)) s c

-- A number with at most that many digits is read back from them.
pub read_digits-push_digits :
    (digits v : ℕ) → v < 10 ^ digits → read_digits 0 (push_digits digits v) ≡ v
unfolding push_digits
read_digits-push_digits zero v h = omega arith
read_digits-push_digits (suc digits) v h =
    let p : ℕ = 10 ^ digits in
    let e : 10 ^ suc digits ≡ 10 * p = omega (arith, pow-suc 10 digits) in
    omega (
      arith,
      read_digits-append 0 (push_digits digits (v / 10)) (48 + v % 10),
      read_digits-push_digits digits (v / 10) (omega arith),
    )

abbrev pub zone_width : ℤ → ℕ
zone_width offset = if pos_part offset + neg_part offset == 0 then 1 else 6

length-zone_suffix : (offset : ℤ) → length (zone_suffix offset) ≡ zone_width offset
unfolding zone_suffix push_digits
length-zone_suffix offset = elim (Bool-cases (pos_part offset + neg_part offset == 0)) [
  | inl e ↦ rw e refl
  | inr e ↦ rw e refl
]

length-field :
    (digits v : ℕ) (rest : Bytes) → length (push_digits digits v ++ rest) ≡ digits + length rest
length-field digits v rest =
    length-append (push_digits digits v) rest
    ∙ ap (λ n. n + length rest) (length-push_digits digits v)

length-fields :
    (y m d h mi s n : ℕ) (zone : Bytes)
    → length (
        push_digits 4 y
        ++ 45
          ∷ (push_digits 2 m
              ++ 45
                ∷ (push_digits 2 d
                    ++ 84
                      ∷ (push_digits 2 h
                          ++ 58
                            ∷ (push_digits 2 mi
                                ++ 58 ∷ (push_digits 2 s ++ 46 ∷ (push_digits 9 n ++ zone)))))))
      ≡ 29 + length zone
length-fields y m d h mi s n zone =
    let t6 = push_digits 2 s ++ 46 ∷ (push_digits 9 n ++ zone) in
    let t5 = push_digits 2 mi ++ 58 ∷ t6 in
    let t4 = push_digits 2 h ++ 58 ∷ t5 in
    let t3 = push_digits 2 d ++ 84 ∷ t4 in
    let t2 = push_digits 2 m ++ 45 ∷ t3 in
    omega (
      arith,
      length-field 4 y (45 ∷ t2),
      length-field 2 m (45 ∷ t3),
      length-field 2 d (84 ∷ t4),
      length-field 2 h (58 ∷ t5),
      length-field 2 mi (58 ∷ t6),
      length-field 2 s (46 ∷ (push_digits 9 n ++ zone)),
      length-field 9 n zone,
    )

-- A rendered time is 29 bytes long and the zone, which is `Z` for no offset and six bytes else.
length-format_iso8601 :
    (ns : ℕ) (offset : ℤ) (buf : Bytes)
    → length (format_iso8601 ns offset buf) ≡ length buf + (29 + zone_width offset)
unfolding format_iso8601
length-format_iso8601 ns offset buf =
    length-append buf _
    ∙ ap (λ n. length buf + n)
        (length-fields _ _ _ _ _ _ _ (zone_suffix offset)
          ∙ ap (λ n. 29 + n) (length-zone_suffix offset))
