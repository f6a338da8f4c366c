-- ===== src/ThreadBuf/Slot/Number.antt =====
-- A thread's number, read from what `Debug` prints.
use ticklog.Base.{
  ℕ, zero, suc, ◌<◌, ◌≤◌, ◌≡◌, ◌+◌, ◌*◌, ◌-◌, ◌/◌, ◌%◌, ◌^◌, refl, arith, Byte, Bytes, [], ◌∷◌,
  ◌++◌, some, length, ==_iff,
}
use ticklog.Base.Text.{ascii}
use ticklog.ThreadBuf.Slot.{
  strip_prefix, strip_suffix, parse_digits, parse_u64, get_stable_thread_id,
}
use ticklog.Timestamp.{push_digits}
use ticklog.Timestamp.Render.{read_digits, read_digits-push_digits, length-push_digits}
use ticklog.Words.{u64_mod}

strip_prefix-append : (p s : Bytes) → strip_prefix p (p ++ s) ≡ some s
unfolding strip_prefix
strip_prefix-append [] s = refl
strip_prefix-append (c ∷ p) s = rw ((==_iff c c).1 refl) (strip_prefix-append p s)

strip_suffix-append : (b : Byte) (s : Bytes) → strip_suffix b (s ++ b ∷ []) ≡ some s
unfolding strip_suffix
strip_suffix-append b [] = rw ((==_iff b b).1 refl) refl
strip_suffix-append b (c ∷ []) = rw (strip_suffix-append b []) refl
strip_suffix-append b (c ∷ d ∷ s) = rw (strip_suffix-append b (d ∷ s)) refl

abbrev AllDigits : Bytes → Type 0
AllDigits [] = Unit {0}
AllDigits (c ∷ s) = (48 ≤ c) × (c ≤ 57) × AllDigits s

AllDigits-snoc : (s : Bytes) (c : Byte) → AllDigits s → 48 ≤ c → c ≤ 57 → AllDigits (s ++ c ∷ [])
AllDigits-snoc [] c v h k = (h, k, tt)
AllDigits-snoc (a ∷ s) c (x, y, v) h k = (x, y, AllDigits-snoc s c v h k)

push_digits-AllDigits : (digits v : ℕ) → AllDigits (push_digits digits v)
unfolding push_digits
push_digits-AllDigits zero v = tt
push_digits-AllDigits (suc digits) v =
    AllDigits-snoc (push_digits digits (v / 10)) (48 + v % 10)
      (push_digits-AllDigits digits (v / 10)) (omega arith) (omega arith)

read_digits-grows : (v : ℕ) (s : Bytes) → v ≤ read_digits v s
read_digits-grows v [] = omega arith
read_digits-grows v (c ∷ s) = omega (arith, read_digits-grows (v * 10 + (c - 48)) s)

parse_digits-read_digits :
    (v : ℕ) (s : Bytes)
    → AllDigits s
    → read_digits v s < u64_mod
    → parse_digits v s ≡ some (read_digits v s)
unfolding parse_digits
parse_digits-read_digits v [] d h = refl
parse_digits-read_digits v (c ∷ s) (x, y, d) h = ground (
  arith,
  parse_digits-read_digits (v * 10 + (c - 48)) s d h,
  read_digits-grows (v * 10 + (c - 48)) s,
)

parse_u64-read_digits :
    (s : Bytes)
    → 0 < length s
    → AllDigits s
    → read_digits 0 s < u64_mod
    → parse_u64 s ≡ some (read_digits 0 s)
unfolding parse_u64
parse_u64-read_digits [] n d h = absurd (omega arith)
parse_u64-read_digits (c ∷ s) n (x, y, d) h =
    ground (arith, parse_digits-read_digits 0 (c ∷ s) (x, y, d) h)

-- A number below 2^64, printed in one or more decimal digits between `ThreadId(` and `)`, is read back.
get_stable_thread_id_lem :
    (digits n : ℕ)
    → n < 10 ^ suc digits
    → n < u64_mod
    → get_stable_thread_id (ascii "ThreadId(" ++ (push_digits (suc digits) n ++ 41 ∷ [])) ≡ n
unfolding get_stable_thread_id
get_stable_thread_id_lem digits n h word =
    let printed = push_digits (suc digits) n in
    let value = read_digits-push_digits (suc digits) n h in
    rw
      (
        strip_prefix-append (ascii "ThreadId(") (printed ++ 41 ∷ []),
        strip_suffix-append 41 printed,
        parse_u64-read_digits printed (omega (arith, length-push_digits (suc digits) n))
            (push_digits-AllDigits (suc digits) n) (omega (arith, value, word)),
      )
      value
