-- ===== src/ThreadBuf/Name.antt =====
-- The name that a ring is registered under.
use ticklog.Base.{
  ℕ, zero, suc, ◌≤◌, ◌<◌, ◌≡◌, ◌⊎◌, refl, ap, arith, ◌∙◌, Bytes, true, false, length, take,
  length-take, ltb, ◌==◌, ==_iff, Bool-cases, inl, inr,
}
use ticklog.ThreadBuf.{is_char_boundary, boundary_down, truncate_name, max_thread_name_len}

boundary_down_lem :
    (s : Bytes) (n : ℕ)
    → (boundary_down s n ≤ n)
      × (is_char_boundary s (boundary_down s n) ≡ true)
      × ((i : ℕ) → boundary_down s n < i → i ≤ n → is_char_boundary s i ≡ false)
unfolding boundary_down is_char_boundary
boundary_down_lem s zero = (omega arith, refl, λ i p q. absurd (omega arith))
boundary_down_lem s (suc n) =
    let (low, at, none_above) = boundary_down_lem s n in
    elim (Bool-cases (is_char_boundary s (suc n))) [
      | inl e ↦ rw e (omega arith, e, λ i p q. absurd (omega arith))
      | inr e ↦ rw e (
        omega arith,
        at,
        λ i p q. elim (Bool-cases (i == suc n)) [
          | inl top ↦ ap (is_char_boundary s) ((==_iff i (suc n)).0 top) ∙ e
          | inr below ↦ none_above i p (ground arith)
        ],
      )
    ]

-- A name of at most 256 bytes is registered as it is, and a longer one as its first bytes, cut on the
-- last boundary between characters that is not past 256.
truncate_name_lem :
    (name : Bytes)
    → ((length name ≤ max_thread_name_len) × (truncate_name name ≡ name))
      ⊎ ((n : ℕ) × (truncate_name name ≡ take n name)
          × (length (truncate_name name) ≡ n)
          × (n ≤ max_thread_name_len)
          × (is_char_boundary name n ≡ true)
          × ((i : ℕ) → n < i → i ≤ max_thread_name_len → is_char_boundary name i ≡ false))
unfolding truncate_name
truncate_name_lem name = elim (Bool-cases (ltb max_thread_name_len (length name))) [
  | inl e ↦
      let n = boundary_down name max_thread_name_len in
      let (low, at, none_above) = boundary_down_lem name max_thread_name_len in
      inr (n, rw e refl, rw e (length-take n name ∙ ground arith), low, at, none_above)
  | inr e ↦ inl (ground arith, rw e refl)
]
