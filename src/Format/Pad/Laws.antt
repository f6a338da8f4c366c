-- ===== src/Format/Pad/Laws.antt =====
-- The width and the precision of a printed value.
use ticklog.Base.{
  ℕ, ◌+◌, ◌-◌, ◌/◌, ◌≤◌, ◌≡◌, ◌⊎◌, refl, ap, arith, Byte, Bytes, Option, none, some, ◌++◌, length,
  take, drop, replicate, length-append, length-replicate, length-take, length-drop, append-nil, max,
  ltb, leb, Bool-cases, inl, inr,
}
use ticklog.Format.{FormatSpec, Align}
use ticklog.Format.Pad.{
  width_of, fill_of, align_for, padded, format_with_spec, zero_pad, with_precision, radix_prefix,
  format_unsigned_impl,
}

-- how the padding is shared out between the sides
abbrev pub Side : Align → ℕ → ℕ → Type 0
Side Align.none l r = l ≡ 0
Side Align.left l r = l ≡ 0
Side Align.right l r = r ≡ 0
Side Align.center l r = (l ≤ r) × (r ≤ l + 1)

-- the value with `l` fill bytes before it and `r` behind it
abbrev pub between : ℕ → ℕ → Byte → Bytes → Bytes
between l r fill v = replicate l fill ++ (v ++ replicate r fill)

padded-between :
    (a : Align) (fill : Byte) (n : ℕ) (v : Bytes)
    → (l : ℕ) × (r : ℕ) × (padded a fill n v ≡ between l r fill v) × (l + r ≡ n) × Side a l r
unfolding padded
padded-between Align.none fill n v = (0, n, refl, omega arith, refl)
padded-between Align.left fill n v = (0, n, refl, omega arith, refl)
padded-between Align.right fill n v = (n, 0, rw append-nil refl, omega arith, refl)
padded-between Align.center fill n v =
    (n / 2, n - n / 2, refl, omega arith, (omega arith, omega arith))

-- What format_with_spec appends is the value between fill bytes of the spec, as many as the width
-- lacks: behind the value for left and no alignment, before it for right, on both sides for center
-- with the odd one behind.
pub format_with_spec-pads :
    (v : Bytes) (spec : FormatSpec) (buf : Bytes)
    → (l : ℕ) × (r : ℕ) × (format_with_spec v spec buf ≡ buf ++ between l r (fill_of spec) v)
      × (l + r ≡ width_of spec - length v)
      × ((width_of spec ≤ length v) ⊎ Side (align_for spec) l r)
unfolding format_with_spec
format_with_spec-pads v spec buf = elim (Bool-cases (leb (width_of spec) (length v))) [
  | inl e ↦ (0, 0, rw (e, append-nil) refl, ground arith, inl (ground arith))
  | inr e ↦
      let (l, r, p, s, side) =
        padded-between (align_for spec) (fill_of spec) (width_of spec - length v) v in
      (l, r, rw (e, p) refl, s, inr side)
]

length-between :
    (l r : ℕ) (fill : Byte) (v : Bytes) → length (between l r fill v) ≡ l + (length v + r)
length-between l r fill v = omega (
  arith,
  length-append (replicate l fill) (v ++ replicate r fill),
  length-append v (replicate r fill),
  length-replicate l fill,
  length-replicate r fill,
)

length-format_with_spec :
    (v : Bytes) (spec : FormatSpec) (buf : Bytes)
    → length (format_with_spec v spec buf) ≡ length buf + max (width_of spec) (length v)
length-format_with_spec v spec buf =
    let (l, r, e, s, side) = format_with_spec-pads v spec buf in
    omega (
      arith,
      lengths l r e,
      length-append buf (between l r (fill_of spec) v),
      length-between l r (fill_of spec) v,
    )
  where
    lengths :
        (l r : ℕ)
        → format_with_spec v spec buf ≡ buf ++ between l r (fill_of spec) v
        → length (format_with_spec v spec buf) ≡ length (buf ++ between l r (fill_of spec) v)
    lengths l r e = ap length e

length-zero_pad :
    (k p : ℕ) (s : Bytes) → k ≤ length s → length (zero_pad k p s) ≡ max (k + p) (length s)
unfolding zero_pad
length-zero_pad k p s h =
    let zero_char : Byte = 48 in
    elim (Bool-cases (ltb (length s - k) p)) [
      | inl e ↦ rw e (
          ground (
            arith,
            length-append (take k s) (replicate (p - (length s - k)) zero_char ++ drop k s),
            length-append (replicate (p - (length s - k)) zero_char) (drop k s),
            length-replicate (p - (length s - k)) zero_char,
            length-take k s,
            length-drop k s,
          ))
      | inr e ↦ rw e (ground arith)
    ]

-- the digits that the precision asks for, with the prefix
abbrev pub asked : ℕ → Option ℕ → ℕ
asked k none = 0
asked k (some p) = k + p

length-with_precision :
    (k : ℕ) (o : Option ℕ) (s : Bytes)
    → k ≤ length s
    → length (with_precision k o s) ≡ max (asked k o) (length s)
length-with_precision k none s h = omega arith
length-with_precision k (some p) s h = length-zero_pad k p s h

-- An unsigned number takes up as many bytes as the largest of its width, its prefix with the digits
-- that the precision asks for, and its own text, which is at least as long as the prefix.
length-format_unsigned_impl :
    (printed : Bytes) (spec : FormatSpec) (buf : Bytes)
    → radix_prefix spec ≤ length printed
    → length (format_unsigned_impl printed spec buf)
      ≡ length buf
        + max (width_of spec) (max (asked (radix_prefix spec) spec.precision) (length printed))
unfolding format_unsigned_impl
length-format_unsigned_impl printed spec buf h =
    let k = radix_prefix spec in
    omega (
      arith,
      length-format_with_spec (with_precision k spec.precision printed) spec buf,
      length-with_precision k spec.precision printed h,
    )
