-- ===== src/Memory.antt =====
-- The bytes behind a ring's base pointer, addressed by offset.
use ticklog.Base.{
  ◌++◌, ℕ, zero, suc, ◌+◌, ◌-◌, ◌≤◌, ◌<◌, ◌≡◌, ◌⊎◌, refl, ap, arith, ◌&&◌, [], ◌∷◌, Bytes, length,
  get_or, ltb, leb, if◌then◌else◌,
}

abbrev pub Memory : Type 0
Memory = ℕ → ℕ

-- `ptr.add(base)` written with `bytes`
unfoldable pub write_bytes : Memory → ℕ → Bytes → Memory
write_bytes mem base bytes i =
    if leb base i && ltb i (base + length bytes) then get_or bytes (i - base) 0 else mem i

-- `from_raw_parts(ptr.add(base), n)`
abbrev pub read_bytes : Memory → ℕ → ℕ → Bytes
read_bytes mem base zero = []
read_bytes mem base (suc n) = mem base ∷ read_bytes mem (base + 1) n

length-read_bytes : (mem : Memory) (base n : ℕ) → length (read_bytes mem base n) ≡ n
length-read_bytes mem base zero = refl
length-read_bytes mem base (suc n) = ap suc (length-read_bytes mem (base + 1) n)

-- Two memories that agree on a range read alike there.
pub read_bytes-congr :
    (mem mem' : Memory) (base n : ℕ)
    → ((i : ℕ) → base ≤ i → i < base + n → mem' i ≡ mem i)
    → read_bytes mem' base n ≡ read_bytes mem base n
read_bytes-congr mem mem' base zero h = refl
read_bytes-congr mem mem' base (suc n) h =
    let here = h base (omega arith) (omega arith) in
    let there = read_bytes-congr mem mem' (base + 1) n (λ i p q. h i (omega arith) (omega arith)) in
    cc (here, there)

pub write_bytes_outside :
    (mem : Memory) (base : ℕ) (bytes : Bytes) (i : ℕ)
    → (i < base) ⊎ (base + length bytes ≤ i)
    → write_bytes mem base bytes i ≡ mem i
unfolding write_bytes
write_bytes_outside mem base bytes i h = ground arith

read_bytes_of_points :
    (mem : Memory) (base : ℕ) (bytes : Bytes)
    → ((i : ℕ) → i < length bytes → mem (base + i) ≡ get_or bytes i 0)
    → read_bytes mem base (length bytes) ≡ bytes
read_bytes_of_points mem base [] h = refl
read_bytes_of_points mem base (x ∷ rest) h =
    let e : base + 0 ≡ base = omega arith in
    let here : mem base ≡ x = rw e at (h 0 (omega arith)) in
    let there = read_bytes_of_points mem (base + 1) rest (λ i p.
      let e' : base + 1 + i ≡ base + suc i = omega arith in rw e' (h (suc i) (omega arith))) in
    cc (here, there)

inside :
    (mem : Memory) (base : ℕ) (bytes : Bytes) (i : ℕ)
    → i < length bytes
    → write_bytes mem base bytes (base + i) ≡ get_or bytes i 0
unfolding write_bytes
inside mem base bytes i h =
    let e : base + i - base ≡ i = omega arith in ground (arith, ap (λ j. get_or bytes j 0) e)

-- What was written is read back.
pub read_bytes-write_bytes :
    (mem : Memory) (base : ℕ) (bytes : Bytes)
    → read_bytes (write_bytes mem base bytes) base (length bytes) ≡ bytes
read_bytes-write_bytes mem base bytes =
    read_bytes_of_points (write_bytes mem base bytes) base bytes (inside mem base bytes)

-- A read in two parts.
pub read_bytes-split :
    (mem : Memory) (base n m : ℕ)
    → read_bytes mem base (n + m) ≡ read_bytes mem base n ++ read_bytes mem (base + n) m
read_bytes-split mem base zero m =
    let e : zero + m ≡ m = omega arith in let b : base + zero ≡ base = omega arith in rw (e, b)
read_bytes-split mem base (suc n) m =
    let e : suc n + m ≡ suc (n + m) = omega arith in
    let b : base + suc n ≡ base + 1 + n = omega arith in
    rw (e, b) (ap (λ t. mem base ∷ t) (read_bytes-split mem (base + 1) n m))
