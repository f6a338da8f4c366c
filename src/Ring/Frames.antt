-- ===== src/Ring/Frames.antt =====
-- What the bytes between two ring positions say: the records that stand there, in order.
use ticklog.Base.{
  refl, ℕ, ◌+◌, ◌-◌, ◌%◌, ◌≤◌, ◌<◌, ◌≡◌, ◌∙◌, arith, Bytes, List, [], ◌∷◌, ◌++◌, length,
}
use ticklog.Memory.{Memory, read_bytes, read_bytes-congr}
use ticklog.Ring.{version, log_record, end_of_buffer, header_size, max_record_size}
use ticklog.Ring.Align.{slots}
use ticklog.Ring.Modular.{mod-step}
use ticklog.Words.{to_le_bytes}

-- The bytes of a whole record: its prefix names its own length.
pub record IsWire (r : Bytes) : Type 0 where
  pub body : Bytes
  pub shape : r ≡ version ∷ log_record ∷ (to_le_bytes 2 (length r) ++ body)
  pub long : header_size ≤ length r
  pub short : length r ≤ max_record_size

abbrev pub span : ℕ → ℕ → ℕ
span cap p = cap - p % cap

module _ (mem : Memory) (cap : ℕ) where
  -- From position `p` on, up to `q`, the ring holds the records `rs` and fillers at lap ends.
  pub data Frames : ℕ → ℕ → List Bytes → Type 0 where
    done : {p q : ℕ} → p ≡ q → Frames p q []
    wire :
        {p q : ℕ} {r : Bytes} {rs : List Bytes}
        → IsWire r
        → p % cap + slots (length r) ≤ cap
        → read_bytes mem (p % cap) (length r) ≡ r
        → Frames (p + slots (length r)) q rs
        → Frames p q (r ∷ rs)
    filler :
        {p q : ℕ} {rs : List Bytes}
        → header_size ≤ span cap p
        → span cap p ≤ max_record_size
        → slots (span cap p) ≡ span cap p
        → read_bytes mem (p % cap) 4 ≡ version ∷ end_of_buffer ∷ to_le_bytes 2 (span cap p)
        → Frames (p + span cap p) q rs
        → Frames p q rs

module _ {mem : Memory} {cap : ℕ} where
  pub Frames-le : {p q : ℕ} {rs : List Bytes} → Frames mem cap p q rs → p ≤ q
  Frames-le (done e) = omega arith
  Frames-le (wire w fit there rest) = omega (arith, Frames-le rest)
  Frames-le (filler lo hi whole there rest) = omega (arith, Frames-le rest)

  -- No record stands between equal positions.
  pub Frames-nil : {p : ℕ} {rs : List Bytes} → Frames mem cap p p rs → rs ≡ []
  Frames-nil {p} f = at_end f refl
    where
      at_end : {q : ℕ} {ss : List Bytes} → Frames mem cap p q ss → p ≡ q → ss ≡ []
      at_end (done e) h = refl
      at_end (wire w fit there rest) h = absurd (omega (arith, Frames-le rest, w.long))
      at_end (filler lo hi whole there rest) h = absurd (omega (arith, Frames-le rest))

  pub Frames-append :
      {p m q : ℕ} {rs ss : List Bytes}
      → Frames mem cap p m rs
      → Frames mem cap m q ss
      → Frames mem cap p q (rs ++ ss)
  Frames-append (done e) g = rw e g
  Frames-append (wire w fit there rest) g = wire w fit there (Frames-append rest g)
  Frames-append (filler lo hi whole there rest) g = filler lo hi whole there (Frames-append rest g)

-- Only the bytes between the two positions matter.
pub Frames-congr :
    {mem mem' : Memory} {cap p q : ℕ} {rs : List Bytes}
    → 0 < cap
    → ((x : ℕ) → p ≤ x → x < q → mem' (x % cap) ≡ mem (x % cap))
    → Frames mem cap p q rs
    → Frames mem' cap p q rs
Frames-congr pos same (done e) = done e
Frames-congr {mem} {mem'} {cap} {p} {q} pos same (wire {r} w fit there rest) =
    wire w fit (read_bytes-congr mem mem' (p % cap) (length r) agree ∙ there)
      (Frames-congr pos (λ x lo hi. same x (omega arith) hi) rest)
  where
    agree : (i : ℕ) → p % cap ≤ i → i < p % cap + length r → mem' i ≡ mem i
    agree i lo hi =
        let here : (p + (i - p % cap)) % cap ≡ i =
          omega (arith, mod-step cap pos p (i - p % cap) (omega arith)) in
        rw here at (same (p + (i - p % cap)) (omega arith) (omega (arith, Frames-le rest)))
Frames-congr {mem} {mem'} {cap} {p} pos same (filler lo hi whole there rest) =
    filler lo hi whole (read_bytes-congr mem mem' (p % cap) 4 agree ∙ there)
      (Frames-congr pos (λ x l h. same x (omega arith) h) rest)
  where
    agree : (i : ℕ) → p % cap ≤ i → i < p % cap + 4 → mem' i ≡ mem i
    agree i l h =
        let here : (p + (i - p % cap)) % cap ≡ i =
          omega (arith, mod-step cap pos p (i - p % cap) (omega arith)) in
        rw here at (same (p + (i - p % cap)) (omega arith) (omega (arith, Frames-le rest)))
