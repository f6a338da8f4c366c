-- ===== src/Ring/Write.antt =====
-- Writing into the free part of a ring: what stood there stays, and what is written is a frame.
use native.Mathlib.Nat.{mod-lt, div-add-mod'}
use ticklog.Base.{
  ℕ, ◌+◌, ◌-◌, ◌*◌, ◌/◌, ◌%◌, ◌≤◌, ◌<◌, ◌≡◌, refl, ap, arith, inl, inr, Bytes, List, [], ◌∷◌,
  length,
}
use native.Mathlib.Decide.{dec_lt, dec_le}
use ticklog.Memory.{Memory, write_bytes, write_bytes_outside, read_bytes-write_bytes}
use ticklog.Ring.{version, end_of_buffer, max_record_size, write_eob}
use ticklog.Ring.Align.{slots}
use ticklog.Ring.Frames.{IsWire, span, Frames, done, wire, filler, Frames-congr}
use ticklog.Ring.Modular.{mod-step, mod-ne}
use ticklog.Words.{to_le_bytes}

-- A write behind `q` that stays within a lap of `p` leaves the frames from `p` to `q` alone.
pub Frames-write_bytes :
    (mem : Memory) (cap p q pos : ℕ) {rs : List Bytes} (bytes : Bytes)
    → 0 < cap
    → q ≤ pos
    → pos + length bytes ≤ p + cap
    → pos % cap + length bytes ≤ cap
    → Frames mem cap p q rs
    → Frames (write_bytes mem (pos % cap) bytes) cap p q rs
Frames-write_bytes mem cap p q pos bytes pos_cap after within inside = Frames-congr pos_cap agree
  where
    agree : (x : ℕ) → p ≤ x → x < q → write_bytes mem (pos % cap) bytes (x % cap) ≡ mem (x % cap)
    agree x lo hi = elim (dec_lt (x % cap) (pos % cap)) [
      | yes below ↦ write_bytes_outside mem (pos % cap) bytes (x % cap) (inl below)
      | no above ↦ elim (dec_le (pos % cap + length bytes) (x % cap)) [
        | yes past ↦ write_bytes_outside mem (pos % cap) bytes (x % cap) (inr past)
        | no hit ↦
            let i : ℕ = x % cap - pos % cap in
            absurd (
              mod-ne cap pos_cap x (pos + i) (omega arith) (omega arith)
                (omega (arith, mod-step cap pos_cap pos i (omega arith))))
      ]
    ]

pub Frames-write_eob :
    (mem : Memory) (cap p q n : ℕ) {rs : List Bytes}
    → 0 < cap
    → q + 4 ≤ p + cap
    → q % cap + 4 ≤ cap
    → Frames mem cap p q rs
    → Frames (write_eob mem (q % cap) n) cap p q rs
unfolding write_eob
Frames-write_eob mem cap p q n pos within inside =
    Frames-write_bytes mem cap p q q (version ∷ end_of_buffer ∷ to_le_bytes 2 n) pos (omega arith)
      (omega arith) (omega arith)

-- A record written at a position is the frame there.
pub Frames-of_wire :
    (mem : Memory) (cap pos : ℕ) (r : Bytes)
    → IsWire r
    → pos % cap + slots (length r) ≤ cap
    → Frames (write_bytes mem (pos % cap) r) cap pos (pos + slots (length r)) (r ∷ [])
Frames-of_wire mem cap pos r w fit =
    wire w fit (read_bytes-write_bytes mem (pos % cap) r) (done refl)

-- On slot-aligned positions a lap ends a whole number of slots further on.
pub span-slots : (cap p : ℕ) → cap % 64 ≡ 0 → p % 64 ≡ 0 → 0 < cap → slots (span cap p) ≡ span cap p
span-slots cap p c h pos =
    let n : ℕ = p / cap in
    let m : ℕ = cap / 64 in
    let cap_is : cap ≡ m * 64 = omega arith in
    let e : n * cap ≡ n * m * 64 = omega (arith, ap (λ (t : ℕ). n * t) cap_is) in
    omega (arith, div-add-mod' p cap, mod-lt p pos)

pub Frames-of_eob :
    (mem : Memory) (cap pos : ℕ)
    → slots (span cap pos) ≡ span cap pos
    → 0 < span cap pos
    → span cap pos ≤ max_record_size
    → Frames (write_eob mem (pos % cap) (span cap pos)) cap pos (pos + span cap pos) []
unfolding write_eob
Frames-of_eob mem cap pos whole lo hi =
    filler (omega arith) hi whole
      (read_bytes-write_bytes mem (pos % cap)
        (version ∷ end_of_buffer ∷ to_le_bytes 2 (span cap pos)))
      (done refl)
