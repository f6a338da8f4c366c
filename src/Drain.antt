-- ===== src/Drain.antt =====
-- src/drain.rs: one pass of the drain over a default ring (`drain_ring_inner`). The messages on
-- stderr are left out. What is made of a record, its wire bytes or a rendered line, is the argument
-- `payload`; the deliveries come back as a list, which the caller hands to the sink or to the
-- helpers' queue in that order.
pub mod Frame
pub mod Exact
use ticklog.Base.{
  ℕ, zero, suc, ◌+◌, ◌-◌, Byte, Bytes, Bool, true, false, not, ◌&&◌, ◌||◌, Option, none, some, List,
  [], ◌∷◌, ◌++◌, bit_and, ltb, ◌==◌, if◌then◌else◌, length, get_elem?,
}
use ticklog.Cursor.{read_u8, read_u16}
use ticklog.Level.{Level, error, from_u8}
use ticklog.Memory.{read_bytes}
use ticklog.Ring.{Ring, version, log_record, end_of_buffer, header_size, slot_size, align_up}
use ticklog.Words.{wrapping_add}

abbrev pub Delivery : Type 0
Delivery = Bytes × Level

abbrev pub or_error : Option Level → Level
or_error none = error
or_error (some l) = l

abbrev pub decode_level : Option Byte → Level
decode_level none = error
decode_level (some b) = or_error (from_u8 b)

-- `record.get(4).and_then(from_u8).unwrap_or(Level::Error)`
unfoldable pub level_of : Bytes → Level
level_of bytes = decode_level (get_elem? bytes 4)

-- The locals of the loop.
pub record Pass : Type 0 where
  pub tail : ℕ
  pub had_work : Bool
  pub out : List Delivery

-- `break`, or another turn
pub data Turn : Type 0 where
  stop again : Pass → Turn

-- the three reads from the prefix of the frame
pub record Prefix : Type 0 where
  pub version_of : ℕ
  pub rectype : ℕ
  pub total_size : ℕ

unfoldable pub read_prefix : Bytes → Prefix
read_prefix c =
    let (v, c') = read_u8 c in
    let (t, c'') = read_u8 c' in
    record { version_of = v; rectype = t; total_size = (read_u16 c'').0 }

abbrev pub is_corrupt : Prefix → ℕ → ℕ → Bool
is_corrupt p offset capacity =
    not (p.version_of == version)
    || (not (p.rectype == log_record) && not (p.rectype == end_of_buffer))
    || ltb p.total_size header_size
    || ltb capacity (offset + p.total_size)

module _ (payload : Bytes → Bytes) where
  unfoldable pub deliver : Bytes → Delivery
  deliver bytes = (payload bytes, level_of bytes)

  -- the body of the loop, behind the prefix
  unfoldable pub frame_turn : Ring → ℕ → Pass → ℕ → Prefix → Turn
  frame_turn r head_cache s offset p =
      if p.total_size == 0
      then stop s
      else if is_corrupt p offset r.capacity
      then stop (record s { tail = head_cache })
      else if p.rectype == end_of_buffer
      then again (record s { tail = wrapping_add s.tail (align_up p.total_size slot_size) })
      else again (record {
        tail = wrapping_add s.tail (align_up p.total_size slot_size);
        had_work = true;
        out = s.out ++ deliver (read_bytes r.storage offset p.total_size) ∷ [];
      })

  unfoldable pub turn : Ring → ℕ → Pass → Turn
  turn r head_cache s =
      let offset = bit_and s.tail (r.capacity - 1) in
      frame_turn r head_cache s offset
        (read_prefix (read_bytes r.storage offset (r.capacity - offset)))

  abbrev after : Turn → (Pass → Option Pass) → Option Pass
  after (stop s) rest = some s
  after (again s) rest = rest s

  -- `while tail < head_cache`, on fuel; `none` means that it ran out
  unfoldable pub drain_loop : ℕ → Ring → ℕ → Pass → Option Pass
  drain_loop zero r head_cache s = none
  drain_loop (suc fuel) r head_cache s = elim (ltb s.tail head_cache) [
    | true ↦ after (turn r head_cache s) (drain_loop fuel r head_cache)
    | false ↦ some s
  ]

  -- the stores behind the loop
  abbrev finish : Ring → ℕ → Option Pass → Option (Bool × Ring × List Delivery)
  finish r head_cache none = none
  finish r head_cache (some s) =
      some (s.had_work, record r { tail = s.tail; head_cache = head_cache }, s.out)

  -- The result, the ring and the deliveries. Each turn but the last moves by a slot at least, so the
  -- distance to the head is enough fuel.
  unfoldable pub drain_ring_inner : Ring → Option (Bool × Ring × List Delivery)
  drain_ring_inner r =
      let head_cache = if r.tail == r.head_cache then r.head else r.head_cache in
      if r.tail == head_cache
      then some (false, r, [])
      else finish r head_cache (
          drain_loop (suc (head_cache - r.tail)) r head_cache
            (record { tail = r.tail; had_work = false; out = [] }))
