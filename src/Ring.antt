-- ===== src/Ring.antt =====
-- src/ring.rs, the default single-producer ring (module `custom`), in the build with no backend
-- feature and neither `watermark-head` nor `fast-tail-cache`, on a 64-byte cache line.
--
-- The atomics are fields. A load of the other side's field inside a wait is an argument, the list
-- of what the successive loads see, so a wait is modelled for every way in which the drain moves.
pub mod Align
pub mod Modular
pub mod Reserve
pub mod Holds
pub mod Fresh
pub mod Queue
pub mod Stuck
pub mod Drop
pub mod Capacity
pub mod Frames
pub mod Write
use ticklog.Backoff.{Backoff, new, waited}
use ticklog.Base.{
  ℕ, ◌+◌, ◌-◌, ◌%◌, ◌^◌, Byte, Bytes, Bool, true, false, not, ◌&&◌, ◌||◌, Option, none, some, [],
  ◌∷◌, List, bit_and, ltb, leb, ◌==◌, if◌then◌else◌,
}
use ticklog.Memory.{Memory, write_bytes}
use ticklog.Policy.{Backpressure}
use ticklog.Words.{wrapping_add, wrapping_sub, u16_mod, u64_mod, to_le_bytes}

abbrev pub slot_size : ℕ
slot_size = 64

-- src/record.rs: the constants that frame a record.
abbrev pub version : Byte
version = 2

abbrev pub log_record : Byte
log_record = 1

abbrev pub end_of_buffer : Byte
end_of_buffer = 2

abbrev pub header_size : ℕ
header_size = 16

abbrev pub max_record_size : ℕ
max_record_size = u16_mod - 1

-- `n.wrapping_add(align - 1) & !(align - 1)` on u64
unfoldable pub align_up : ℕ → ℕ → ℕ
align_up n align = bit_and (wrapping_add n (align - 1)) (u64_mod - 1 - (align - 1))

-- `storage` is what the base pointer leads to; `live` and the fields after `mask` are the registration
-- data and the flags of the segmented policies.
pub record Ring : Type 0 where
  pub head : ℕ
  pub tail_cache : ℕ
  pub tail : ℕ
  pub head_cache : ℕ
  pub live : Bool
  pub thread_id : ℕ
  pub thread_name : Bytes
  pub capacity : ℕ
  pub mask : ℕ
  pub storage : Memory
  pub serial : ℕ
  pub helper_reserved : Bool
  pub draining : Bool
  pub recyclable : Bool
  pub recycled : Bool
  pub handed_off : Bool

-- `ptr` is an offset from the base pointer.
pub record Reservation : Type 0 where
  pub ptr : ℕ
  pub head : ℕ

-- `usize::is_power_of_two`
unfoldable pub is_power_of_two : ℕ → Bool
is_power_of_two n = not (n == 0) && bit_and n (n - 1) == 0

unfoldable pub from_storage : Memory → ℕ → Bool → Ring
from_storage storage capacity recyclable = record {
  head = 0;
  tail_cache = 0;
  tail = 0;
  head_cache = 0;
  live = true;
  thread_id = 0;
  thread_name = [];
  capacity = capacity;
  mask = capacity - 1;
  storage = storage;
  serial = 0;
  helper_reserved = false;
  draining = false;
  recyclable = recyclable;
  recycled = false;
  handed_off = false;
}

-- `none` is the panic of the `assert!`. The allocation is zeroed.
unfoldable pub with_capacity : ℕ → Option Ring
with_capacity capacity =
    if is_power_of_two capacity && leb slot_size capacity
    then some (from_storage (λ _. 0) capacity false)
    else none

-- What one pass of the wait reads of the other side: the drain's `tail`, and `live`.
pub record Seen : Type 0 where
  pub tail : ℕ
  pub live : Bool

-- The answer with the new `tail_cache`, or the producer still spins after all that was seen.
pub data Ensured : Type 0 where
  decided : Bool → ℕ → Ensured
  waiting : Backoff → Ensured

-- `head.wrapping_add(needed).wrapping_sub(tail) <= self.mask()`
unfoldable pub fits : ℕ → ℕ → ℕ → ℕ → Bool
fits mask head needed tail = leb (wrapping_sub (wrapping_add head needed) tail) mask

-- The `match policy` on a full ring; `again` is the next pass of the loop.
unfoldable pub on_full : Backpressure → Seen → Ensured → Ensured
on_full Backpressure.drop s again = decided false s.tail
on_full Backpressure.nano_log s again = decided false s.tail
on_full Backpressure.quill s again = decided false s.tail
on_full Backpressure.block s again = if s.live then again else decided false s.tail

unfoldable pub ensure_loop : ℕ → ℕ → ℕ → Backpressure → Backoff → List Seen → Ensured
ensure_loop mask head needed policy backoff [] = waiting backoff
ensure_loop mask head needed policy backoff (s ∷ seen) =
    let again = ensure_loop mask head needed policy (waited backoff) seen in
    if fits mask head needed s.tail then decided true s.tail else on_full policy s again

-- The fast path trusts `tail_cache`, and refreshes it by one load.
unfoldable pub try_ensure_capacity : Ring → ℕ → ℕ → Backpressure → List Seen → Ensured
try_ensure_capacity r head needed policy [] = waiting new
try_ensure_capacity r head needed policy (s ∷ seen) =
    let slow = ensure_loop r.mask head needed policy new (s ∷ seen) in
    if fits r.mask head needed r.tail_cache then decided true s.tail else slow

-- `write_eob`: version, type and the span as a little-endian u16
unfoldable pub write_eob : Memory → ℕ → ℕ → Memory
write_eob mem ptr span = write_bytes mem ptr (version ∷ end_of_buffer ∷ to_le_bytes 2 span)

-- `None` of the source is `refused`. `spinning` is a reserve that has not returned.
pub data Reserved : Type 0 where
  reserved : Reservation → Ring → Reserved
  refused : Ring → Reserved
  spinning : Reserved

abbrev pub offset_of : Ring → ℕ
offset_of r = bit_and r.head r.mask

abbrev pub remaining_phys : Ring → ℕ
remaining_phys r = r.capacity - offset_of r

-- whether the record would straddle the physical end
abbrev pub wraps : Ring → ℕ → Bool
wraps r total = ltb (remaining_phys r) (align_up total slot_size)

abbrev pub needed_for : Ring → ℕ → ℕ
needed_for r total =
    if wraps r total then align_up total slot_size + remaining_phys r else align_up total slot_size

-- where the record will start: behind the filler, if there is one
abbrev pub next_for : Ring → ℕ → ℕ
next_for r total = if wraps r total then wrapping_add r.head (remaining_phys r) else r.head

unfoldable pub slot_for : Ring → ℕ → Reservation
slot_for r total = record {
  ptr = bit_and (next_for r total) r.mask;
  head = wrapping_add (next_for r total) (align_up total slot_size);
}

unfoldable pub filled : Ring → ℕ → Ring
filled r total = record r {
  storage =
      if wraps r total
      then write_eob r.storage (offset_of r) (remaining_phys r % u16_mod)
      else r.storage;
}

unfoldable pub settle : Ring → ℕ → Ensured → Reserved
settle r total (decided true tail) =
    let r' = record r { tail_cache = tail } in reserved (slot_for r' total) (filled r' total)
settle r total (decided false tail) = refused (record r { tail_cache = tail })
settle r total (waiting _) = spinning

unfoldable pub reserve : Ring → ℕ → Backpressure → List Seen → Reserved
reserve r total policy seen =
    settle r total (try_ensure_capacity r r.head (needed_for r total) policy seen)

unfoldable pub publish : Ring → Reservation → Ring
publish r slot = record r { head = slot.head }

-- The caller's write of the record through `Reservation::ptr`.
unfoldable pub write_record : Ring → Reservation → Bytes → Ring
write_record r slot bytes = record r { storage = write_bytes r.storage slot.ptr bytes }

-- Rewinds the control state; the storage is untouched.
unfoldable pub reset_for_reuse : Ring → Ring
reset_for_reuse r = record r {
  head = 0;
  tail = 0;
  tail_cache = 0;
  head_cache = 0;
  helper_reserved = false;
  draining = false;
  recycled = false;
  handed_off = false;
  live = true;
}

-- `!self.recycled.swap(true)`: whether this call was the first.
unfoldable pub mark_recycled : Ring → Bool × Ring
mark_recycled r = (not r.recycled, record r { recycled = true })
