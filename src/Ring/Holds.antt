-- ===== src/Ring/Holds.antt =====
-- A ring that holds a queue of records.
use ticklog.Base.{ℕ, ◌-◌, ◌+◌, ◌%◌, ◌^◌, ◌≤◌, ◌<◌, ◌≡◌, Bytes, List}
use ticklog.Ring.{Ring, slot_size}
use ticklog.Ring.Frames.{Frames}

-- `rs` are the records published and not yet drained, oldest first.
pub record Holds (r : Ring) (rs : List Bytes) : Type 0 where
  pub bits : ℕ
  pub power : r.capacity ≡ 2 ^ bits
  pub whole : r.capacity % 64 ≡ 0
  pub large : slot_size ≤ r.capacity
  pub mask_is : r.mask ≡ r.capacity - 1
  pub head_aligned : r.head % 64 ≡ 0
  pub cache_behind : r.tail_cache ≤ r.tail
  pub caught_up : r.head_cache ≡ r.tail
  pub room : r.head < r.tail + r.capacity
  pub frames : Frames r.storage r.capacity r.tail r.head rs
