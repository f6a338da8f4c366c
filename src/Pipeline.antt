-- ===== src/Pipeline.antt =====
-- src/macros.rs, `dispatch` under the policies that reserve in the ring itself, and the runs of one
-- producer and the drain over a ring. A record stands for the bytes that `assemble` writes.
pub mod Order
use ticklog.Base.{
  ℕ, ◌<◌, ◌≤◌, ◌+◌, ◌≡◌, Bytes, Bool, List, [], ◌∷◌, ◌++◌, some, length, ltb, if◌then◌else◌,
}
use ticklog.Drain.{Delivery, drain_ring_inner}
use ticklog.Policy.{Backpressure}
use ticklog.Ring.{
  Ring, Seen, Reserved, reserved, refused, spinning, reserve, publish, write_record,
  max_record_size,
}
use ticklog.Ring.Capacity.{SeenUpTo}
use ticklog.Ring.Frames.{IsWire}
use ticklog.Ring.Holds.{Holds}
use ticklog.Ring.Reserve.{headroom}
use ticklog.Words.{u64_mod}

-- What becomes of a record; `unfinished` is a call that still waits.
pub data Dispatched : Type 0 where
  logged dropped : Ring → Dispatched
  unfinished : Dispatched

unfoldable pub commit : Bytes → Reserved → Dispatched
commit bytes (reserved slot r) = logged (publish (write_record r slot bytes) slot)
commit bytes (refused r) = dropped r
commit bytes spinning = unfinished

unfoldable pub dispatch : Ring → Bytes → Backpressure → List Seen → Dispatched
dispatch r bytes policy seen =
    if ltb max_record_size (length bytes)
    then dropped r
    else commit bytes (reserve r (length bytes) policy seen)

module _ (payload : Bytes → Bytes) where
  -- The runs from an empty ring: the ring, the records logged so far, and the deliveries so far.
  -- Calls of `dispatch` and passes of the drain follow each other in any order.
  pub data Run : Ring → List Bytes → List Delivery → Type 0 where
    start : {r : Ring} → Holds r [] → Run r [] []
    log :
        {r r' : Ring} {sent : List Bytes} {out : List Delivery} (bytes : Bytes)
        (policy : Backpressure) (seen : List Seen)
        → Run r sent out
        → IsWire bytes
        → r.head + headroom ≤ u64_mod
        → SeenUpTo r.tail seen
        → dispatch r bytes policy seen ≡ logged r'
        → Run r' (sent ++ bytes ∷ []) out
    lose :
        {r r' : Ring} {sent : List Bytes} {out : List Delivery} (bytes : Bytes)
        (policy : Backpressure) (seen : List Seen)
        → Run r sent out
        → IsWire bytes
        → r.head + headroom ≤ u64_mod
        → SeenUpTo r.tail seen
        → dispatch r bytes policy seen ≡ dropped r'
        → Run r' sent out
    drain :
        {r r' : Ring} {sent : List Bytes} {out more : List Delivery} {worked : Bool}
        → Run r sent out
        → r.head < u64_mod
        → drain_ring_inner payload r ≡ some (worked, r', more)
        → Run r' sent (out ++ more)
