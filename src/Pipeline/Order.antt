-- ===== src/Pipeline/Order.antt =====
-- Every run delivers the logged records in order, each once.
use ticklog.Base.{
  ◌<◌, ◌≤◌, ◌+◌, ◌≡◌, refl, ap, ◌∙◌, sym, arith, Bytes, Bool, false, Option, none, some, List, [],
  ◌∷◌, ◌++◌, map, map-append, length, ltb, le→ltb, append-nil, append_assoc,
}
use ticklog.Drain.{Delivery, deliver, drain_ring_inner}
use ticklog.Drain.Exact.{drain_ring_inner-exact}
use ticklog.Pipeline.{
  Dispatched, logged, dropped, unfinished, commit, dispatch, Run, start, log, lose, drain,
}
use ticklog.Policy.{Backpressure}
use ticklog.Ring.{Ring, Seen, Reserved, reserved, refused, spinning, reserve, max_record_size}
use ticklog.Ring.Capacity.{SeenUpTo}
use ticklog.Ring.Frames.{IsWire}
use ticklog.Ring.Holds.{Holds}
use ticklog.Ring.Queue.{Outcome, reserve-Outcome}
use ticklog.Ring.Reserve.{headroom}
use ticklog.Words.{u64_mod}

-- what the ring holds after the call
abbrev Kept : List Bytes → Bytes → Dispatched → Type 0
Kept rs b (logged r) = Holds r (rs ++ b ∷ [])
Kept rs b (dropped r) = Holds r rs
Kept rs b unfinished = Unit {0}

commit-Kept :
    (r : Ring) (rs : List Bytes) (b : Bytes) (e : Reserved)
    → Outcome r rs b e
    → Kept rs b (commit b e)
unfolding commit
commit-Kept r rs b (reserved slot r') h = h.0
commit-Kept r rs b (refused r') h = h.0
commit-Kept r rs b spinning h = tt

dispatch-Kept :
    {r : Ring} {rs : List Bytes} (b : Bytes) (policy : Backpressure) (seen : List Seen)
    → Holds r rs
    → IsWire b
    → r.head + headroom ≤ u64_mod
    → SeenUpTo r.tail seen
    → Kept rs b (dispatch r b policy seen)
unfolding dispatch
dispatch-Kept {r} {rs} b policy seen v w below h =
    let short : ltb max_record_size (length b) ≡ false = le→ltb _ _ (omega (arith, w.short)) in
    rw short (
      commit-Kept r rs b (reserve r (length b) policy seen)
        (reserve-Outcome b policy seen v w below h))

abbrev ring_of : Ring → Option (Bool × Ring × List Delivery) → Ring
ring_of r none = r
ring_of r (some (worked, r', ds)) = r'

abbrev delivered : Option (Bool × Ring × List Delivery) → List Delivery
delivered none = []
delivered (some (worked, r', ds)) = ds

module _ (payload : Bytes → Bytes) where
  -- the ring holds what was logged and is not yet delivered
  abbrev pub Pending : Ring → List Bytes → List Delivery → Type 0
  Pending r sent out =
      (rs : List Bytes) × Holds r rs
      × (map (deliver payload) sent ≡ out ++ map (deliver payload) rs)

  pub Run-Pending :
      {r : Ring} {sent : List Bytes} {out : List Delivery}
      → Run payload r sent out
      → Pending r sent out
  Run-Pending (start v) = ([], v, refl)
  Run-Pending (log {sent} {out} b policy seen run w below h e) =
      let (rs, v, eq) = Run-Pending run in
      (
        rs ++ b ∷ [],
        rw e at (dispatch-Kept b policy seen v w below h),
        map-append (deliver payload) sent (b ∷ [])
            ∙ rw (eq, map-append (deliver payload) rs (b ∷ []), append_assoc) refl,
      )
  Run-Pending (lose b policy seen run w below h e) =
      let (rs, v, eq) = Run-Pending run in
      (rs, rw e at (dispatch-Kept b policy seen v w below h), eq)
  Run-Pending (drain {r} run below e) =
      let (rs, v, eq) = Run-Pending run in
      let exact = drain_ring_inner-exact r rs payload v below in
      let same = sym e ∙ exact.0 in
      let ring_same = ap (ring_of r) same in
      let out_same = ap delivered same in
      ([], rw ring_same exact.1, eq ∙ rw (out_same, append-nil) refl)

  -- In every run of dispatch and drain passes from an empty ring, with well-formed records and each
  -- call's head 2^18 below 2^64, whatever the policies and the tails (none past the drain's) that
  -- the producer sees: when a further pass of the drain, with the head below 2^64, ends, all
  -- records logged so far have been delivered, each once, in the order in which they were logged,
  -- and the ring is empty.
  pub drained-in_order :
      {r r' : Ring} {sent : List Bytes} {out more : List Delivery} {worked : Bool}
      → Run payload r sent out
      → r.head < u64_mod
      → drain_ring_inner payload r ≡ some (worked, r', more)
      → (out ++ more ≡ map (deliver payload) sent) × Holds r' []
  drained-in_order {r} {out} run below e =
      let (rs, v, eq) = Run-Pending run in
      let exact = drain_ring_inner-exact r rs payload v below in
      let same = sym e ∙ exact.0 in
      (ap (λ t. out ++ t) (ap delivered same) ∙ sym eq, rw (ap (ring_of r) same) exact.1)
