-- ===== src/ThreadBuf/Quill.antt =====
-- Quill never waits: a full segment is handed over for a fresh one.
use ticklog.ThreadBuf.Refill.{reserve-now, named-Holds, needed_for-start, alloc_fresh-Holds}
use ticklog.Base.{
  ℕ, suc, ◌+◌, ◌≤◌, ◌<◌, ◌≡◌, ◌≢◌, ◌⊎◌, refl, sym, ap, arith, ◌∙◌, Bytes, true, some, [], List, has,
  ==_iff, inl, inr,
}
use ticklog.Policy.{Backpressure}
use ticklog.Ring.{
  Ring, Seen, Reservation, reserved, refused, reserve, align_up, slot_size, is_power_of_two,
  max_record_size,
}
use ticklog.Ring.Holds.{Holds}
use ticklog.Ring.Reserve.{headroom}
use ticklog.Segments.{Between, alloc_fresh}
use ticklog.Shared.{Shared, update, update_here, update_there, set, place, place_here, place_there}
use ticklog.ThreadBuf.{
  ThreadBuf, obtained, reserve_with_policy, handoff_loop, next_segment, switch_to, now,
  set_thread_info, set_serial, others,
}
use ticklog.ThreadBuf.Registry.{register_ring-here, register_ring-there, register_ring-has}
use ticklog.Words.{u64_mod}
use mathlib.Core.Path.{subst}

module _ (w : Shared) (tb : ThreadBuf) where
  -- the full segment, behind the failed reserve and its mark
  abbrev handed_over : Shared
  handed_over =
      let r = w.store tb.ring in
      update (record w { store = set w.store tb.ring (record r { tail_cache = r.tail }) }) tb.ring
        (λ x. record x { handed_off = true })

  abbrev switched : Ring → ThreadBuf × Shared
  switched r = switch_to (place handed_over r).1 tb w.used

  switched-new :
      (r : Ring)
      → (switched r).1.store w.used
        ≡ set_serial w.next_serial (set_thread_info tb.thread_id tb.thread_name r)
  unfolding switch_to
  switched-new r =
      let w' = (place handed_over r).1 in
      let f = set_thread_info tb.thread_id tb.thread_name in
      register_ring-here (update w' w.used f) w.used
      ∙ ap (set_serial w.next_serial) (update_here w' w.used f ∙ ap f (place_here handed_over r))

  switched-old : (r : Ring) → tb.ring ≢ w.used → ((switched r).1.store tb.ring).handed_off ≡ true
  unfolding switch_to
  switched-old r n =
      let w' = (place handed_over r).1 in
      let f = set_thread_info tb.thread_id tb.thread_name in
      let x = w.store tb.ring in
      let w1 = record w { store = set w.store tb.ring (record x { tail_cache = x.tail }) } in
      ap (λ x. x.handed_off)
        (register_ring-there (update w' w.used f) w.used tb.ring n
          ∙ update_there w' w.used tb.ring f n
          ∙ place_there handed_over r tb.ring n
          ∙ update_here w1 tb.ring (λ x. record x { handed_off = true }))

  switched-registered : (r : Ring) → has (switched r).1.registry w.used ≡ true
  unfolding switch_to
  switched-registered r =
      let w' = (place handed_over r).1 in
      let f = set_thread_info tb.thread_id tb.thread_name in
      ground
        (arith, register_ring-has (update w' w.used f) w.used w.used, (==_iff w.used w.used).1 refl)

  module _ (payload : Bytes → Bytes) (total : ℕ) (wakes : List Between) where
    -- The record fits in the segment that the thread has.
    reserve-fits :
        (fuel : ℕ) (slot : Reservation) (r : Ring)
        → reserve (w.store tb.ring) total Backpressure.quill (now w tb.ring) ≡ reserved slot r
        → handoff_loop payload (suc fuel) w tb total Backpressure.quill wakes
          ≡ obtained slot tb (record w { store = set w.store tb.ring r })
    unfolding handoff_loop
    reserve-fits fuel slot r e = rw e refl

    -- It does not, and a fresh one is taken.
    reserve-full :
        (fuel : ℕ) (r : Ring)
        → reserve (w.store tb.ring) total Backpressure.quill (now w tb.ring)
          ≡ refused (record (w.store tb.ring) { tail_cache = (w.store tb.ring).tail })
        → alloc_fresh handed_over ≡ some (place handed_over r)
        → handoff_loop payload (suc fuel) w tb total Backpressure.quill wakes
          ≡ handoff_loop payload fuel
              (switched r).1
              (switched r).0
              total
              Backpressure.quill
              (others wakes)
    unfolding handoff_loop next_segment
    reserve-full fuel r e f = rw (e, f) refl

segmented :
    (payload : Bytes → Bytes) (fuel : ℕ) (w : Shared) (tb : ThreadBuf) (total : ℕ)
    (seen : List Seen) (wakes : List Between)
    → w.installed ≡ true
    → reserve_with_policy payload fuel w tb total Backpressure.quill seen wakes
      ≡ handoff_loop payload fuel w tb total Backpressure.quill wakes
unfolding reserve_with_policy
segmented payload fuel w tb total seen wakes on = rw on refl

-- Under Quill, with a pool whose segment size is a power of two of at least a slot that the
-- record's slots do not fill, for a thread whose segment holds a queue with its head 2^18 below the
-- end of u64: at most two turns of the loop return a slot, in the segment that the thread has or
-- else in a new one, which is then registered, while the full one is handed off to the drain.
pub reserve_with_policy-quill :
    (payload : Bytes → Bytes) (fuel : ℕ) (w : Shared) (tb : ThreadBuf) (rs : List Bytes) (total : ℕ)
    (seen : List Seen) (wakes : List Between)
    → w.installed ≡ true
    → is_power_of_two w.ring_capacity ≡ true
    → slot_size ≤ w.ring_capacity
    → align_up total slot_size < w.ring_capacity
    → total ≤ max_record_size
    → Holds (w.store tb.ring) rs
    → (w.store tb.ring).head + headroom ≤ u64_mod
    → tb.ring ≢ w.used
    → (slot : Reservation) × (tb' : ThreadBuf) × (w' : Shared) × (reserve_with_policy payload
          (suc (suc fuel))
          w
          tb
          total
          Backpressure.quill
          seen
          wakes
        ≡ obtained slot tb' w')
      × ((tb' ≡ tb)
          ⊎ ((tb'.ring ≡ w.used)
              × (has w'.registry w.used ≡ true)
              × ((w'.store tb.ring).handed_off ≡ true)))
unfolding switch_to set_thread_info
reserve_with_policy-quill payload fuel w tb rs total seen wakes on p large room short v below old =
    let loop = segmented payload (suc (suc fuel)) w tb total seen wakes on in
    elim (reserve-now (w.store tb.ring) rs total v short below) [
      | inl (fit, slot, r, e) ↦
          (slot, tb, _, loop ∙ reserve-fits w tb payload total wakes (suc fuel) slot r e, inl refl)
      | inr (full, e) ↦
          let (r, fresh, h, c, z) = alloc_fresh-Holds (handed_over w tb) p large in
          let w' = (switched w tb r).1 in
          let tb' = (switched w tb r).0 in
          let (slot, r', e') = in_fresh r h z (omega (arith, c)) in
          (
            slot,
            tb',
            record w' { store = set w'.store w.used r' },
            loop
                ∙ reserve-full w tb payload total wakes (suc fuel) r e fresh
                ∙ reserve-fits w' tb' payload total (others wakes) fuel slot r' e',
            inr (
              refl,
              switched-registered w tb r,
              ap (λ x. x.handed_off) (update_there w' w.used tb.ring (λ _. r') old)
                  ∙ switched-old w tb r old,
            ),
          )
    ]
  where
    in_fresh :
        (r : Ring)
        → Holds r []
        → r.head ≡ 0
        → align_up total slot_size < r.capacity
        → (slot : Reservation) × (r' : Ring) × (reserve
              ((switched w tb r).1.store w.used)
              total
              Backpressure.quill
              (now (switched w tb r).1 w.used)
            ≡ reserved slot r')
    in_fresh r h z fits_in =
        let y = (switched w tb r).1.store w.used in
        let here = switched-new w tb r in
        let holds : Holds y [] =
          subst (λ x. Holds x []) (sym here)
            (named-Holds tb.thread_id w.next_serial tb.thread_name h) in
        let start : y.head ≡ 0 = ap (λ x. x.head) here ∙ z in
        let space : align_up total slot_size < y.capacity =
          omega (arith, ap (λ x. x.capacity) here) in
        elim (reserve-now y [] total holds short (omega (arith, start))) [
          | inl (fit, slot, found, e) ↦ (slot, found, e)
          | inr (full, e) ↦
              absurd (omega (arith, start, needed_for-start y total holds start space))
        ]
