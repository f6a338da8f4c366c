-- ===== src/Drain/Exact.antt =====
-- A pass over a ring that holds a queue delivers exactly that queue.
use ticklog.Base.{
  ℕ, zero, suc, ◌-◌, ◌^◌, ◌≤◌, ◌<◌, ◌≡◌, refl, ◌∙◌, sym, arith, Bytes, Bool, true, false, some,
  List, [], ◌∷◌, ◌++◌, map, lt→ltb, le→ltb, ◌==◌, append-nil, append_assoc, inl, inr, Bool-cases,
  ==_iff,
}
use ticklog.Drain.{Delivery, Pass, deliver, drain_loop, turn, again, drain_ring_inner}
use ticklog.Drain.Frame.{turn_wire, turn_filler}
use ticklog.Ring.{Ring, slot_size}
use ticklog.Ring.Frames.{Frames, done, wire, filler, Frames-le, Frames-nil}
use ticklog.Ring.Holds.{Holds}
use ticklog.Words.{u64_mod}

-- whether a pass over these records has done work, if it had done some before
abbrev pub worked : Bool → List Bytes → Bool
worked had [] = had
worked had (b ∷ rs) = true

pub worked-true : (rs : List Bytes) → worked true rs ≡ true
worked-true [] = refl
worked-true (b ∷ rs) = refl

module _ (r : Ring) (bits : ℕ) (power : r.capacity ≡ 2 ^ bits) (large : slot_size ≤ r.capacity)
    (payload : Bytes → Bytes) where
  loop_stop : (fuel q : ℕ) (s : Pass) → q ≤ s.tail → drain_loop payload (suc fuel) r q s ≡ some s
  unfolding drain_loop
  loop_stop fuel q s h = rw (le→ltb s.tail q h, drain_loop)

  loop_again :
      (fuel q : ℕ) (s s' : Pass)
      → s.tail < q
      → turn payload r q s ≡ again s'
      → drain_loop payload (suc fuel) r q s ≡ drain_loop payload fuel r q s'
  unfolding drain_loop
  loop_again fuel q s s' h e = rw (lt→ltb s.tail q h, drain_loop) (rw e)

  drain_loop-Frames :
      (fuel : ℕ) {p q : ℕ} {rs : List Bytes} (had : Bool) (out : List Delivery)
      → Frames r.storage r.capacity p q rs
      → q < u64_mod
      → q - p < fuel
      → drain_loop payload fuel r q (record { tail = p; had_work = had; out = out })
        ≡ some
            (record { tail = q; had_work = worked had rs; out = out ++ map (deliver payload) rs })
  drain_loop-Frames zero had out f small enough = absurd (omega arith)
  drain_loop-Frames (suc fuel) {p} {q} had out (done e) small enough =
      loop_stop fuel q _ (omega arith) ∙ rw (e, append-nil)
  drain_loop-Frames (suc fuel) {p} {q} had out (wire {r = b} {rs} w fit there rest) small enough =
      let far = Frames-le rest in
      loop_again fuel q _ _ (omega (arith, w.long))
        (turn_wire r bits power large payload q _ b w fit there (omega arith))
      ∙ drain_loop-Frames fuel true (out ++ deliver payload b ∷ []) rest small
          (omega (arith, w.long))
      ∙ rw (worked-true rs, append_assoc)
  drain_loop-Frames (suc fuel) {p} {q} had out (filler lo hi whole there rest) small enough =
      let far = Frames-le rest in
      loop_again fuel q _ _ (omega arith)
        (turn_filler r bits power large payload q _ lo hi whole there (omega arith))
      ∙ drain_loop-Frames fuel had out rest small (omega arith)

drained-Holds :
    (r : Ring) {rs : List Bytes}
    → Holds r rs
    → Holds (record r { tail = r.head; head_cache = r.head }) []
drained-Holds r v = record {
  bits = v.bits;
  power = v.power;
  whole = v.whole;
  large = v.large;
  mask_is = v.mask_is;
  head_aligned = v.head_aligned;
  cache_behind = omega (arith, v.cache_behind, Frames-le v.frames);
  caught_up = refl;
  room = omega (arith, v.large);
  frames = done refl;
}

-- A pass over a ring that holds a queue, with its head below 2^64, always ends, reports work just
-- when the queue is not empty, delivers each record once, in order, with its level, and leaves the
-- ring holding the empty queue with the tail and the drain's copy of the head at the head and all
-- else as it was.
pub drain_ring_inner-exact :
    (r : Ring) (rs : List Bytes) (payload : Bytes → Bytes)
    → Holds r rs
    → r.head < u64_mod
    → let r' = record r { tail = r.head; head_cache = r.head } in
      (drain_ring_inner payload r ≡ some (worked false rs, r', map (deliver payload) rs))
      × Holds r' []
unfolding drain_ring_inner
drain_ring_inner-exact r rs payload v small = (
  elim (Bool-cases (r.tail == r.head)) [
    | inl e ↦ rw (caught, e) (ground (arith, empty ((==_iff _ _).0 e)))
    | inr e ↦
        rw (caught, e)
          (rw (
            drain_loop-Frames r v.bits v.power v.large payload (suc (r.head - r.tail)) false []
              v.frames small (omega arith)))
  ],
  drained-Holds r v,
)
  where
    caught : (r.tail == r.head_cache) ≡ true
    caught = (==_iff _ _).1 (sym v.caught_up)

    empty : r.tail ≡ r.head → rs ≡ []
    empty e = Frames-nil (rw (← e) at v.frames)
