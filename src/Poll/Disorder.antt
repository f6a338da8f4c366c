-- ===== src/Poll/Disorder.antt =====
-- The order of one thread's segments in a pass of the drain, where full ones are retired.
use ticklog.Base.{
  ◌<◌, ◌≡◌, ◌≢◌, refl, sym, ap, ◌∙◌, ℕ, suc, Bytes, Bool, true, false, some, List, [], ◌∷◌, ◌++◌,
  map, map-append, ◌&&◌, arith, append_assoc, ◌==◌, not, has,
}
use ticklog.Drain.{deliver}
use ticklog.Poll.{Poll, Visit, Entry, visit, visited, poll_loop, swap_out}
use ticklog.Poll.Pass.{poll_step}
use ticklog.Poll.Retire.{Visited, visit_lem}
use ticklog.Ring.Holds.{Holds}
use ticklog.Shared.{Shared}
use ticklog.Words.{u64_mod}
use mathlib.Core.Path.{subst}

-- A listed segment with its queue, and whether its producer is done with it.
pub record Listed (w : Shared) (a serial : ℕ) (rs : List Bytes) (full : Bool) : Type 0 where
  pub holds : Holds (w.store a) rs
  pub small : (w.store a).head < u64_mod
  pub same : (w.store a).serial ≡ serial
  pub free : (w.store a).helper_reserved ≡ false
  pub done : ((w.store a).handed_off && has w.registry a) ≡ full

others_registered :
    (b a : ℕ) (here retired : Bool) → b ≢ a → (here && not (retired && b == a)) ≡ here
others_registered b a here retired n = ground arith

module _ (payload : Bytes → Bytes) where
  pub Listed-others :
      {w : Shared} {a : ℕ} {qs : List Bytes} {v : Visit} (b serial : ℕ) (rs : List Bytes)
      (full : Bool)
      → Visited payload w a qs v
      → b ≢ a
      → Listed w b serial rs full
      → Listed v.after b serial rs full
  Listed-others {w} {a} {qs} {v} b serial rs full o n l =
      let same_ring : v.after.store b ≡ w.store b = o.others b n in
      record {
        holds = subst (λ r. Holds r rs) (sym same_ring) l.holds;
        small = subst (λ r. r.head < u64_mod) (sym same_ring) l.small;
        same = ap (λ r. r.serial) same_ring ∙ l.same;
        free = ap (λ r. r.helper_reserved) same_ring ∙ l.free;
        done =
            ap (λ r. r.handed_off && has v.after.registry b) same_ring
            ∙ ap (λ h. (w.store b).handed_off && h)
                (o.registered b ∙ others_registered b a (has w.registry b) v.retired n)
            ∙ l.done;
      }

  -- The visit of a listed segment.
  abbrev pub Visits : Shared → ℕ → ℕ → List Bytes → Bool → Type 0
  Visits w a serial rs full =
      (v : Visit) × (visit payload w (a, serial) ≡ some v)
      × Visited payload w a rs v
      × (v.retired ≡ full)

  pub visits :
      (w : Shared) (a serial : ℕ) (rs : List Bytes) (full : Bool)
      → Listed w a serial rs full
      → Visits w a serial rs full
  visits w a serial rs full l =
      let (v, e, o) = visit_lem payload w a serial rs l.holds l.small l.same l.free in
      (v, e, o, o.retired_as ∙ l.done)

  pub loop_gone :
      (fuel : ℕ) (p : Poll) (e : Entry) (rest : List Entry) (v : Visit)
      → visit payload p.world e ≡ some v
      → v.retired ≡ true
      → poll_loop payload (suc fuel) p (e ∷ rest)
        ≡ poll_loop payload fuel (visited p v) (swap_out rest)
  unfolding poll_loop
  loop_gone fuel p e rest v h r = rw (h, r) refl

  abbrev at_start : Shared → Poll
  at_start w = record { had_work = false; rings = []; world = w; out = [] }

  -- When the drain's list has three segments with distinct addresses, current, not reserved, each holding a
  -- queue with its head below 2^64, and the first two are registered and handed off, as the segments are that
  -- a thread has filled, and the third is not: the loop of poll_once ends, and delivers the queue of the first,
  -- then that of the third, then that of the second, and only the third stays in the list.
  pub poll_loop-disorder :
      (w : Shared) (a b c s t u : ℕ) (q1 q2 q3 : List Bytes)
      → Listed w a s q1 true
      → Listed w b t q2 true
      → Listed w c u q3 false
      → b ≢ a
      → c ≢ a
      → b ≢ c
      → (p : Poll) × (poll_loop payload 3 (at_start w) ((a, s) ∷ (b, t) ∷ (c, u) ∷ []) ≡ some p)
        × (p.out ≡ map (deliver payload) (q1 ++ (q3 ++ q2)))
        × (p.rings ≡ (c, u) ∷ [])
  unfolding swap_out poll_loop
  poll_loop-disorder w a b c s t u q1 q2 q3 l1 l2 l3 nb nc nbc =
      let (v1, e1, o1, r1) = visits w a s q1 true l1 in
      let l2' = Listed-others b t q2 true o1 nb l2 in
      let l3' = Listed-others c u q3 false o1 nc l3 in
      let (v3, e3, o3, r3) = visits v1.after c u q3 false l3' in
      let (v2, e2, o2, r2) = visits v3.after b t q2 true (Listed-others b t q2 true o3 nbc l2') in
      let p1 = visited (at_start w) v1 in
      let p3 = record (visited p1 v3) { rings = (c, u) ∷ [] } in
      (
        visited p3 v2,
        loop_gone 2 (at_start w) (a, s) ((b, t) ∷ (c, u) ∷ []) v1 e1 r1
            ∙ poll_step payload 1 p1 (c, u) ((b, t) ∷ []) v3 e3 r3
            ∙ loop_gone 0 p3 (b, t) [] v2 e2 r2,
        rw (o1.delivered, o3.delivered, o2.delivered, map-append, map-append)
            (append_assoc (map (deliver payload) q1) (map (deliver payload) q3)
              (map (deliver payload) q2)),
        refl,
      )
