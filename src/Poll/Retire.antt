-- ===== src/Poll/Retire.antt =====
-- A visit of one ring: the pass, and the retirement of a segment that was handed off.
use ticklog.Poll.GiveBack.{
  pool_after, give_back-spares, give_back-registry, give_back-there, give_back-Holds,
  give_back-idle,
}
use ticklog.Poll.Drained.{
  drained_at, drained_at-here, drained_at-there, drain_ring-drained, drained_at-Holds,
}
use ticklog.Base.{
  ℕ, ◌<◌, ◌≡◌, ◌≢◌, refl, sym, ap, arith, ◌∙◌, ◌&&◌, ◌||◌, Bytes, Bool, true, false, not, Option,
  some, [], ◌∷◌, List, map, ◌==◌, if◌then◌else◌, Bool-cases, and_left, and_right, inl, inr, has,
  keep_if, has-keep_if, ==_iff,
}
use ticklog.Drain.{deliver}
use ticklog.Drain.Exact.{worked}
use ticklog.Poll.{Visit, visit, drain_ring, maybe_retire, then_retire, give_back, skip}
use ticklog.Ring.Holds.{Holds}
use ticklog.Shared.{Shared}
use ticklog.Words.{u64_mod}

abbrev without : Shared → ℕ → Shared
without w a = record w { registry = keep_if (λ b. not (b == a)) w.registry }

not_retired :
    (handed reserved stale full registered : Bool) (x y : Bool × Shared)
    → (handed && registered) ≡ false
    → (if not handed || reserved || stale
        then x
        else if full
        then x
        else if not registered
        then x
        else y)
      ≡ x
not_retired handed reserved stale full registered x y n = ground arith

module _ (w : Shared) (a serial : ℕ) (same : (w.store a).serial ≡ serial)
    (free : (w.store a).helper_reserved ≡ false) where
  -- Only a segment that was handed off, is drained and is still registered goes.
  maybe_retire-yes :
      (w.store a).handed_off ≡ true
      → (w.store a).head ≡ (w.store a).tail
      → has w.registry a ≡ true
      → maybe_retire w (a, serial) ≡ (true, give_back (without w a) a)
  unfolding maybe_retire
  maybe_retire-yes h e p = rw (h, free, (==_iff _ _).1 same, (==_iff _ _).1 e, p) refl

  maybe_retire-no :
      ((w.store a).handed_off && has w.registry a) ≡ false → maybe_retire w (a, serial) ≡ (false, w)
  unfolding maybe_retire
  maybe_retire-no n =
      not_retired (w.store a).handed_off (w.store a).helper_reserved
        (not ((w.store a).serial == serial)) (not ((w.store a).head == (w.store a).tail))
        (has w.registry a) (false, w) (true, give_back (without w a) a) n

-- What a visit of the ring `a` with the queue `rs` comes to.
pub record Visited (payload : Bytes → Bytes) (w : Shared) (a : ℕ) (rs : List Bytes) (v : Visit)
    : Type 0 where
  pub worked_as : v.worked ≡ worked false rs
  pub delivered : v.out ≡ map (deliver payload) rs
  pub retired_as : v.retired ≡ ((w.store a).handed_off && has w.registry a)
  pub emptied_to : Holds (v.after.store a) []
  pub idle_at : ((v.after.store a).draining ≡ false) × ((v.after.store a).head ≡ (w.store a).head)
  pub registered :
      (b : ℕ) → has v.after.registry b ≡ (has w.registry b && not (v.retired && b == a))
  pub pooled_as : v.after.spares ≡ pool_after w a v.retired
  pub others : (b : ℕ) → b ≢ a → v.after.store b ≡ w.store b

neither :
    (stale reserved : Bool) (x y : Option Visit)
    → stale ≡ false
    → reserved ≡ false
    → (if stale then x else if reserved then x else y) ≡ y
neither stale reserved x y e f = ground arith

module _ (payload : Bytes → Bytes) (w : Shared) (a serial : ℕ) (rs : List Bytes)
    (v : Holds (w.store a) rs) (small : (w.store a).head < u64_mod)
    (same : (w.store a).serial ≡ serial) (free : (w.store a).helper_reserved ≡ false) where
  visit-retire :
      visit payload w (a, serial)
      ≡ then_retire payload
          (a, serial)
          (some (worked false rs, drained_at w a, map (deliver payload) rs))
  unfolding visit
  visit-retire =
      neither (not ((w.store a).serial == serial)) (w.store a).helper_reserved (some (skip w))
        (then_retire payload (a, serial) (drain_ring payload w a)) (ap not ((==_iff _ _).1 same))
        free
      ∙ ap (then_retire payload (a, serial)) (drain_ring-drained payload w a rs v small)

  visit-retired :
      (retired : Bool) (after : Shared)
      → maybe_retire (drained_at w a) (a, serial) ≡ (retired, after)
      → visit payload w (a, serial)
        ≡ some (record {
          worked = worked false rs;
          retired = retired;
          after = after;
          out = map (deliver payload) rs;
        })
  visit-retired retired after e = visit-retire ∙ ap to_visit e
    where
      to_visit : Bool × Shared → Option Visit
      to_visit p = some (record {
        worked = worked false rs;
        retired = p.0;
        after = p.1;
        out = map (deliver payload) rs;
      })

-- For an entry with the serial of its ring, which no producer has reserved and which holds a queue,
-- with its head below 2^64: the visit delivers the queue in order and leaves the ring holding the empty
-- queue; the entry goes exactly when the segment was handed off and is registered, and the ring is then
-- no longer registered and, if it belongs to the pool and was not returned yet, is a spare; the other
-- registrations, spares and rings are unchanged.
pub visit_lem :
    (payload : Bytes → Bytes) (w : Shared) (a serial : ℕ) (rs : List Bytes)
    → Holds (w.store a) rs
    → (w.store a).head < u64_mod
    → (w.store a).serial ≡ serial
    → (w.store a).helper_reserved ≡ false
    → (v : Visit) × (visit payload w (a, serial) ≡ some v) × Visited payload w a rs v
visit_lem payload w a serial rs v small same free =
    let w' = drained_at w a in
    let here = drained_at-here w a in
    let empty = drained_at-Holds payload w a rs v small in
    let same' : (w'.store a).serial ≡ serial = ap (λ r. r.serial) here ∙ same in
    let free' : (w'.store a).helper_reserved ≡ false = ap (λ r. r.helper_reserved) here ∙ free in
    let retired = visit-retired payload w a serial rs v small same free in
    elim (Bool-cases ((w.store a).handed_off && has w.registry a)) [
      | inl e ↦
          let w'' = without w' a in
          let gone =
            maybe_retire-yes w' a serial same' free' (ap (λ r. r.handed_off) here ∙ and_left _ _ e)
              (ap (λ r. r.head) here ∙ sym (ap (λ r. r.tail) here)) (and_right _ _ e) in
          (
            _,
            retired true (give_back w'' a) gone,
            record {
              worked_as = refl;
              delivered = refl;
              retired_as = sym e;
              emptied_to = give_back-Holds w'' a empty;
              idle_at = give_back-idle w'' a (ap (λ r. r.draining) here, ap (λ r. r.head) here);
              registered = λ b.
                  ap (λ t. has t b) (give_back-registry w'' a)
                  ∙ has-keep_if (λ c. not (c == a)) w.registry b;
              pooled_as =
                  give_back-spares w'' a
                  ∙ ap
                      (λ r.
                        if w.installed && r.recyclable && not r.recycled
                        then a ∷ w.spares
                        else w.spares)
                      here;
              others = λ b n. give_back-there w'' a b n ∙ drained_at-there w a b n;
            },
          )
      | inr e ↦ (
        _,
        retired false w' (
            maybe_retire-no w' a serial same' free'
              (ap (λ h. h && has w.registry a) (ap (λ r. r.handed_off) here) ∙ e)),
        record {
          worked_as = refl;
          delivered = refl;
          retired_as = sym e;
          emptied_to = empty;
          idle_at = (ap (λ r. r.draining) here, ap (λ r. r.head) here);
          registered = λ b. ground arith;
          pooled_as = refl;
          others = drained_at-there w a;
        },
      )
    ]
