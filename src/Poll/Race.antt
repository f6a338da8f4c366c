-- ===== src/Poll/Race.antt =====
-- The drain between the two marks of a NanoLog handoff: `mark_handed_off` and `reserve_for_helper`.
use ticklog.Base.{
  ℕ, ◌<◌, ◌≡◌, refl, sym, ap, ◌∙◌, ◌&&◌, not, Bytes, Bool, true, false, some, [], ◌∷◌, List, has,
  if◌then◌else◌,
}
use ticklog.Poll.{Visit, visit}
use ticklog.Poll.GiveBack.{pool_after}
use ticklog.Poll.Retire.{visit_lem}
use ticklog.Ring.{Ring}
use ticklog.Ring.Holds.{Holds}
use ticklog.Segments.{Moves, undisturbed, taken, take_pooled}
use ticklog.Segments.Helper.{Leaves, given_back-Holds, take_pooled-helper_lem}
use ticklog.Shared.{Shared, update, update_here}
use ticklog.Words.{u64_mod}
use mathlib.Core.Path.{subst}

-- `reserve_for_helper`
abbrev pub reserve_for_helper : Ring → Ring
reserve_for_helper r = record r { helper_reserved = true }

reserved-Holds : {r : Ring} {rs : List Bytes} → Holds r rs → Holds (reserve_for_helper r) rs
reserved-Holds v = record {
  bits = v.bits;
  power = v.power;
  whole = v.whole;
  large = v.large;
  mask_is = v.mask_is;
  head_aligned = v.head_aligned;
  cache_behind = v.cache_behind;
  caught_up = v.caught_up;
  room = v.room;
  frames = v.frames;
}

-- Take a pool segment that holds a queue, with its head below 2^64, is registered and not yet returned,
-- and that its producer has handed off but not yet reserved. If the drain visits it now, and then the
-- producer, which had found no spare, reserves it and calls take_pooled, undisturbed up to its look for a
-- spare, the producer gets that same segment while the pool still has it as a spare.
pub visit-take_pooled :
    (payload : Bytes → Bytes) (w : Shared) (a : ℕ) (rs : List Bytes) (waits : List (Moves × Moves))
    → Holds (w.store a) rs
    → (w.store a).head < u64_mod
    → (w.store a).helper_reserved ≡ false
    → ((w.store a).handed_off && has w.registry a) ≡ true
    → (w.installed && (w.store a).recyclable && not (w.store a).recycled) ≡ true
    → (v : Visit) × (w' : Shared) × (visit payload w (a, (w.store a).serial) ≡ some v)
      × (take_pooled payload
            (update v.after a reserve_for_helper)
            (some a)
            (some a)
            (undisturbed waits)
          ≡ taken a w')
      × (w'.spares ≡ a ∷ w.spares)
visit-take_pooled payload w a rs waits holds small free handed pooled =
    let (v, e, o) = visit_lem payload w a (w.store a).serial rs holds small refl free in
    let u = update v.after a reserve_for_helper in
    let here = update_here v.after a reserve_for_helper in
    let holds' : Holds (u.store a) [] =
      subst (λ r. Holds r []) (sym here) (reserved-Holds o.emptied_to) in
    let idle = ap (λ r. r.draining) here ∙ o.idle_at.0 in
    let below = subst (λ n. n < u64_mod) (sym (ap (λ r. r.head) here ∙ o.idle_at.1)) small in
    let m = undisturbed waits in
    let alone : Leaves (λ x. x) a = λ x. refl in
    let drained = given_back-Holds payload u a [] m holds' below idle alone alone alone in
    let (formatted, fresh, (w', taken', reissued, spares', lines', registry', others')) =
      take_pooled-helper_lem payload u a [] (some a) m a u.spares [] holds' below idle alone alone
        alone refl drained in
    (v, w', e, taken', spares' ∙ o.pooled_as ∙ kept (o.retired_as ∙ handed))
  where
    kept : {retired : Bool} → retired ≡ true → pool_after w a retired ≡ a ∷ w.spares
    kept h = ap (pool_after w a) h ∙ ap (λ c. if c then a ∷ w.spares else w.spares) pooled
