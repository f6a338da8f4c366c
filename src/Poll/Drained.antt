-- ===== src/Poll/Drained.antt =====
-- The pass over one ring that holds a queue.
use ticklog.Base.{ℕ, ◌<◌, ◌≡◌, ◌≢◌, sym, ap, ◌∙◌, Bytes, Bool, true, false, some, [], List, map}
use ticklog.Drain.{deliver, drain_ring_inner}
use ticklog.Drain.Exact.{worked, drain_ring_inner-exact}
use ticklog.Poll.{drain_ring, in_place}
use ticklog.Ring.{Ring}
use ticklog.Ring.Holds.{Holds}
use ticklog.Shared.{Shared, update, update_here, update_there}
use ticklog.Words.{u64_mod}
use mathlib.Core.Path.{subst}

-- The flags of the drain do not matter to the queue.
pub flags-Holds :
    {r : Ring} {rs : List Bytes} (d c : Bool)
    → Holds r rs
    → Holds (record r { draining = d; recycled = c }) rs
flags-Holds d c v = record {
  bits = v.bits;
  power = v.power;
  whole = v.whole;
  large = v.large;
  mask_is = v.mask_is;
  head_aligned = v.head_aligned;
  cache_behind = v.cache_behind;
  caught_up = v.caught_up;
  room = v.room;
  frames = v.frames;
}

abbrev pub flagged : Bool → Ring → Ring
flagged d r = record r { draining = d }

-- the ring behind a pass
abbrev pub emptied : Ring → Ring
emptied r = record r { tail = r.head; head_cache = r.head; draining = false }

abbrev pub drained_at : Shared → ℕ → Shared
drained_at w a =
    let r = w.store a in
    update
      (update (update w a (flagged true)) a
        (λ _. record r { draining = true; tail = r.head; head_cache = r.head }))
      a (flagged false)

pub drained_at-here : (w : Shared) (a : ℕ) → (drained_at w a).store a ≡ emptied (w.store a)
drained_at-here w a =
    let r = w.store a in
    let w' = update w a (flagged true) in
    let f : Ring → Ring = λ _. record r { draining = true; tail = r.head; head_cache = r.head } in
    update_here (update w' a f) a (flagged false) ∙ ap (flagged false) (update_here w' a f)

pub drained_at-there : (w : Shared) (a b : ℕ) → b ≢ a → (drained_at w a).store b ≡ w.store b
drained_at-there w a b n =
    let r = w.store a in
    let w' = update w a (flagged true) in
    let f : Ring → Ring = λ _. record r { draining = true; tail = r.head; head_cache = r.head } in
    update_there (update w' a f) a b (flagged false) n
    ∙ update_there w' a b f n
    ∙ update_there w a b (flagged true) n

module _ (payload : Bytes → Bytes) (w : Shared) (a : ℕ) (rs : List Bytes) (v : Holds (w.store a) rs)
    (small : (w.store a).head < u64_mod) where
  pub drain_ring-drained :
      drain_ring payload w a ≡ some (worked false rs, drained_at w a, map (deliver payload) rs)
  unfolding drain_ring
  drain_ring-drained =
      let r = flagged true (w.store a) in
      ap (λ x. in_place payload (update w a (flagged true)) a (drain_ring_inner payload x))
        (update_here w a (flagged true))
      ∙ ap (in_place payload (update w a (flagged true)) a)
          (drain_ring_inner-exact r rs payload (flags-Holds true (w.store a).recycled v) small).0

  pub drained_at-Holds : Holds ((drained_at w a).store a) []
  drained_at-Holds =
      subst (λ r. Holds r []) (sym (drained_at-here w a))
        (flags-Holds false (w.store a).recycled
          (drain_ring_inner-exact (w.store a) rs payload v small).1)
