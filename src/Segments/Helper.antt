-- ===== src/Segments/Helper.antt =====
-- A producer that finds the pool exhausted formats its own segment and claims it back.
use ticklog.Base.{
  ℕ, ◌<◌, ◌≡◌, ◌≢◌, refl, ap, ◌∙◌, if◌then◌else◌, Bytes, true, false, sym, some, none, List, [],
  ◌∷◌, ◌++◌, map, Option,
}
use ticklog.Drain.{Delivery, deliver, drain_ring_inner}
use ticklog.Drain.Exact.{drain_ring_inner-exact}
use ticklog.Ring.{Ring, reset_for_reuse}
use ticklog.Ring.Fresh.{reset_for_reuse-Holds}
use ticklog.Ring.Holds.{Holds}
use ticklog.Segments.{
  Moves, Between, Taken, look, wait_spare, taken, take_pooled, format_helper_segment,
  format_segment, ring_and_lines, parked, after_help, try_take_spare, recycle, push_lines,
}
use ticklog.Shared.{Shared, update, update_here, update_there}
use mathlib.Core.Path.{subst}
use ticklog.Words.{u64_mod}

-- The ring behind the pass of a helper.
abbrev passed : Ring → Ring
passed r = record r { tail = r.head; head_cache = r.head }

module _ (payload : Bytes → Bytes) (r : Ring) (rs : List Bytes) (v : Holds r rs)
    (small : r.head < u64_mod) (idle : r.draining ≡ false) where
  format_segment-Holds : format_segment payload r ≡ some (passed r, map (deliver payload) rs)
  unfolding format_segment
  format_segment-Holds =
      ap (λ d. if d then none else ring_and_lines payload (drain_ring_inner payload r)) idle
      ∙ ap (ring_and_lines payload) (drain_ring_inner-exact r rs payload v small).0

-- The state behind the work of a helper, whose pass delivered `out` and left the segment as `passed`.
abbrev pub given_back : Shared → ℕ → List Delivery → Between → Shared
given_back w a out m =
    let found = m.before_push (update w a passed) in
    let pushed = record found { lines = found.lines ++ out } in
    let back = m.before_recycle (update (m.before_reset pushed) a reset_for_reuse) in
    record back { spares = a ∷ back.spares }

-- The others leave the ring of the segment alone.
abbrev pub Leaves : Moves → ℕ → Type 0
Leaves m a = (w : Shared) → (m w).store a ≡ w.store a

module _ (payload : Bytes → Bytes) (w : Shared) (a : ℕ) (rs : List Bytes) (m : Between)
    (v : Holds (w.store a) rs) (small : (w.store a).head < u64_mod)
    (idle : (w.store a).draining ≡ false) where
  format_helper_segment-given_back :
      format_helper_segment payload w a m ≡ some (given_back w a (map (deliver payload) rs) m)
  unfolding format_helper_segment recycle push_lines
  format_helper_segment-given_back =
      ap (parked payload w a m) (format_segment-Holds payload (w.store a) rs v small idle)

  given_back-ring :
      Leaves m.before_push a
      → Leaves m.before_reset a
      → Leaves m.before_recycle a
      → (given_back w a (map (deliver payload) rs) m).store a ≡ reset_for_reuse (passed (w.store a))
  given_back-ring p q r =
      let out = map (deliver payload) rs in
      let found = m.before_push (update w a passed) in
      let pushed = record found { lines = found.lines ++ out } in
      r (update (m.before_reset pushed) a reset_for_reuse)
      ∙ update_here (m.before_reset pushed) a reset_for_reuse
      ∙ ap reset_for_reuse (q pushed ∙ p (update w a passed) ∙ update_here w a passed)

-- A ring that can be handed out.
pub record IsFresh (r : Ring) : Type 0 where
  pub empty : Holds r []
  pub is_live : r.live ≡ true
  pub not_handed_off : r.handed_off ≡ false
  pub not_reserved : r.helper_reserved ≡ false

reset_for_reuse-IsFresh : {r : Ring} {rs : List Bytes} → Holds r rs → IsFresh (reset_for_reuse r)
unfolding reset_for_reuse
reset_for_reuse-IsFresh v = record {
  empty = (reset_for_reuse-Holds v).0;
  is_live = refl;
  not_handed_off = refl;
  not_reserved = refl;
}

pub given_back-Holds :
    (payload : Bytes → Bytes) (w : Shared) (a : ℕ) (rs : List Bytes) (m : Between)
    → Holds (w.store a) rs
    → (w.store a).head < u64_mod
    → (w.store a).draining ≡ false
    → Leaves m.before_push a
    → Leaves m.before_reset a
    → Leaves m.before_recycle a
    → Holds ((given_back w a (map (deliver payload) rs) m).store a) []
given_back-Holds payload w a rs m v small idle p q r =
    subst (λ x. Holds x []) (sym (given_back-ring payload w a rs m v small idle p q r))
      (reset_for_reuse-Holds (drain_ring_inner-exact (w.store a) rs payload v small).1).0

claims :
    (live : Option ℕ) (u : Shared) (rest : Taken) (b : ℕ) (others : List ℕ)
    → u.spares ≡ b ∷ others
    → look live u rest (try_take_spare u)
      ≡ taken b (update (record u { spares = others }) b reset_for_reuse)
unfolding try_take_spare
claims live u rest b others e = rw e refl

-- For a producer whose segment holds a queue, with its head below 2^64 and no pass of the drain
-- under way, and whatever the other threads do between its steps, as long as they leave the ring of
-- that segment alone until it is in the pool: take_pooled puts the payloads of the queue in order
-- behind the lines that it then finds, and gives the segment back as the pool's last spare, holding
-- the empty queue, live and neither handed off nor reserved. If it then finds a pool with a last
-- spare, its own or another, whose ring holds a queue, it returns at once with that spare, which is
-- no longer in the pool, holds the empty queue, is live and is neither handed off nor reserved; the
-- rest of the pool, the lines, the registry and all other rings are as it found them.
pub take_pooled-helper_lem :
    (payload : Bytes → Bytes) (w : Shared) (a : ℕ) (rs : List Bytes) (live : Option ℕ) (m : Between)
    (b : ℕ) (others : List ℕ) (qs : List Bytes)
    → Holds (w.store a) rs
    → (w.store a).head < u64_mod
    → (w.store a).draining ≡ false
    → Leaves m.before_push a
    → Leaves m.before_reset a
    → Leaves m.before_recycle a
    → let back = given_back w a (map (deliver payload) rs) m in
      let found = m.before_look back in
      found.spares ≡ b ∷ others
      → Holds (found.store b) qs
      → (format_helper_segment payload w a m ≡ some back)
        × IsFresh (back.store a)
        × ((w' : Shared) × (take_pooled payload w (some a) live m ≡ taken b w')
            × IsFresh (w'.store b)
            × (w'.spares ≡ others)
            × (w'.lines ≡ found.lines)
            × (w'.registry ≡ found.registry)
            × ((c : ℕ) → c ≢ b → w'.store c ≡ found.store c))
unfolding take_pooled
take_pooled-helper_lem payload w a rs live m b others qs v small idle p q r pool held =
    let back = given_back w a (map (deliver payload) rs) m in
    let found = m.before_look back in
    let one_less = record found { spares = others } in
    let formatted = format_helper_segment-given_back payload w a rs m v small idle in
    let drained = (drain_ring_inner-exact (w.store a) rs payload v small).1 in
    (
      formatted,
      subst IsFresh (sym (given_back-ring payload w a rs m v small idle p q r))
          (reset_for_reuse-IsFresh drained),
      (
        update one_less b reset_for_reuse,
        ap (after_help payload live m) formatted
            ∙ claims live found (wait_spare live found m.waits) b others pool,
        subst IsFresh (sym (update_here one_less b reset_for_reuse)) (reset_for_reuse-IsFresh held),
        refl,
        refl,
        refl,
        λ c n. update_there one_less b c reset_for_reuse n,
      ),
    )
