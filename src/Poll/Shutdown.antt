-- ===== src/Poll/Shutdown.antt =====
-- The last drain of rings whose producers are gone, and the end of the drain's loop.
use ticklog.Poll.Finalize.{Waits, none_wait, waiting, Waits-congr, finalize_lem}
use ticklog.Base.{
  ℕ, ◌+◌, ◌*◌, ◌%◌, ◌^◌, min, ◌<◌, ◌≡◌, refl, sym, ap, arith, ◌∙◌, ◌&&◌, Bytes, Bool, true, false,
  not, some, [], ◌∷◌, List, has, keep_if, ◌==◌, ==_iff, ◌>>=◌, if◌then◌else◌, append-nil, distinct,
  Bool-cases, inl, inr,
}
use ticklog.Guard.{set_dead, set_all_dead, drop_guard}
use ticklog.Poll.{
  Entry, addresses, keep, resync, to_finalize, sync_rings, poll_once, flush_lines, poll_loop,
}
use ticklog.Poll.Pass.{deliveries}
use ticklog.Poll.Resync.{resync_lem}
use ticklog.Poll.Run.{
  Loop, synced, polled, flushed, spun, spin_cap, sync, sync_due, sync_when, poll, idle, after_poll,
  loop_turn, final_pass,
}
use ticklog.Ring.{Ring}
use ticklog.Ring.Holds.{Holds}
use ticklog.Segments.{take_lines}
use ticklog.Shared.{Shared, update, update_here, update_there}
use ticklog.Words.{u64_mod}
use mathlib.Core.Path.{subst}

-- a list that keeps all, and one that keeps nothing
keep_if-all :
    (p : ℕ → Bool) (xs : List ℕ) → ((b : ℕ) → has xs b ≡ true → p b ≡ true) → keep_if p xs ≡ xs
keep_if-all p [] h = refl
keep_if-all p (x ∷ xs) h =
    let here = h x (ground (arith, (==_iff x x).1 refl)) in
    rw here (ap (λ t. x ∷ t) (keep_if-all p xs (λ b m. h b (ground arith))))

keep_if-none :
    (p : ℕ → Bool) (xs : List ℕ) → ((b : ℕ) → has xs b ≡ true → p b ≡ false) → keep_if p xs ≡ []
keep_if-none p [] h = refl
keep_if-none p (x ∷ xs) h =
    let here = h x (ground (arith, (==_iff x x).1 refl)) in
    rw here (keep_if-none p xs (λ b m. h b (ground arith)))

no_entries : (es : List Entry) → ((b : ℕ) → has (addresses es) b ≡ false) → es ≡ []
no_entries [] h = refl
no_entries ((a, s) ∷ es) h = absurd (ground (arith, h a, (==_iff a a).1 refl))

module _ (payload : Bytes → Bytes) (l : Loop) (queues : List (List Bytes))
    (d : distinct l.world.registry ≡ true) (once : distinct (addresses l.rings) ≡ true)
    (known : (b : ℕ) → has (addresses l.rings) b ≡ true → has l.world.registry b ≡ true)
    (gone : (b : ℕ) → has l.world.registry b ≡ true → (l.world.store b).live ≡ false)
    (s : Waits l.world l.world.registry queues)
    (free : (b : ℕ)
      → has l.world.registry b ≡ true
      → (l.world.store b).helper_reserved ≡ false) where
  not_kept : (b : ℕ) → has l.world.registry b ≡ true → keep l.world b ≡ false
  not_kept b m = ground (arith, gone b m, free b m)

  all_finalized : to_finalize l.world l.rings ≡ l.world.registry
  unfolding to_finalize
  all_finalized =
      let p = λ (a : ℕ). not (keep l.world a) in
      let q = λ (a : ℕ). not (keep l.world a) && not (has l.world.registry a) in
      let whole = keep_if-all p l.world.registry (λ b m. ap not (not_kept b m)) in
      let nothing = keep_if-none q (addresses l.rings) (λ b m. ground (arith, known b m)) in
      rw (whole, nothing) (append-nil l.world.registry)

  none_stay : resync l.world l.rings ≡ []
  none_stay = no_entries _ (λ b. (resync_lem l.world l.rings once).1 b ∙ ground (arith, not_kept b))

  -- The sync drains every ring for the last time, and the drain's list is empty.
  sync-final :
      (w' : Shared) × (sync payload l
        ≡ some (record l { world = w'; rings = [] }, synced (deliveries payload queues) ∷ []))
  unfolding sync sync_rings
  sync-final =
      let w = record l.world { registry = keep_if (keep l.world) l.world.registry } in
      let (w', run, reg) =
        finalize_lem payload w l.world.registry queues d (Waits-congr (λ b m. refl) s) in
      (w', rw (all_finalized, run, none_stay) refl)

-- Nothing is left to poll.
poll_once-nothing :
    (payload : Bytes → Bytes) (w : Shared)
    → poll_once payload false w []
      ≡ some (record { had_work = false; rings = []; world = w; out = [] })
unfolding poll_once poll_loop flush_lines take_lines
poll_once-nothing payload w = refl

dead-Holds : {r : Ring} {rs : List Bytes} → Holds r rs → Holds (set_dead r) rs
dead-Holds v = record {
  bits = v.bits;
  power = v.power;
  whole = v.whole;
  large = v.large;
  mask_is = v.mask_is;
  head_aligned = v.head_aligned;
  cache_behind = v.cache_behind;
  caught_up = v.caught_up;
  room = v.room;
  frames = v.frames;
}

set_all_dead-registry : (w : Shared) (dead : List ℕ) → (set_all_dead w dead).registry ≡ w.registry
unfolding set_all_dead
set_all_dead-registry w [] = refl
set_all_dead-registry w (a ∷ dead) = set_all_dead-registry (update w a set_dead) dead

same_either : (c : Bool) (r : Ring) → (if c then r else r) ≡ r
same_either true r = refl
same_either false r = refl

-- A ring of the list is marked, once or more, and another is not touched.
set_all_dead-store :
    (w : Shared) (dead : List ℕ) (b : ℕ)
    → (set_all_dead w dead).store b ≡ (if has dead b then set_dead (w.store b) else w.store b)
unfolding set_all_dead
set_all_dead-store w [] b = refl
set_all_dead-store w (a ∷ dead) b = elim (Bool-cases (a == b)) [
  | inl e ↦
      let eq = (==_iff a b).0 e in
      let here : (update w a set_dead).store b ≡ set_dead (w.store b) =
        subst (λ c. (update w a set_dead).store c ≡ set_dead (w.store c)) eq
          (update_here w a set_dead) in
      rw (set_all_dead-store (update w a set_dead) dead b, here, e)
        (same_either (has dead b) (set_dead (w.store b)))
  | inr e ↦
      let other = update_there w a b set_dead (λ eq. ground (arith, (==_iff a b).1 (sym eq))) in
      rw (set_all_dead-store (update w a set_dead) dead b, other, e) refl
]

Waits-dead :
    {w w' : Shared} {dead : List ℕ} {queues : List (List Bytes)}
    → ((b : ℕ) → has dead b ≡ true → w'.store b ≡ set_dead (w.store b))
    → Waits w dead queues
    → Waits w' dead queues
Waits-dead same none_wait = none_wait
Waits-dead {w} {w'} same (waiting {a} {rest} {rs} h s f more) =
    let e' = sym (same a (ground (arith, (==_iff a a).1 refl))) in
    waiting (subst (λ r. Holds r rs) e' (dead-Holds h)) (subst (λ r. r.head < u64_mod) e' s)
      (subst (λ r. r.helper_reserved ≡ false) e' f) (Waits-dead (λ b p. same b (ground arith)) more)

Waits-free :
    {w : Shared} {dead : List ℕ} {queues : List (List Bytes)}
    → Waits w dead queues
    → (b : ℕ) → has dead b ≡ true
    → (w.store b).helper_reserved ≡ false
Waits-free none_wait b m = absurd (ground arith)
Waits-free {w} (waiting {a} {rest} h s f more) b m = elim (Bool-cases (a == b)) [
  | inl e ↦ subst (λ c. (w.store c).helper_reserved ≡ false) ((==_iff a b).0 e) f
  | inr e ↦ Waits-free more b (ground arith)
]

-- With no segmented policy, when no ring is registered twice or listed twice, every listed ring is
-- registered, and every registered ring holds a queue: once the guard is dropped, the drain's final
-- pass ends, and it delivers the queues of all registered rings whole, one ring after the other in the
-- order of the registry, and flushes the sink behind them.
pub final_pass-drop_guard :
    (payload : Bytes → Bytes) (l : Loop) (queues : List (List Bytes))
    → distinct l.world.registry ≡ true
    → distinct (addresses l.rings) ≡ true
    → ((b : ℕ) → has (addresses l.rings) b ≡ true → has l.world.registry b ≡ true)
    → Waits l.world l.world.registry queues
    → final_pass payload false (record l { world = drop_guard l.world })
      ≡ some (synced (deliveries payload queues) ∷ polled false [] ∷ flushed ∷ [])
unfolding final_pass drop_guard
final_pass-drop_guard payload l queues d once known s =
    let w = set_all_dead l.world l.world.registry in
    let reg = set_all_dead-registry l.world l.world.registry in
    let marked : (b : ℕ) → has l.world.registry b ≡ true → w.store b ≡ set_dead (l.world.store b) =
      λ b m.
        set_all_dead-store l.world l.world.registry b
        ∙ ap (λ c. if c then set_dead (l.world.store b) else l.world.store b) m in
    let s' = Waits-dead marked s in
    let (w', run) =
      sync-final payload (record l { world = w }) queues (ap distinct reg ∙ d) once
        (λ b m. ap (λ t. has t b) reg ∙ known b m)
        (λ b m. ap (λ r. r.live) (marked b (sym (ap (λ t. has t b) reg) ∙ m)))
        (subst (λ t. Waits w t queues) (sym reg) s')
        (λ b m. Waits-free s' b (sym (ap (λ t. has t b) reg) ∙ m)) in
    rw (run, poll_once-nothing payload w') refl

-- With no segmented policy, in a turn in which a sync is due and nothing is left to flush: when no
-- ring is registered twice or listed twice, every listed ring is registered, and all registered
-- rings are dead, not reserved and hold queues, with their heads below 2^64: their queues are
-- delivered, and the drain goes on to spin without a flush.
pub loop_turn-unflushed :
    (payload : Bytes → Bytes) (l : Loop) (queues : List (List Bytes))
    → sync_due false l.since_sync ≡ true
    → l.dirty ≡ false
    → distinct l.world.registry ≡ true
    → distinct (addresses l.rings) ≡ true
    → ((b : ℕ) → has (addresses l.rings) b ≡ true → has l.world.registry b ≡ true)
    → ((b : ℕ) → has l.world.registry b ≡ true → (l.world.store b).live ≡ false)
    → Waits l.world l.world.registry queues
    → (l' : Loop) × (loop_turn payload false l
        ≡ some (l', synced (deliveries payload queues) ∷ polled false [] ∷ spun l.spin ∷ []))
unfolding loop_turn after_poll idle
loop_turn-unflushed payload l queues due clean d once known gone s =
    let (w', run) = sync-final payload l queues d once known gone s (Waits-free s) in
    let l' = record l {
      world = w';
      rings = [];
      spin = min (l.spin * 2 % 2 ^ 32) spin_cap;
      since_sync = (l.since_sync + 1) % 2 ^ 32;
      dirty = false;
    } in
    (
      l',
      ap (λ c. sync_when payload false c l >>= poll payload false) due
          ∙ rw (run, poll_once-nothing payload w', clean) refl,
    )
