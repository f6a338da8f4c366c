-- ===== src/Poll/Pass.antt =====
-- A whole pass of the drain over live rings.
use ticklog.Base.{
  ℕ, zero, suc, ◌≤◌, ◌<◌, ◌≡◌, refl, sym, ap, arith, ◌∙◌, ◌&&◌, ◌||◌, ◌++◌, Bytes, Bool, true,
  false, some, [], ◌∷◌, List, map, length, has, ==_iff, append-nil, append_assoc, distinct,
  Bool-cases, inl, inr,
}
use ticklog.Drain.{Delivery, deliver}
use ticklog.Drain.Exact.{worked}
use ticklog.Poll.{Entry, Poll, Visit, addresses, visit, visited, poll_loop, poll_once, flush_lines}
use ticklog.Poll.Retire.{visit_lem}
use ticklog.Ring.Holds.{Holds}
use ticklog.Segments.{take_lines}
use ticklog.Shared.{Shared}
use ticklog.Words.{u64_mod}
use mathlib.Core.Path.{subst}

-- Every ring of the list is one that the drain serves and keeps: current, with a queue, not reserved
-- and not handed off. `queues` are their queues, in the order of the list.
pub data Serves (w : Shared) : List Entry → List (List Bytes) → Type 0 where
  none_left : Serves w [] []
  serving :
      {a serial : ℕ} {rest : List Entry} {rs : List Bytes} {queues : List (List Bytes)}
      → Holds (w.store a) rs
      → (w.store a).head < u64_mod
      → (w.store a).serial ≡ serial
      → (w.store a).helper_reserved ≡ false
      → (w.store a).handed_off ≡ false
      → Serves w rest queues
      → Serves w ((a, serial) ∷ rest) (rs ∷ queues)

-- Rings that did not change are served as before.
Serves-congr :
    {w w' : Shared} {rings : List Entry} {queues : List (List Bytes)}
    → ((b : ℕ) → has (addresses rings) b ≡ true → w'.store b ≡ w.store b)
    → Serves w rings queues
    → Serves w' rings queues
Serves-congr same none_left = none_left
Serves-congr {w} {w'} same (serving {a} {serial} {rest} {rs} h s e f g more) =
    let e' = sym (same a (ground (arith, (==_iff a a).1 refl))) in
    serving (subst (λ r. Holds r rs) e' h) (subst (λ r. r.head < u64_mod) e' s)
      (subst (λ r. r.serial ≡ serial) e' e) (subst (λ r. r.helper_reserved ≡ false) e' f)
      (subst (λ r. r.handed_off ≡ false) e' g) (Serves-congr (λ b p. same b (ground arith)) more)

module _ (payload : Bytes → Bytes) where
  abbrev pub deliveries : List (List Bytes) → List Delivery
  deliveries [] = []
  deliveries (rs ∷ queues) = map (deliver payload) rs ++ deliveries queues

  abbrev pub any_work : List (List Bytes) → Bool
  any_work [] = false
  any_work (rs ∷ queues) = worked false rs || any_work queues

  pub poll_step :
      (fuel : ℕ) (p : Poll) (e : Entry) (rest : List Entry) (x : Visit)
      → visit payload p.world e ≡ some x
      → x.retired ≡ false
      → poll_loop payload (suc fuel) p (e ∷ rest)
        ≡ poll_loop payload fuel (record (visited p x) { rings = p.rings ++ e ∷ [] }) rest
  unfolding poll_loop
  poll_step fuel p e rest x run still = rw (run, still) refl

  poll_loop_lem :
      (fuel : ℕ) (p : Poll) (rings : List Entry) (queues : List (List Bytes))
      → length rings ≤ fuel
      → distinct (addresses rings) ≡ true
      → Serves p.world rings queues
      → (p' : Poll) × (poll_loop payload fuel p rings ≡ some p')
        × (p'.out ≡ p.out ++ deliveries queues)
        × (p'.had_work ≡ (p.had_work || any_work queues))
        × (p'.rings ≡ p.rings ++ rings)
        × ((b : ℕ) → has (addresses rings) b ≡ false → p'.world.store b ≡ p.world.store b)
        × ((b : ℕ) → has (addresses rings) b ≡ true → Holds (p'.world.store b) [])
  unfolding poll_loop
  poll_loop_lem fuel p [] [] h d none_left = (
    p,
    refl,
    sym (append-nil p.out),
    ground arith,
    sym (append-nil p.rings),
    λ b n. refl,
    λ b y. absurd (ground arith),
  )
  poll_loop_lem zero p (e ∷ rings) queues h d s = absurd (omega arith)
  poll_loop_lem fuel p [] (rs ∷ queues) h d s = elim s [ ]
  poll_loop_lem (suc fuel) p ((a, serial) ∷ rings) [] h d s = elim s [ ]
  poll_loop_lem (suc fuel) p ((a, serial) ∷ rings) (rs ∷ queues) h d (serving v small e f g more) =
      let (x, run, o) = visit_lem payload p.world a serial rs v small e f in
      let still : x.retired ≡ false = o.retired_as ∙ ap (λ c. c && has p.world.registry a) g in
      let q = record (visited p x) { rings = p.rings ++ (a, serial) ∷ [] } in
      let same : (b : ℕ) → has (addresses rings) b ≡ true → x.after.store b ≡ p.world.store b =
        λ b m. o.others b (λ eq. ground (arith, ap (has (addresses rings)) eq)) in
      let (p', rest, out', work', rings', others', empty') =
        poll_loop_lem fuel q rings queues (omega arith) (ground arith) (Serves-congr same more) in
      (
        p',
        poll_step fuel p (a, serial) rings x run still ∙ rest,
        out'
            ∙ append_assoc p.out x.out (deliveries queues)
            ∙ ap (λ t. p.out ++ (t ++ deliveries queues)) o.delivered,
        ground (arith, work', o.worked_as),
        rings' ∙ append_assoc p.rings ((a, serial) ∷ []) rings,
        λ b n.
            others' b (ground arith) ∙ o.others b (λ eq. ground (arith, (==_iff a b).1 (sym eq))),
        λ b y. elim (Bool-cases (has (addresses rings) b)) [
          | inl in_rest ↦ empty' b in_rest
          | inr out_rest ↦
              let eq : a ≡ b = (==_iff a b).0 (ground arith) in
              subst (λ r. Holds r []) (sym (others' b out_rest))
                (subst (λ c. Holds (x.after.store c) []) eq o.emptied_to)
        ],
      )

-- With no segmented policy, when the drain's list names no ring twice and every ring of it is
-- current, not reserved, not handed off and holds a queue: a pass of poll_once delivers the queues
-- whole, ring by ring in the order of the list, reports work just when one of them is not empty,
-- keeps the list as it is, leaves each of its rings holding the empty queue and touches no other
-- ring.
pub poll_once-Serves :
    (payload : Bytes → Bytes) (w : Shared) (rings : List Entry) (queues : List (List Bytes))
    → distinct (addresses rings) ≡ true
    → Serves w rings queues
    → (p : Poll) × (poll_once payload false w rings ≡ some p)
      × (p.out ≡ deliveries payload queues)
      × (p.had_work ≡ any_work payload queues)
      × (p.rings ≡ rings)
      × ((b : ℕ) → has (addresses rings) b ≡ false → p.world.store b ≡ w.store b)
      × ((b : ℕ) → has (addresses rings) b ≡ true → Holds (p.world.store b) [])
unfolding poll_once flush_lines take_lines
poll_once-Serves payload w rings queues d s =
    let (p, run, out, work, kept, others, empty) =
      poll_loop_lem payload (length rings)
        (record { had_work = false; rings = []; world = w; out = [] }) rings queues (omega arith) d
        s in
    (p, rw run refl, out, work, kept, others, empty)
