-- ===== src/Poll/Sweep.antt =====
-- A whole pass of the drain over segments, of which it retires the full ones.
use ticklog.Base.{
  ℕ, zero, suc, ◌≤◌, ◌≡◌, refl, sym, ap, ◌∙◌, arith, Bytes, Bool, true, false, some, List, [], ◌∷◌,
  ◌++◌, map, length, has, distinct, ==_iff, append-nil, append_assoc, Bool-cases, inl, inr,
}
use ticklog.Drain.{deliver}
use ticklog.Poll.{
  Poll, Visit, Entry, addresses, visited, poll_loop, poll_once, flush_lines, swap_out,
}
use ticklog.Poll.Disorder.{Listed-others, visits, loop_gone}
use ticklog.Poll.Entries.{length-last_first, distinct-last_first, has-last_first}
use ticklog.Poll.Pass.{deliveries, poll_step}
use ticklog.Poll.Rearranged.{
  Segment, entries, queues, still_written, AllListed, last_first-Rearranged,
}
use ticklog.Poll.Retire.{Visited}
use ticklog.Ring.Holds.{Holds}
use ticklog.Shared.{Shared}
use mathlib.Core.Path.{subst}
use mathlib.Core.List.{Perm}
use mathlib.Core.List.Perm

module _ (payload : Bytes → Bytes) where
  AllListed-others :
      (w : Shared) (v : Visit) (a : ℕ) (qs : List Bytes) (is : List Segment)
      → Visited payload w a qs v
      → has (addresses (entries is)) a ≡ false
      → AllListed w is
      → AllListed v.after is
  AllListed-others w v a qs [] o n l = tt
  AllListed-others w v a qs (i ∷ is) o n l = (
    Listed-others payload i.at i.serial i.queue i.full o (λ e. ground (arith, (==_iff i.at a).1 e))
        l.0,
    AllListed-others w v a qs is o (ground arith) l.1,
  )

  -- What a pass over the segments `is` comes to: the order in which their queues were delivered, and the rest.
  pub record Swept (p : Poll) (is : List Segment) (p' : Poll) : Type 0 where
    pub order : List Segment
    pub all_once : Perm order is
    pub delivered : p'.out ≡ p.out ++ deliveries payload (queues order)
    pub left : p'.rings ≡ p.rings ++ entries (still_written order)
    pub others :
        (b : ℕ) → has (addresses (entries is)) b ≡ false → p'.world.store b ≡ p.world.store b
    pub emptied : (b : ℕ) → has (addresses (entries is)) b ≡ true → Holds (p'.world.store b) []

  module _ (p q p' : Poll) (i : Segment) (is js : List Segment) (v : Visit)
      (o : Visited payload p.world i.at i.queue v) (world_is : q.world ≡ v.after)
      (out_is : q.out ≡ p.out ++ v.out)
      (rings_is : (order : List Segment)
        → q.rings ++ entries (still_written order) ≡ p.rings ++ entries (still_written (i ∷ order)))
      (perm : Perm js is)
      (same : (b : ℕ) → has (addresses (entries js)) b ≡ has (addresses (entries is)) b)
      (once : has (addresses (entries is)) i.at ≡ false) where
    first-Swept : Swept q js p' → Swept p (i ∷ is) p'
    first-Swept s = record {
      order = i ∷ s.order;
      all_once = Perm.cons i (Perm.trans s.all_once perm);
      delivered =
          s.delivered
          ∙ ap (λ t. t ++ deliveries payload (queues s.order))
              (out_is ∙ ap (λ t. p.out ++ t) o.delivered)
          ∙ append_assoc p.out (map (deliver payload) i.queue)
              (deliveries payload (queues s.order));
      left = s.left ∙ rings_is s.order;
      others = λ b n.
          s.others b (same b ∙ ground arith)
          ∙ ap (λ w. w.store b) world_is
          ∙ o.others b (λ e. ground (arith, (==_iff i.at b).1 (sym e)));
      emptied = λ b y. elim (Bool-cases (has (addresses (entries is)) b)) [
        | inl later ↦ s.emptied b (same b ∙ later)
        | inr now ↦
            let here : i.at ≡ b = (==_iff i.at b).0 (ground arith) in
            subst (λ r. Holds r []) (sym (s.others b (same b ∙ now) ∙ ap (λ w. w.store b) world_is))
              (subst (λ c. Holds (v.after.store c) []) here o.emptied_to)
      ];
    }

  written_full :
      (i : Segment) (rings : List Entry) (order : List Segment)
      → i.full ≡ true
      → rings ++ entries (still_written order) ≡ rings ++ entries (still_written (i ∷ order))
  written_full i rings order e = rw e refl

  written_on :
      (i : Segment) (rings : List Entry) (order : List Segment)
      → i.full ≡ false
      → (rings ++ (i.at, i.serial) ∷ []) ++ entries (still_written order)
        ≡ rings ++ entries (still_written (i ∷ order))
  written_on i rings order e =
      rw e (append_assoc rings ((i.at, i.serial) ∷ []) (entries (still_written order)))

  poll_loop-Swept :
      (fuel : ℕ) (p : Poll) (is : List Segment)
      → length (entries is) ≤ fuel
      → distinct (addresses (entries is)) ≡ true
      → AllListed p.world is
      → (p' : Poll) × (poll_loop payload fuel p (entries is) ≡ some p') × Swept p is p'
  unfolding poll_loop swap_out
  poll_loop-Swept fuel p [] h d l = (
    p,
    refl,
    record {
      order = [];
      all_once = Perm.refl [];
      delivered = sym (append-nil p.out);
      left = sym (append-nil p.rings);
      others = λ b n. refl;
      emptied = λ b y. absurd (ground arith);
    },
  )
  poll_loop-Swept zero p (i ∷ is) h d l = absurd (omega arith)
  poll_loop-Swept (suc fuel) p (i ∷ is) h d l =
      let (v, e, o, r) = visits payload p.world i.at i.serial i.queue i.full l.0 in
      let once : has (addresses (entries is)) i.at ≡ false = ground arith in
      let l' = AllListed-others p.world v i.at i.queue is o once l.1 in
      elim (Bool-cases i.full) [
        | inl full ↦
            let (js, ej, lj, perm) = last_first-Rearranged v.after [] is tt l' in
            let q = visited p v in
            let (p', run, s) =
              poll_loop-Swept fuel q js
                (omega (arith, ap length ej, length-last_first [] (entries is)))
                (ap (λ es. distinct (addresses es)) (sym ej)
                  ∙ distinct-last_first [] (entries is) refl (ground arith) (λ b. refl))
                lj in
            (
              p',
              loop_gone payload fuel p (i.at, i.serial) (entries is) v e (r ∙ full)
                  ∙ ap (poll_loop payload fuel q) ej
                  ∙ run,
              first-Swept p q p' i is js v o refl refl (λ order. written_full i p.rings order full)
                  perm
                  (λ b. ap (λ es. has (addresses es) b) (sym ej) ∙ has-last_first [] (entries is) b)
                  once s,
            )
        | inr on ↦
            let q = record (visited p v) { rings = p.rings ++ (i.at, i.serial) ∷ [] } in
            let (p', run, s) = poll_loop-Swept fuel q is (omega arith) (ground arith) l' in
            (
              p',
              poll_step payload fuel p (i.at, i.serial) (entries is) v e (r ∙ on) ∙ run,
              first-Swept p q p' i is is v o refl refl (λ order. written_on i p.rings order on)
                  (Perm.refl is) (λ b. refl) once s,
            )
      ]

  -- When the drain's list names no segment twice and each is current, not reserved and holds a queue, with its
  -- head below 2^64, the full ones being those that are handed off and registered: the loop of poll_once ends,
  -- and poll_once with it, which only has the helpers' lines to flush behind it. The loop delivers each queue
  -- whole and once, one behind the other in some order, leaves in the list the segments that are not full, in
  -- that order, leaves each ring of the list holding the empty queue and touches no other ring.
  pub poll_once-Swept :
      (segmented : Bool) (w : Shared) (is : List Segment)
      → distinct (addresses (entries is)) ≡ true
      → AllListed w is
      → let p : Poll = record { had_work = false; rings = []; world = w; out = [] } in
        (p' : Poll) × Swept p is p'
        × (poll_loop payload (length (entries is)) p (entries is) ≡ some p')
        × (poll_once payload segmented w (entries is) ≡ some (flush_lines segmented p'))
  unfolding poll_once
  poll_once-Swept segmented w is d l =
      let (p', run, s) =
        poll_loop-Swept (length (entries is))
          (record { had_work = false; rings = []; world = w; out = [] }) is (omega arith) d l in
      (p', s, run, rw run refl)
