-- ===== src/Poll.antt =====
-- src/drain.rs, the drain thread's view of the shared rings: `sync_rings`, `poll_once`, `maybe_retire`
-- and the pass over one ring. The sink's side is the list of deliveries, in order. A visit of one ring
-- runs as one step.
pub mod Entries
pub mod Resync
pub mod Drained
pub mod GiveBack
pub mod Retire
pub mod Race
pub mod Pass
pub mod Run
pub mod Flush
pub mod Finalize
pub mod Shutdown
pub mod Disorder
pub mod Rearranged
pub mod Sweep
use ticklog.Base.{
  ℕ, zero, suc, ◌≡◌, ◌&&◌, ◌||◌, ◌++◌, Bytes, Bool, true, false, not, Option, none, some, [], ◌∷◌,
  List, map, length, ◌==◌, if◌then◌else◌, has, keep_if, ◌>>=◌,
}
use ticklog.Drain.{Delivery, drain_ring_inner}
use ticklog.Ring.{Ring}
use ticklog.Segments.{drain_recycle, take_lines}
use ticklog.Shared.{Shared, update}

-- A ring of the drain's own list, with the serial of its registration.
abbrev pub Entry : Type 0
Entry = ℕ × ℕ

abbrev pub addresses : List Entry → List ℕ
addresses [] = []
addresses ((a, serial) ∷ rest) = a ∷ addresses rest

-- the closure `keep` of `sync_rings`
abbrev pub keep : Shared → ℕ → Bool
keep w a = (w.store a).live || (w.store a).helper_reserved

abbrev pub last_first : List Entry → List Entry → List Entry
last_first passed [] = passed
last_first passed (e ∷ []) = e ∷ passed
last_first passed (e ∷ f ∷ rest) = last_first (passed ++ e ∷ []) (f ∷ rest)

-- `swap_remove(i)` on the entries from `i` on, without the one at `i`: the last takes its place.
unfoldable pub swap_out : List Entry → List Entry
swap_out rest = last_first [] rest

-- The entries that are still registered, each with the serial of now; `done` are those before the
-- index. Each turn passes or removes an entry, so their number is enough fuel.
unfoldable pub reconcile : ℕ → Shared → List Entry → List Entry → List Entry
reconcile fuel w done [] = done
reconcile zero w done (e ∷ rest) = done
reconcile (suc fuel) w done ((a, serial) ∷ rest) =
    let kept = reconcile fuel w (done ++ (a, (w.store a).serial) ∷ []) rest in
    let removed = reconcile fuel w done (swap_out rest) in
    if has w.registry a && keep w a then kept else removed

-- The registered rings that the list has not yet.
unfoldable pub add_new : Shared → List ℕ → List Entry → List Entry
add_new w [] rings = rings
add_new w (a ∷ registry) rings =
    let rings' =
      if keep w a && not (has (addresses rings) a)
      then rings ++ (a, (w.store a).serial) ∷ []
      else rings in
    add_new w registry rings'

unfoldable pub resync : Shared → List Entry → List Entry
resync w rings = add_new w w.registry (reconcile (length rings) w [] rings)

-- The rings to drain for the last time.
unfoldable pub to_finalize : Shared → List Entry → List ℕ
to_finalize w rings =
    keep_if (λ a. not (keep w a)) w.registry
    ++ keep_if (λ a. not (keep w a) && not (has w.registry a)) (addresses rings)

-- `Segments::installed()` and then the return to the pool
abbrev pub give_back : Shared → ℕ → Shared
give_back w a = if w.installed then (drain_recycle w a).1 else w

-- Whether the entry went, and the shared state.
unfoldable pub maybe_retire : Shared → Entry → Bool × Shared
maybe_retire w (a, serial) =
    let r = w.store a in
    let w' = record w { registry = keep_if (λ b. not (b == a)) w.registry } in
    if not r.handed_off || r.helper_reserved || not (r.serial == serial)
    then (false, w)
    else if not (r.head == r.tail)
    then (false, w)
    else if not (has w.registry a)
    then (false, w)
    else (true, give_back w' a)

-- What a visit did: whether there was work, whether the entry went, and the rest.
pub record Visit : Type 0 where
  pub worked : Bool
  pub retired : Bool
  pub after : Shared
  pub out : List Delivery

abbrev pub skip : Shared → Visit
skip w = record { worked = false; retired = false; after = w; out = [] }

-- The locals of `poll_once`; `rings` are the entries before the index.
pub record Poll : Type 0 where
  pub had_work : Bool
  pub rings : List Entry
  pub world : Shared
  pub out : List Delivery

abbrev pub visited : Poll → Visit → Poll
visited p v = record p { had_work = p.had_work || v.worked; world = v.after; out = p.out ++ v.out }

unfoldable pub flush_lines : Bool → Poll → Poll
flush_lines segmented p =
    let (lines, w) = take_lines p.world in
    if segmented && p.world.installed
    then record p { had_work = p.had_work || not_empty lines; world = w; out = p.out ++ lines }
    else p
  where
    not_empty : List Delivery → Bool
    not_empty [] = false
    not_empty (x ∷ xs) = true

-- `none` where the pass ran out of fuel
abbrev pub Passed : Type 0
Passed = Option (Bool × Shared × List Delivery)

module _ (payload : Bytes → Bytes) where
  abbrev pub in_place : Shared → ℕ → Option (Bool × Ring × List Delivery) → Passed
  in_place w a none = none
  in_place w a (some (worked, r, out)) =
      some (worked, update (update w a (λ _. r)) a (λ r. record r { draining = false }), out)

  -- The pass over one ring, between the two stores of its flag.
  unfoldable pub drain_ring : Shared → ℕ → Passed
  drain_ring w a =
      let w' = update w a (λ r. record r { draining = true }) in
      in_place w' a (drain_ring_inner payload (w'.store a))

  unfoldable pub finalize : Shared → List ℕ → Option (Shared × List Delivery)
  finalize w [] = some (w, [])
  finalize w (a ∷ rest) = do
    (worked, w', out) ← drain_ring w a
    (w'', more) ← finalize (give_back w' a) rest
    some (w'', out ++ more)

  -- The drain's list, the shared state and the last deliveries of the dead rings.
  unfoldable pub sync_rings : Shared → List Entry → Option (List Entry × Shared × List Delivery)
  sync_rings w rings = do
    let w' = record w { registry = keep_if (keep w) w.registry }
    (w'', out) ← finalize w' (to_finalize w rings)
    some (resync w rings, w'', out)

  abbrev pub then_retire : Entry → Passed → Option Visit
  then_retire e none = none
  then_retire e (some (worked, w, out)) =
      let (retired, w') = maybe_retire w e in
      some (record { worked = worked; retired = retired; after = w'; out = out })

  -- The body of the loop of `poll_once`.
  unfoldable pub visit : Shared → Entry → Option Visit
  visit w (a, serial) =
      let r = w.store a in
      if not (r.serial == serial)
      then some (skip w)
      else if r.helper_reserved
      then some (skip w)
      else then_retire (a, serial) (drain_ring w a)

  -- The loop over the entries `rest`; those before the index are in `p`, and on each turn one entry is
  -- passed or removed.
  unfoldable pub poll_loop : ℕ → Poll → List Entry → Option Poll
  poll_loop fuel p [] = some p
  poll_loop zero p (e ∷ rest) = none
  poll_loop (suc fuel) p (e ∷ rest) = do
    v ← visit p.world e
    let p' = visited p v
    elim v.retired [
      | true ↦ poll_loop fuel p' (swap_out rest)
      | false ↦ poll_loop fuel (record p' { rings = p'.rings ++ e ∷ [] }) rest
    ]

  unfoldable pub poll_once : Bool → Shared → List Entry → Option Poll
  poll_once segmented w rings = do
    p ←
        poll_loop (length rings) (record { had_work = false; rings = []; world = w; out = [] })
          rings
    some (flush_lines segmented p)
