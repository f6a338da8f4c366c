-- ===== src/Segments.antt =====
-- src/segments.rs: the pool of segments, whose first ring a thread claims and which it comes back to at
-- every handoff, and the queue of the lines that blocked producers formatted.
--
-- A function runs as one step, but for take_pooled, which is split at its locks: what the other threads
-- do ahead of each is an argument.
pub mod Helper
use ticklog.Base.{
  ℕ, zero, suc, ◌/◌, ◌*◌, ◌&&◌, ◌++◌, Bytes, Bool, true, false, Option, none, some, [], ◌∷◌, List,
  max, if◌then◌else◌, leb, ◌>>=◌,
}
use ticklog.Drain.{Delivery, drain_ring_inner}
use ticklog.Policy.{Backpressure}
use ticklog.Ring.{Ring, from_storage, is_power_of_two, slot_size, reset_for_reuse, mark_recycled}
use ticklog.Shared.{Shared, set, update, place}

-- 8 MiB
abbrev pub nanolog_pool_budget : ℕ
nanolog_pool_budget = 8 * 1024 * 1024

unfoldable pub pool_size_for : ℕ → ℕ
pool_size_for ring_capacity = max (nanolog_pool_budget / ring_capacity) 1

-- The arena's bytes are zeroed here; `none` is the panic of the `assert!`.
unfoldable pub with_capacity_arena : ℕ → Bool → Option Ring
with_capacity_arena capacity recyclable =
    if is_power_of_two capacity && leb slot_size capacity
    then some (from_storage (λ _. 0) capacity recyclable)
    else none

abbrev pub placed : Shared → Option Ring → Option (ℕ × Shared)
placed w none = none
placed w (some r) = some (place w r)

unfoldable pub alloc_fresh : Shared → Option (ℕ × Shared)
alloc_fresh w = placed w (with_capacity_arena w.ring_capacity false)

-- The loop that fills the pool.
unfoldable pub preallocate : ℕ → Shared → Option Shared
preallocate zero w = some w
preallocate (suc n) w = do
  r ← with_capacity_arena w.ring_capacity true
  let (a, w') = place w r
  preallocate n (record w' { spares = a ∷ w'.spares })

-- `none` is a panic, also of the `unreachable!` for the policies that have no segments.
unfoldable pub init_with_pool_size : Backpressure → ℕ → ℕ → Shared → Option Shared
init_with_pool_size policy ring_capacity pool_size w = elim policy [
  | Backpressure.nano_log ↦ preallocate pool_size (fresh Backpressure.nano_log)
  | Backpressure.quill ↦ some (fresh Backpressure.quill)
  | _ ↦ none
]
  where
    fresh : Backpressure → Shared
    fresh p = record w {
      installed = true;
      policy = p;
      ring_capacity = ring_capacity;
      spares = [];
      lines = [];
    }

unfoldable pub init : Backpressure → ℕ → Shared → Option Shared
init policy ring_capacity w =
    init_with_pool_size policy ring_capacity (pool_size_for ring_capacity) w

unfoldable pub try_take_spare : Shared → Option (ℕ × Shared)
try_take_spare w = elim w.spares [
  | [] ↦ none
  | a ∷ rest ↦ some (a, update (record w { spares = rest }) a reset_for_reuse)
]

-- A waiting producer is woken, too.
unfoldable pub recycle : Shared → ℕ → Shared
recycle w a = record w { spares = a ∷ w.spares }

abbrev or_fresh : Shared → Option (ℕ × Shared) → Option (ℕ × Shared)
or_fresh w none = alloc_fresh w
or_fresh w (some taken) = some taken

unfoldable pub initial_ring : Shared → Option (ℕ × Shared)
initial_ring w = or_fresh w (try_take_spare w)

unfoldable pub push_lines : Shared → List Delivery → Shared
push_lines w lines = record w { lines = w.lines ++ lines }

unfoldable pub take_lines : Shared → List Delivery × Shared
take_lines w = (w.lines, record w { lines = [] })

unfoldable pub drain_recycle : Shared → ℕ → Bool × Shared
drain_recycle w a =
    let r = w.store a in
    let (first, r') = mark_recycled r in
    let w' = update w a (λ _. r') in
    if r.recyclable then (if first then (true, recycle w' a) else (false, w')) else (false, w)

-- `none`: torn down. `blocked` is a wait on the condition variable that has not returned, and `stuck` a
-- wait for the drain's flag, or a pass that ran out of fuel.
pub data Taken : Type 0 where
  taken : ℕ → Shared → Taken
  torn_down : Shared → Taken
  blocked stuck : Taken

-- `live` of the source: the ring whose flag tells a teardown; `none` at initialization.
abbrev dead : Option ℕ → Shared → Bool
dead none w = false
dead (some a) w = if (w.store a).live then false else true

-- What the other threads do to the shared objects between two steps of this one.
abbrev pub Moves : Type 0
Moves = Shared → Shared

-- Their moves during `take_pooled`: ahead of the lock of the lines, of the rewinding of the segment, of
-- the lock of the pool, of the first look for a spare, and, for each wait that returned, ahead of the look
-- on waking and of the next turn's.
pub record Between : Type 0 where
  pub before_push : Moves
  pub before_reset : Moves
  pub before_recycle : Moves
  pub before_look : Moves
  pub waits : List (Moves × Moves)

-- Nobody else moves up to the first look.
abbrev pub undisturbed : List (Moves × Moves) → Between
undisturbed waits = record {
  before_push = λ w. w;
  before_reset = λ w. w;
  before_recycle = λ w. w;
  before_look = λ w. w;
  waits = waits;
}

-- From the look for a spare on; `rest` is the wait.
abbrev pub look : Option ℕ → Shared → Taken → Option (ℕ × Shared) → Taken
look live w rest none = if dead live w then torn_down w else rest
look live w rest (some (a, w')) = taken a w'

-- On waking, the flag is not looked at.
abbrev pub woken : Taken → Option (ℕ × Shared) → Taken
woken rest none = rest
woken rest (some (a, w')) = taken a w'

-- The wait, and the turns of the loop behind it, where the helper is empty.
unfoldable pub wait_spare : Option ℕ → Shared → List (Moves × Moves) → Taken
wait_spare live w [] = blocked
wait_spare live w ((on_waking, next_turn) ∷ later) =
    let u = on_waking w in
    let x = next_turn u in
    let rest = wait_spare live x later in
    woken (look live x rest (try_take_spare x)) (try_take_spare u)

module _ (payload : Bytes → Bytes) where
  abbrev pub ring_and_lines : Option (Bool × Ring × List Delivery) → Option (Ring × List Delivery)
  ring_and_lines none = none
  ring_and_lines (some (worked, r, out)) = some (r, out)

  -- The drain's flag is read before the pass; the helper is the only one to read the ring then.
  unfoldable pub format_segment : Ring → Option (Ring × List Delivery)
  format_segment r = if r.draining then none else ring_and_lines (drain_ring_inner payload r)

  -- Each lock is a step of its own.
  abbrev pub parked : Shared → ℕ → Between → Option (Ring × List Delivery) → Option Shared
  parked w a m none = none
  parked w a m (some (r, out)) =
      let pushed = push_lines (m.before_push (update w a (λ _. r))) out in
      let rewound = update (m.before_reset pushed) a reset_for_reuse in
      some (recycle (m.before_recycle rewound) a)

  unfoldable pub format_helper_segment : Shared → ℕ → Between → Option Shared
  format_helper_segment w a m = parked w a m (format_segment (w.store a))

  abbrev help : Shared → Option ℕ → Between → Option Shared
  help w none m = some w
  help w (some a) m = format_helper_segment w a m

  abbrev pub after_help : Option ℕ → Between → Option Shared → Taken
  after_help live m none = stuck
  after_help live m (some w) =
      let u = m.before_look w in look live u (wait_spare live u m.waits) (try_take_spare u)

  unfoldable pub take_pooled : Shared → Option ℕ → Option ℕ → Between → Taken
  take_pooled w helper live m = after_help live m (help w helper m)

  abbrev of_fresh : Option (ℕ × Shared) → Taken
  of_fresh none = stuck
  of_fresh (some (a, w)) = taken a w

  -- `stuck` stands for the panics, too.
  unfoldable pub first_ring : Shared → Option ℕ → Option ℕ → Between → Taken
  first_ring w helper live m = elim w.policy [
    | Backpressure.nano_log ↦ take_pooled w helper live m
    | Backpressure.quill ↦ of_fresh (alloc_fresh w)
    | _ ↦ stuck
  ]
