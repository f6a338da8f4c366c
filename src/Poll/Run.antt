-- ===== src/Poll/Run.antt =====
-- src/drain.rs, `Drain::run`: the poll loop, its idle backoff, the cadence of its syncs and its flushes.
-- What the drain does is a list of events; what the other threads do to the shared state before a turn
-- is an argument.
use ticklog.Base.{
  ℕ, ◌+◌, ◌-◌, ◌*◌, ◌%◌, ◌^◌, ◌++◌, Bytes, Bool, true, false, Option, none, some, [], ◌∷◌, List,
  ◌==◌, if◌then◌else◌, ◌>>=◌, min, bit_and,
}
use ticklog.Drain.{Delivery}
use ticklog.Poll.{Entry, Poll, sync_rings, poll_once}
use ticklog.Shared.{Shared}

abbrev pub spin_min : ℕ
spin_min = 8

abbrev pub spin_cap : ℕ
spin_cap = 256

abbrev pub sync_every : ℕ
sync_every = 1024

-- `spun n` is a batch of n turns of the spin.
pub data Event : Type 0 where
  synced : List Delivery → Event
  polled : Bool → List Delivery → Event
  flushed : Event
  spun : ℕ → Event

-- The locals of `run`, with the shared state as the drain left it.
pub record Loop : Type 0 where
  pub world : Shared
  pub rings : List Entry
  pub spin : ℕ
  pub since_sync : ℕ
  pub dirty : Bool

-- What a turn finds: the shutdown flag, and what the other threads did meanwhile.
pub record Moment : Type 0 where
  pub shutdown : Bool
  pub meanwhile : Shared → Shared

abbrev pub entered : Shared → Loop
entered w = record { world = w; rings = []; spin = spin_min; since_sync = 0; dirty = false }

abbrev pub sync_due : Bool → ℕ → Bool
sync_due segmented since_sync = bit_and since_sync ((if segmented then 1 else sync_every) - 1) == 0

-- Behind a poll that found nothing.
unfoldable pub idle : Loop → Loop × List Event
idle l = (
  record l { spin = min (l.spin * 2 % 2 ^ 32) spin_cap; dirty = false },
  (if l.dirty then flushed ∷ spun l.spin ∷ [] else spun l.spin ∷ []),
)

-- Behind a poll.
unfoldable pub after_poll : Loop → Poll → Loop × List Event
after_poll l p =
    let l' = record l { world = p.world; rings = p.rings } in
    let (l'', events) = idle l' in
    if p.had_work
    then (record l' { spin = spin_min; dirty = true }, polled true p.out ∷ [])
    else (l'', polled false p.out ∷ events)

module _ (payload : Bytes → Bytes) where
  unfoldable pub sync : Loop → Option (Loop × List Event)
  sync l = do
    (rings, w, out) ← sync_rings payload l.world l.rings
    some (record l { world = w; rings = rings }, synced out ∷ [])

module _ (payload : Bytes → Bytes) (segmented : Bool) where
  abbrev pub sync_when : Bool → Loop → Option (Loop × List Event)
  sync_when true l = sync payload l
  sync_when false l = some (l, [])

  abbrev pub poll : Loop × List Event → Option (Loop × List Event)
  poll (l, events) = do
    p ← poll_once payload segmented l.world l.rings
    let (l', more) = after_poll (record l { since_sync = (l.since_sync + 1) % 2 ^ 32 }) p
    some (l', events ++ more)

  -- One turn of the loop, behind the test of the flag.
  unfoldable pub loop_turn : Loop → Option (Loop × List Event)
  loop_turn l = sync_when (sync_due segmented l.since_sync) l >>= poll

  -- The pass behind the loop, and the flush.
  unfoldable pub final_pass : Loop → Option (List Event)
  final_pass l = do
    (l', events) ← sync payload l
    p ← poll_once payload segmented l'.world l'.rings
    some (events ++ polled p.had_work p.out ∷ flushed ∷ [])

  -- `none` where a pass ran out of fuel, or the moments are used up and the drain still runs.
  unfoldable pub run : Loop → List Moment → Option (List Event)
  run l [] = none
  run l (m ∷ moments) =
      let l' = record l { world = m.meanwhile l.world } in
      elim m.shutdown [
        | true ↦ final_pass l'
        | false ↦ do (l'', events) ← loop_turn l'; rest ← run l'' moments; some (events ++ rest)
      ]
