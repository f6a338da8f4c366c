-- ===== src/Fifo.antt =====
-- The byte-queue backends (`fifo-backend`): src/rtrb_backend.rs, src/ringbuf_backend.rs,
-- src/ringbuffer_backend.rs and src/triple_buffer_backend.rs in a child each, and here what
-- src/macros.rs and src/drain.rs do with any of them. The queues of the crates that they wrap are
-- arguments: records of operations, with the laws that their documentation states.
pub mod Drain
pub mod Order
pub mod Ringbuf
pub mod Ringbuffer
pub mod TripleBuffer
pub mod Rtrb
use ticklog.Base.{
  ℕ, ◌≡◌, ◌+◌, Bytes, Bool, List, [], ◌∷◌, ◌++◌, Option, none, some, length, ltb, if◌then◌else◌,
  min, ◌-◌, ◌>>=◌, refl, arith, ◌⊎◌,
}
use ticklog.Drain.{Delivery}
use ticklog.Fifo.Drain.{drain_staging}
use ticklog.Policy.{Backpressure, drop, block, nano_log, quill}
use ticklog.Ring.{max_record_size}
use ticklog.Ring.Frames.{IsWire}
use ticklog.Words.{u64_mod}

-- `saturating_add` on usize
abbrev pub saturating_add : ℕ → ℕ → ℕ
saturating_add a b = min (a + b) (u64_mod - 1)

pub no_bytes : (s : Bytes) → length s ≡ 0 → s ≡ []
no_bytes [] h = refl
no_bytes (b ∷ s) h = absurd (omega arith)

-- What one look of `reserve` at the ring decides.
pub data Asked : Type 0 where
  granted refused waits : Asked

-- the match on the policy where there is no room
abbrev pub on_full : Backpressure → Bool → Asked
on_full drop live = refused
on_full nano_log live = if live then waits else refused
on_full quill live = if live then waits else refused
on_full block live = if live then waits else refused

-- `reserve`, over the rings that its successive looks see: it waits as long as they all make it.
unfoldable pub reserve : {Buffer : Type 0} → (Buffer → Asked) → List Buffer → Asked
reserve turn [] = waits
reserve turn (r ∷ looks) = elim (turn r) [
  | granted ↦ granted
  | refused ↦ refused
  | waits ↦ reserve turn looks
]

-- What a ring of such a backend does. `visible` are the bytes that the drain can pop and `staged` those
-- that the producer keeps back. `none` is a panic or an endless loop.
pub record Backend : Type 1 where
  pub Buffer : Type 0
  pub reserve_turn : ℕ → Backpressure → Buffer → Asked
  pub write_record : Buffer → Bytes → Option Buffer
  pub pop_available : Buffer → Bytes → Option (ℕ × Bytes × Buffer)
  pub IsSound : Buffer → Type 0
  pub visible : Buffer → Bytes
  pub staged : Buffer → Bytes
  pub written :
      (r : Buffer) (bytes : Bytes) (policy : Backpressure)
      → IsSound r
      → reserve_turn (length bytes) policy r ≡ granted
      → (r' : Buffer) × (write_record r bytes ≡ some r')
        × IsSound r'
        × (((visible r' ≡ visible r) × (staged r' ≡ staged r ++ bytes))
            ⊎ ((visible r' ≡ (visible r ++ staged r) ++ bytes) × (staged r' ≡ [])))
  pub popped :
      (r : Buffer) (out : Bytes)
      → IsSound r
      → (r' : Buffer) × (pop_available r out ≡ some (length (visible r), out ++ visible r, r'))
        × IsSound r'
        × (visible r' ≡ [])
        × (staged r' ≡ staged r)

module _ (b : Backend) where
  open b use {Buffer, reserve_turn, write_record, pop_available}

  pub data Sent : Type 0 where
    logged : Buffer → Sent
    dropped waiting panicked : Sent

  abbrev pub stored : Option Buffer → Sent
  stored none = panicked
  stored (some r) = logged r

  -- `dispatch` up to one look of its `reserve`; a call that waits looks again at a later ring.
  unfoldable pub dispatch_turn : Buffer → Bytes → Backpressure → Sent
  dispatch_turn r bytes policy =
      if ltb max_record_size (length bytes)
      then dropped
      else elim (reserve_turn (length bytes) policy r) [
        | granted ↦ stored (write_record r bytes)
        | refused ↦ dropped
        | waits ↦ waiting
      ]

  -- `drain_ring`, whose staging buffer `poll_once` and `sync_rings` have cleared: the result, the ring,
  -- what is left staged, the deliveries.
  unfoldable pub drain_pass :
      (Bytes → Bytes) → Buffer → Option (Bool × Buffer × Bytes × List Delivery)
  drain_pass payload r = do
    (n, all, r') ← pop_available r []
    (had_work, left, out) ← drain_staging payload all
    some (had_work, r', left, out)

  module _ (payload : Bytes → Bytes) where
    -- The runs of one producer and the drain: the ring, the records logged and the deliveries so far. A
    -- call that drops its record or waits changes nothing.
    pub data Run : Buffer → List Bytes → List Delivery → Type 0 where
      start : {r : Buffer} → b.IsSound r → b.visible r ≡ [] → b.staged r ≡ [] → Run r [] []
      log :
          {r r' : Buffer} {sent : List Bytes} {out : List Delivery} (bytes : Bytes)
          (policy : Backpressure)
          → Run r sent out
          → IsWire bytes
          → dispatch_turn r bytes policy ≡ logged r'
          → Run r' (sent ++ bytes ∷ []) out
      pass :
          {r r' : Buffer} {left : Bytes} {sent : List Bytes} {out more : List Delivery}
          {had_work : Bool}
          → Run r sent out
          → drain_pass payload r ≡ some (had_work, r', left, more)
          → Run r' sent (out ++ more)
