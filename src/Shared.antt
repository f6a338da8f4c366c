-- ===== src/Shared.antt =====
-- The objects that the threads share: the rings behind `Arc`, by address, and the statics `REGISTRY`
-- and `NEXT_SERIAL` of src/thread_buf.rs and `SEGMENTS` of src/segments.rs.
use ticklog.Base.{ℕ, suc, ◌≡◌, arith, Bool, List, ◌==◌, if◌then◌else◌, ◌≢◌}
use ticklog.Drain.{Delivery}
use ticklog.Policy.{Backpressure}
use ticklog.Ring.{Ring}

abbrev pub Store : Type 0
Store = ℕ → Ring

abbrev pub set : Store → ℕ → Ring → Store
set store a r b = if b == a then r else store b

-- `used` is the number of rings made so far. `installed` and the fields after it are the segment pool;
-- `spares` has the end of the vector first, since it is pushed and popped there, and `lines` the front
-- of the queue first.
pub record Shared : Type 0 where
  pub store : Store
  pub used : ℕ
  pub registry : List ℕ
  pub next_serial : ℕ
  pub installed : Bool
  pub policy : Backpressure
  pub ring_capacity : ℕ
  pub spares : List ℕ
  pub lines : List Delivery

-- A store to the fields of one ring.
abbrev pub update : Shared → ℕ → (Ring → Ring) → Shared
update w a f = record w { store = set w.store a (f (w.store a)) }

-- `Arc::new`
abbrev pub place : Shared → Ring → ℕ × Shared
place w r = (w.used, record w { store = set w.store w.used r; used = suc w.used })

pub update_here : (w : Shared) (a : ℕ) (f : Ring → Ring) → (update w a f).store a ≡ f (w.store a)
update_here w a f = set_here w.store a (f (w.store a))
  where
    set_here : (store : Store) (a : ℕ) (r : Ring) → set store a r a ≡ r
    set_here store a r = ground arith

pub update_there :
    (w : Shared) (a b : ℕ) (f : Ring → Ring) → b ≢ a → (update w a f).store b ≡ w.store b
update_there w a b f n = set_there w.store a b (f (w.store a)) n
  where
    set_there : (store : Store) (a b : ℕ) (r : Ring) → b ≢ a → set store a r b ≡ store b
    set_there store a b r n = ground arith

pub place_here : (w : Shared) (r : Ring) → (place w r).1.store w.used ≡ r
place_here w r = update_here (record w { used = suc w.used }) w.used (λ _. r)

pub place_there : (w : Shared) (r : Ring) (b : ℕ) → b ≢ w.used → (place w r).1.store b ≡ w.store b
place_there w r b n = update_there (record w { used = suc w.used }) w.used b (λ _. r) n
