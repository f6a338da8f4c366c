-- ===== src/Fifo/Rtrb.antt =====
-- src/rtrb_backend.rs: a ring in two halves behind the `rtrb` crate. The producer stages records and
-- flushes them as one chunk, `chunk_size` records at a time. Both halves are one state here.
pub mod Laws
pub mod Pop
pub mod Stuck
use ticklog.Base.{
  ℕ, ◌<◌, ◌≤◌, ◌+◌, ◌-◌, ◌≡◌, arith, Bytes, Bool, true, false, not, ◌&&◌, Option, none, some, [],
  ◌++◌, length, max, leb, ltb, ◌==◌, if◌then◌else◌, take, drop, ◌>>=◌, zero, suc,
}
use ticklog.Fifo.{Asked, granted, on_full, saturating_add}
use ticklog.Policy.{Backpressure}
use ticklog.Ring.{is_power_of_two, slot_size}

-- The crate: both halves of an `rtrb::RingBuffer`. A chunk is asked for by its size; the lengths of the
-- two slices of a write chunk, and the two slices of a read chunk, are what the request gives.
pub record Crate : Type 1 where
  pub Queue : Type 0
  pub new : ℕ → Queue
  pub producer_slots : Queue → ℕ
  pub consumer_slots : Queue → ℕ
  pub write_chunk : Queue → ℕ → Option (ℕ × ℕ)
  pub commit_write : Queue → Bytes → Bytes → Queue
  pub read_chunk : Queue → ℕ → Option (Bytes × Bytes)
  pub commit_read : Queue → ℕ → Queue
  pub items : Queue → Bytes
  pub room : Queue → ℕ
  pub items-new : (n : ℕ) → items (new n) ≡ []
  pub room-new : (n : ℕ) → room (new n) ≡ n
  pub bounded : (q : Queue) → length (items q) ≤ room q
  pub free : (q : Queue) → producer_slots q ≡ room q - length (items q)
  pub taken : (q : Queue) → consumer_slots q ≡ length (items q)
  pub write_chunk_lem :
      (q : Queue) (n : ℕ)
      → n ≤ producer_slots q
      → (a : ℕ) × (b : ℕ) × (write_chunk q n ≡ some (a, b)) × (a + b ≡ n)
  pub commit_write_lem :
      (q : Queue) (a b : Bytes)
      → length a + length b ≤ producer_slots q
      → (items (commit_write q a b) ≡ items q ++ (a ++ b)) × (room (commit_write q a b) ≡ room q)
  pub read_chunk_lem :
      (q : Queue) (n : ℕ)
      → n ≤ consumer_slots q
      → (a : Bytes) × (b : Bytes) × (read_chunk q n ≡ some (a, b)) × (a ++ b ≡ take n (items q))
  pub commit_read_lem :
      (q : Queue) (n : ℕ)
      → n ≤ consumer_slots q
      → (items (commit_read q n) ≡ drop n (items q)) × (room (commit_read q n) ≡ room q)

module _ (crate : Crate) where
  open crate use {
    Queue, new, producer_slots, consumer_slots, write_chunk, commit_write, read_chunk, commit_read,
  }

  -- `RingProducer`, `Registration` and what they share.
  pub record SplitRing : Type 0 where
    pub queue : Queue
    pub staged : Bytes
    pub staged_records : ℕ
    pub chunk_size : ℕ
    pub live : Bool
    pub capacity : ℕ
    pub thread_id : ℕ
    pub thread_name : Bytes

  -- `default_chunk_size` is what the static holds; `none` is the panic of the `assert!`.
  unfoldable pub split : ℕ → ℕ → Option SplitRing
  split default_chunk_size capacity =
      let effective = if ltb capacity slot_size then slot_size else capacity in
      let usable = effective - 1 in
      if is_power_of_two effective
      then some (record {
        queue = new usable;
        staged = [];
        staged_records = 0;
        chunk_size = max default_chunk_size 1;
        live = true;
        capacity = usable;
        thread_id = 0;
        thread_name = [];
      })
      else none

  unfoldable pub set_chunk_size : SplitRing → ℕ → SplitRing
  set_chunk_size r n = if ltb 0 n then record r { chunk_size = n } else r

  unfoldable pub set_thread_info : SplitRing → ℕ → Bytes → SplitRing
  set_thread_info r thread_id thread_name = record r {
    thread_id = thread_id;
    thread_name = thread_name;
  }

  unfoldable pub reserve_turn : ℕ → Backpressure → SplitRing → Asked
  reserve_turn total_size policy r =
      let needed = saturating_add (length r.staged) total_size in
      let occupied = r.capacity - producer_slots r.queue in
      if ltb (saturating_add occupied needed) r.capacity then granted else on_full policy r.live

  -- A chunk with `bytes` in its two slices, committed; `none` is the panic of `expect`.
  unfoldable pub flush_chunk : Queue → Bytes → Option Queue
  flush_chunk q bytes = do
    (a, b) ← write_chunk q (length bytes)
    some (commit_write q (take a bytes) (drop a bytes))

  -- The chunk that is written in place: where it is in one piece, the record is assembled in it.
  unfoldable pub direct_chunk : Queue → Bytes → Option Queue
  direct_chunk q bytes = do
    (a, b) ← write_chunk q (length bytes)
    some (if b == 0 then commit_write q bytes [] else commit_write q (take a bytes) (drop a bytes))

  abbrev pub with_queue : SplitRing → Option Queue → Option SplitRing
  with_queue r none = none
  with_queue r (some q) = some (record r { queue = q })

  abbrev pub cleared : SplitRing → SplitRing
  cleared r = record r { staged = []; staged_records = 0 }

  -- The batched path, behind the append to `staged`.
  unfoldable pub flush_staged : SplitRing → ℕ → Option SplitRing
  unfolding flush_chunk
  flush_staged r chunk_size =
      if leb chunk_size r.staged_records
      then if ltb 0 (length r.staged)
        then with_queue (cleared r) (flush_chunk r.queue r.staged)
        else some r
      else some r

  abbrev pub stage : SplitRing → Bytes → SplitRing
  stage r bytes = record r { staged = r.staged ++ bytes; staged_records = r.staged_records + 1 }

  -- Nothing is staged, and one record completes a chunk.
  abbrev pub is_direct : SplitRing → Bool
  is_direct r = length r.staged == 0 && max r.chunk_size 1 == 1

  unfoldable pub commit : SplitRing → Bytes → Option SplitRing
  unfolding flush_chunk flush_staged
  commit r bytes =
      if is_direct r
      then if ltb 0 (length bytes) then with_queue r (flush_chunk r.queue bytes) else some r
      else flush_staged (stage r bytes) (max r.chunk_size 1)

  unfoldable pub write_record : SplitRing → Bytes → Option SplitRing
  unfolding direct_chunk flush_staged
  write_record r bytes =
      if is_direct r
      then if ltb 0 (length bytes) then with_queue r (direct_chunk r.queue bytes) else some r
      else flush_staged (stage r bytes) (max r.chunk_size 1)

  -- `loop` over chunks, on fuel: the bytes that were read, and the queue. `Err` ends it too.
  unfoldable pub read_loop : ℕ → Queue → ℕ → ℕ → Bytes → Option (Bytes × Queue)
  read_loop zero q available written out = none
  read_loop (suc fuel) q available written out =
      if available - written == 0
      then some (out, q)
      else elim (read_chunk q (available - written)) [
        | none ↦ some (out, q)
        | some (a, b) ↦
            let n = length a + length b in
            let next = read_loop fuel (commit_read q n) available (written + n) (out ++ (a ++ b)) in
            if leb available (written + n) then some (out ++ (a ++ b), commit_read q n) else next
      ]

  abbrev pub moved_of : SplitRing → Bytes → Option (Bytes × Queue) → Option (ℕ × Bytes × SplitRing)
  moved_of r out none = none
  moved_of r out (some (bytes, q)) = some (length bytes, out ++ bytes, record r { queue = q })

  -- The fuel is one turn more than there are bytes.
  unfoldable pub pop_available : SplitRing → Bytes → Option (ℕ × Bytes × SplitRing)
  pop_available r out =
      let available = consumer_slots r.queue in
      let read = moved_of r out (read_loop (suc available) r.queue available 0 []) in
      if available == 0 then some (0, out, r) else read

  unfoldable pub set_dead : SplitRing → SplitRing
  set_dead r = record r { live = false }
