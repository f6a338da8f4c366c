-- ===== src/Tests/Fifo.antt =====
-- The byte-queue backends over queues that are lists.
use ticklog.Base.{
  inr, ◌⊎◌, ℕ, suc, zero, ◌≤◌, ◌+◌, ◌-◌, ◌/◌, ◌≡◌, refl, arith, Bytes, Bool, true, false, Option,
  none, some, List, [], ◌∷◌, ◌++◌, map, length, length-append, length-drop, take, drop, replicate,
  append-nil, leb, if◌then◌else◌,
}
use ticklog.Drain.{Delivery, deliver}
use ticklog.Fifo.{granted, waits, reserve, dispatch_turn, drain_pass, Run, start, log}
use ticklog.Fifo.Drain.{drain_staging, staging_loop}
use ticklog.Fifo.Drain.Exact.{flat, drain_staging-exact}
use ticklog.Fifo.Drain.Returns.{Stalls, drain_staging-Returns, staging_loop-Stalls}
use ticklog.Fifo.Order.{drain_pass-delivers}
use ticklog.Fifo.Rtrb.{Crate, SplitRing, reserve_turn, write_record, direct_chunk, flush_staged}
use ticklog.Fifo.Rtrb.Laws.{IsSound, visible, write_record_lem}
use ticklog.Fifo.Rtrb.Pop.{backend}
use ticklog.Fifo.Rtrb.Stuck.{reserve_batch_stuck}
use ticklog.Policy.{Backpressure}
use ticklog.Tests.Ring.{small, small-IsWire}

record ListQueue : Type 0 where
  held : Bytes
  spare : ℕ

abbrev total_room : ListQueue → ℕ
total_room q = length q.held + q.spare

abbrev put : ListQueue → Bytes → Bytes → ListQueue
put q a b = record { held = q.held ++ (a ++ b); spare = q.spare - (length a + length b) }

abbrev take_out : ListQueue → ℕ → ListQueue
take_out q n = record { held = drop n q.held; spare = q.spare + n }

put_lem :
    (q : ListQueue) (a b : Bytes)
    → length a + length b ≤ q.spare
    → ((put q a b).held ≡ q.held ++ (a ++ b)) × (total_room (put q a b) ≡ total_room q)
put_lem q a b h = (refl, omega (arith, length-append q.held (a ++ b), length-append a b))

take_out_lem :
    (q : ListQueue) (n : ℕ)
    → n ≤ length q.held
    → ((take_out q n).held ≡ drop n q.held) × (total_room (take_out q n) ≡ total_room q)
take_out_lem q n h = (refl, omega (arith, length-drop n q.held))

bounded_lem : (q : ListQueue) → length q.held ≤ total_room q
bounded_lem q = omega arith

free_lem : (q : ListQueue) → q.spare ≡ total_room q - length q.held
free_lem q = omega arith

room-new_lem : (n : ℕ) → 0 + n ≡ n
room-new_lem n = omega arith

halves : (n : ℕ) → n / 2 + (n - n / 2) ≡ n
halves n = omega arith

abbrev ask_write : ListQueue → ℕ → Option (ℕ × ℕ)
ask_write q n = if leb n q.spare then some (n / 2, n - n / 2) else none

abbrev ask_read : ListQueue → ℕ → Option (Bytes × Bytes)
ask_read q n = if leb n (length q.held) then some (take n q.held, []) else none

write_chunk_ok :
    (q : ListQueue) (n : ℕ)
    → n ≤ q.spare
    → (a : ℕ) × (b : ℕ) × (ask_write q n ≡ some (a, b)) × (a + b ≡ n)
write_chunk_ok q n h = (n / 2, n - n / 2, ground arith, halves n)

read_chunk_ok :
    (q : ListQueue) (n : ℕ)
    → n ≤ length q.held
    → (a : Bytes) × (b : Bytes) × (ask_read q n ≡ some (a, b)) × (a ++ b ≡ take n q.held)
read_chunk_ok q n h = (take n q.held, [], ground arith, append-nil (take n q.held))

abbrev list_crate : Crate
list_crate = record {
  Queue = ListQueue;
  new = λ n. record { held = []; spare = n };
  producer_slots = λ q. q.spare;
  consumer_slots = λ q. length q.held;
  write_chunk = ask_write;
  commit_write = put;
  read_chunk = ask_read;
  commit_read = take_out;
  items = λ q. q.held;
  room = total_room;
  items-new = λ n. refl;
  room-new = room-new_lem;
  bounded = bounded_lem;
  free = free_lem;
  taken = λ q. refl;
  write_chunk_lem = write_chunk_ok;
  commit_write_lem = put_lem;
  read_chunk_lem = read_chunk_ok;
  commit_read_lem = take_out_lem;
}

abbrev by_one : SplitRing list_crate
by_one = record {
  queue = record { held = []; spare = 63 };
  staged = [];
  staged_records = 0;
  chunk_size = 1;
  live = true;
  capacity = 63;
  thread_id = 0;
  thread_name = [];
}

abbrev by_one_after : SplitRing list_crate
by_one_after = record by_one {
  queue = put (record { held = []; spare = 63 }) (take 8 small) (drop 8 small);
}

by_one-IsSound : IsSound list_crate by_one
by_one-IsSound = record { room_is = refl; word = omega arith }

one_logged : Run (backend list_crate) (λ b. b) by_one_after (small ∷ []) []
unfolding dispatch_turn reserve_turn write_record direct_chunk
one_logged = log small Backpressure.drop (start by_one-IsSound refl refl) small-IsWire refl

abbrev by_two : SplitRing list_crate
by_two = record by_one { chunk_size = 2 }

abbrev by_two_after : SplitRing list_crate
by_two_after = record by_two { staged = small; staged_records = 1 }

by_two-IsSound : IsSound list_crate by_two
by_two-IsSound = record { room_is = refl; word = omega arith }

one_staged : Run (backend list_crate) (λ b. b) by_two_after (small ∷ []) []
unfolding dispatch_turn reserve_turn write_record flush_staged
one_staged = log small Backpressure.block (start by_two-IsSound refl refl) small-IsWire refl

drain_pass-delivers_example :
    (had_work : Bool) × (r' : SplitRing list_crate) × (more : List Delivery) × (kept : List Bytes)
    × (drain_pass (backend list_crate) (λ b. b) by_one_after ≡ some (had_work, r', [], more))
    × (map (deliver (λ b. b)) (small ∷ []) ≡ ([] ++ more) ++ map (deliver (λ b. b)) kept)
    × ([] ≡ flat kept)
    × (r'.queue.held ≡ [])
drain_pass-delivers_example = drain_pass-delivers (backend list_crate) (λ b. b) one_logged

-- The record that is staged is kept back.
staged_pass :
    (had_work : Bool) × (r' : SplitRing list_crate) × (more : List Delivery) × (kept : List Bytes)
    × (drain_pass (backend list_crate) (λ b. b) by_two_after ≡ some (had_work, r', [], more))
    × (map (deliver (λ b. b)) (small ∷ []) ≡ ([] ++ more) ++ map (deliver (λ b. b)) kept)
    × (small ≡ flat kept)
    × (r'.queue.held ≡ [])
staged_pass = drain_pass-delivers (backend list_crate) (λ b. b) one_staged

-- A record, and the first five bytes of another.
drain_staging-exact_example :
    drain_staging (λ b. b) (flat (small ∷ []) ++ take 5 small)
    ≡ some (true, take 5 small, map (deliver (λ b. b)) (small ∷ []))
drain_staging-exact_example =
    drain_staging-exact (λ b. b) (small ∷ []) (take 5 small) (small-IsWire, tt)
      (inr (drop 5 small, small-IsWire, omega arith))

-- A record of 16 bytes is staged, and 50 more do not fit beside it in 63.
reserve_batch_stuck_example :
    reserve (reserve_turn list_crate 50 Backpressure.block) (by_two_after ∷ by_two_after ∷ [])
    ≡ waits
reserve_batch_stuck_example =
    reserve_batch_stuck list_crate by_two_after 50 (by_two_after ∷ by_two_after ∷ []) (omega arith)
      (omega arith) (refl, refl, refl, (refl, refl, refl, tt))

granted_here : reserve_turn list_crate (length small) Backpressure.block by_two ≡ granted
unfolding reserve_turn
granted_here = refl

write_record_lem_example :
    (r' : SplitRing list_crate) × (write_record list_crate by_two small ≡ some r')
    × IsSound list_crate r'
    × (((visible list_crate r' ≡ []) × (r'.staged ≡ [] ++ small))
        ⊎ ((visible list_crate r' ≡ ([] ++ []) ++ small) × (r'.staged ≡ [])))
write_record_lem_example =
    write_record_lem list_crate by_two small Backpressure.block by_two-IsSound granted_here

abbrev noise : Bytes
noise = replicate 17 7

noise_free : (n : ℕ) → ¬ Stalls (drop n noise)
noise_free zero v = absurd (omega (arith, v.filler_at))
noise_free (suc zero) v = absurd (omega (arith, v.filler_at))
noise_free (suc (suc n)) v = absurd (omega (arith, v.long, length-drop (suc (suc n)) noise))

drain_staging-Returns_example :
    (r : Bool × Bytes × List Delivery) × (drain_staging (λ b. b) noise ≡ some r)
drain_staging-Returns_example = drain_staging-Returns (λ b. b) noise noise_free

abbrev zero_filler : Bytes
zero_filler = 2 ∷ 2 ∷ replicate 14 0

zero_filler-Stalls : Stalls zero_filler
zero_filler-Stalls = record { filler_at = refl; size_at = refl; long = omega arith }

staging_loop-Stalls_example :
    staging_loop
      (λ b. b)
      1000
      (record { rest = flat (small ∷ []) ++ zero_filler; had_work = false; out = [] })
    ≡ none
staging_loop-Stalls_example =
    staging_loop-Stalls (λ b. b) 1000 (small ∷ []) zero_filler false [] (small-IsWire, tt)
      zero_filler-Stalls
