-- ===== src/Fifo/Ringbuf.antt =====
-- src/ringbuf_backend.rs: a byte queue behind the `ringbuf` crate, whose two halves are one state here.
use ticklog.Base.{
  ◌⊎◌, inl, inr, ℕ, ◌<◌, ◌≤◌, ◌+◌, ◌≡◌, refl, sym, ap, ◌∙◌, arith, Bytes, Bool, true, false, ◌&&◌,
  Option, none, some, [], ◌++◌, length, leb, ltb, ◌==◌, if◌then◌else◌, append-nil, Bool-cases, inl,
  inr, ==_iff,
}
use ticklog.Fifo.{Asked, granted, on_full, saturating_add, Backend, no_bytes}
use ticklog.Policy.{Backpressure}
use ticklog.Ring.{is_power_of_two, slot_size}
use ticklog.Words.{u64_mod}

-- The crate: `HeapRb` with its halves. A push that fits appends all; a pop of what is there takes all.
pub record Crate : Type 1 where
  pub HeapRb : Type 0
  pub heap : ℕ → HeapRb
  pub occupied_len : HeapRb → ℕ
  pub push_slice : HeapRb → Bytes → ℕ × HeapRb
  pub pop_slice : HeapRb → ℕ → Bytes × HeapRb
  pub items : HeapRb → Bytes
  pub room : HeapRb → ℕ
  pub items-heap : (n : ℕ) → items (heap n) ≡ []
  pub room-heap : (n : ℕ) → room (heap n) ≡ n
  pub occupied : (q : HeapRb) → occupied_len q ≡ length (items q)
  pub pushed :
      (q : HeapRb) (bytes : Bytes)
      → length (items q) + length bytes ≤ room q
      → ((push_slice q bytes).0 ≡ length bytes)
        × (items (push_slice q bytes).1 ≡ items q ++ bytes)
        × (room (push_slice q bytes).1 ≡ room q)
  pub popped :
      (q : HeapRb)
      → ((pop_slice q (length (items q))).0 ≡ items q)
        × (items (pop_slice q (length (items q))).1 ≡ [])
        × (room (pop_slice q (length (items q))).1 ≡ room q)

module _ (crate : Crate) where
  open crate use {
    HeapRb, heap, occupied_len, push_slice, pop_slice, items, room, items-heap, room-heap, occupied,
    pushed,
  }

  pub record RingBuffer : Type 0 where
    pub queue : HeapRb
    pub live : Bool
    pub capacity : ℕ
    pub thread_id : ℕ
    pub thread_name : Bytes

  -- `none` is the panic of the `assert!`.
  unfoldable pub with_capacity : ℕ → Option RingBuffer
  with_capacity capacity =
      if is_power_of_two capacity && leb slot_size capacity
      then some (record {
        queue = heap capacity;
        live = true;
        capacity = capacity;
        thread_id = 0;
        thread_name = [];
      })
      else none

  unfoldable pub set_thread_info : RingBuffer → ℕ → Bytes → RingBuffer
  set_thread_info r thread_id thread_name = record r {
    thread_id = thread_id;
    thread_name = thread_name;
  }

  unfoldable pub set_dead : RingBuffer → RingBuffer
  set_dead r = record r { live = false }

  unfoldable pub reserve_turn : ℕ → Backpressure → RingBuffer → Asked
  reserve_turn total_size policy r =
      if ltb (saturating_add (occupied_len r.queue) total_size) r.capacity
      then granted
      else on_full policy r.live

  -- `none` is the panic of the `debug_assert_eq!`.
  unfoldable pub commit : RingBuffer → Bytes → Option RingBuffer
  commit r bytes =
      let (pushed_len, queue') = push_slice r.queue bytes in
      if pushed_len == length bytes then some (record r { queue = queue' }) else none

  -- The record is assembled in the scratch buffer, and committed from there.
  unfoldable pub write_record : RingBuffer → Bytes → Option RingBuffer
  unfolding commit
  write_record r bytes = commit r bytes

  -- how many bytes were moved, and `out` with them at its end
  unfoldable pub pop_available : RingBuffer → Bytes → Option (ℕ × Bytes × RingBuffer)
  pop_available r out =
      let avail = occupied_len r.queue in
      let (bytes, queue') = pop_slice r.queue avail in
      some (
        if avail == 0
        then (0, out, r)
        else (length bytes, out ++ bytes, record r { queue = queue' }))

  pub record IsSound (r : RingBuffer) : Type 0 where
    pub room_is : room r.queue ≡ r.capacity
    pub word : r.capacity < u64_mod

  abbrev pub visible : RingBuffer → Bytes
  visible r = items r.queue

  -- A new ring is sound and empty.
  pub with_capacity-IsSound :
      (capacity : ℕ) (r : RingBuffer)
      → capacity < u64_mod
      → with_capacity capacity ≡ some r
      → IsSound r × (visible r ≡ [])
  unfolding with_capacity
  with_capacity-IsSound capacity r word e = ground (arith, items-heap capacity, room-heap capacity)

  pub written :
      (r : RingBuffer) (bytes : Bytes) (policy : Backpressure)
      → IsSound r
      → reserve_turn (length bytes) policy r ≡ granted
      → (r' : RingBuffer) × (write_record r bytes ≡ some r')
        × IsSound r'
        × (((visible r' ≡ visible r) × ([] ≡ [] ++ bytes))
            ⊎ ((visible r' ≡ (visible r ++ []) ++ bytes) × (◌≡◌ {A = Bytes} [] [])))
  unfolding reserve_turn write_record
  written r bytes policy v e =
      let fits : length (items r.queue) + length bytes ≤ room r.queue =
        ground (arith, occupied r.queue, v.room_is, v.word) in
      let (all, now, same) = pushed r.queue bytes fits in
      (
        record r { queue = (push_slice r.queue bytes).1 },
        rw all (ground arith),
        record { room_is = same ∙ v.room_is; word = v.word },
        inr (now ∙ ap (λ s. s ++ bytes) (sym (append-nil (items r.queue))), refl),
      )

  pub popped :
      (r : RingBuffer) (out : Bytes)
      → IsSound r
      → (r' : RingBuffer) × (pop_available r out ≡ some (length (visible r), out ++ visible r, r'))
        × IsSound r'
        × (visible r' ≡ [])
        × (◌≡◌ {A = Bytes} [] [])
  unfolding pop_available
  popped r out v = elim (Bool-cases (length (items r.queue) == 0)) [
    | inl e ↦
        let empty = no_bytes (items r.queue) ((==_iff _ _).0 e) in
        (
          r,
          rw (occupied r.queue, e)
              (ap (λ s. some (0, s, r)) (sym (append-nil out))
                ∙ ap (λ s. some (length s, out ++ s, r)) (sym empty)),
          v,
          empty,
          refl,
        )
    | inr e ↦
        let (all, left, same) = crate.popped r.queue in
        (
          record r { queue = (pop_slice r.queue (length (items r.queue))).1 },
          rw (occupied r.queue, e, all) refl,
          record { room_is = same ∙ v.room_is; word = v.word },
          left,
          refl,
        )
  ]

  abbrev pub backend : Backend
  backend = record {
    Buffer = RingBuffer;
    reserve_turn = reserve_turn;
    write_record = write_record;
    pop_available = pop_available;
    IsSound = IsSound;
    visible = visible;
    staged = λ r. [];
    written = written;
    popped = popped;
  }
