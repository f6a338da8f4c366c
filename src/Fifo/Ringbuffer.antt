-- ===== src/Fifo/Ringbuffer.antt =====
-- src/ringbuffer_backend.rs: a byte queue behind the `ringbuffer` crate and one mutex.
use native.Mathlib.Nat.{add-zero, zero-add}
use ticklog.Base.{
  ◌⊎◌, inr, ℕ, zero, suc, ◌<◌, ◌≤◌, ◌+◌, ◌≡◌, refl, sym, ap, ◌∙◌, arith, Bytes, Byte, Bool, true,
  false, ◌&&◌, Option, none, some, [], ◌∷◌, ◌++◌, length, leb, ltb, if◌then◌else◌, length-append,
  append-nil, append_assoc,
}
use ticklog.Fifo.{Asked, granted, on_full, saturating_add, Backend}
use ticklog.Policy.{Backpressure}
use ticklog.Ring.{is_power_of_two, slot_size}
use ticklog.Words.{u64_mod}

-- The crate: `AllocRingBuffer`. An `enqueue` on a full queue would lose the oldest item.
pub record Crate : Type 1 where
  pub AllocRingBuffer : Type 0
  pub new : ℕ → AllocRingBuffer
  pub len : AllocRingBuffer → ℕ
  pub enqueue : AllocRingBuffer → Byte → AllocRingBuffer
  pub dequeue : AllocRingBuffer → Option (Byte × AllocRingBuffer)
  pub items : AllocRingBuffer → Bytes
  pub room : AllocRingBuffer → ℕ
  pub items-new : (n : ℕ) → items (new n) ≡ []
  pub room-new : (n : ℕ) → is_power_of_two n ≡ true → room (new n) ≡ n
  pub len_is : (q : AllocRingBuffer) → len q ≡ length (items q)
  pub enqueued :
      (q : AllocRingBuffer) (b : Byte)
      → length (items q) < room q
      → (items (enqueue q b) ≡ items q ++ b ∷ []) × (room (enqueue q b) ≡ room q)
  pub dequeue-nil : (q : AllocRingBuffer) → items q ≡ [] → dequeue q ≡ none
  pub dequeue-cons :
      (q : AllocRingBuffer) (b : Byte) (s : Bytes)
      → items q ≡ b ∷ s
      → (q' : AllocRingBuffer) × (dequeue q ≡ some (b, q')) × (items q' ≡ s) × (room q' ≡ room q)

module _ (crate : Crate) where
  open crate use {
    AllocRingBuffer, new, len, enqueue, dequeue, items, room, items-new, room-new, len_is,
  }

  pub record RingBuffer : Type 0 where
    pub fifo : AllocRingBuffer
    pub live : Bool
    pub capacity : ℕ
    pub thread_id : ℕ
    pub thread_name : Bytes

  -- `none` is the panic of the `assert!`.
  unfoldable pub with_capacity : ℕ → Option RingBuffer
  with_capacity capacity =
      if is_power_of_two capacity && leb slot_size capacity
      then some (record {
        fifo = new capacity;
        live = true;
        capacity = capacity;
        thread_id = 0;
        thread_name = [];
      })
      else none

  unfoldable pub set_thread_info : RingBuffer → ℕ → Bytes → RingBuffer
  set_thread_info r thread_id thread_name = record r {
    thread_id = thread_id;
    thread_name = thread_name;
  }

  unfoldable pub set_dead : RingBuffer → RingBuffer
  set_dead r = record r { live = false }

  unfoldable pub reserve_turn : ℕ → Backpressure → RingBuffer → Asked
  reserve_turn total_size policy r =
      if ltb (saturating_add (len r.fifo) total_size) r.capacity
      then granted
      else on_full policy r.live

  unfoldable pub enqueue_all : AllocRingBuffer → Bytes → AllocRingBuffer
  enqueue_all q [] = q
  enqueue_all q (b ∷ bytes) = enqueue_all (enqueue q b) bytes

  unfoldable pub commit : RingBuffer → Bytes → RingBuffer
  commit r bytes = record r { fifo = enqueue_all r.fifo bytes }

  -- The record is assembled in the scratch buffer, and committed from there.
  unfoldable pub write_record : RingBuffer → Bytes → Option RingBuffer
  unfolding commit
  write_record r bytes = some (commit r bytes)

  -- `while let Some(b) = fifo.dequeue()`, on fuel; `none` means that it ran out
  unfoldable pub dequeue_all :
      ℕ → AllocRingBuffer → ℕ → Bytes → Option (ℕ × Bytes × AllocRingBuffer)
  dequeue_all zero q moved out = none
  dequeue_all (suc fuel) q moved out = elim (dequeue q) [
    | none ↦ some (moved, out, q)
    | some (b, q') ↦ dequeue_all fuel q' (moved + 1) (out ++ b ∷ [])
  ]

  abbrev with_fifo :
      RingBuffer → Option (ℕ × Bytes × AllocRingBuffer) → Option (ℕ × Bytes × RingBuffer)
  with_fifo r none = none
  with_fifo r (some (moved, out, q)) = some (moved, out, record r { fifo = q })

  -- One turn more than there are bytes.
  unfoldable pub pop_available : RingBuffer → Bytes → Option (ℕ × Bytes × RingBuffer)
  unfolding dequeue_all
  pop_available r out = with_fifo r (dequeue_all (suc (len r.fifo)) r.fifo 0 out)

  pub record IsSound (r : RingBuffer) : Type 0 where
    pub room_is : room r.fifo ≡ r.capacity
    pub word : r.capacity < u64_mod

  abbrev pub visible : RingBuffer → Bytes
  visible r = items r.fifo

  -- A new ring is sound and empty.
  pub with_capacity-IsSound :
      (capacity : ℕ) (r : RingBuffer)
      → capacity < u64_mod
      → with_capacity capacity ≡ some r
      → IsSound r × (visible r ≡ [])
  unfolding with_capacity
  with_capacity-IsSound capacity r word e = ground (arith, items-new capacity, room-new capacity)

  enqueue_all_lem :
      (q : AllocRingBuffer) (bytes : Bytes)
      → length (items q) + length bytes ≤ room q
      → (items (enqueue_all q bytes) ≡ items q ++ bytes) × (room (enqueue_all q bytes) ≡ room q)
  unfolding enqueue_all
  enqueue_all_lem q [] h = (sym (append-nil (items q)), refl)
  enqueue_all_lem q (b ∷ bytes) h =
      let (now, same) = crate.enqueued q b (omega arith) in
      let (all, still) =
        enqueue_all_lem (enqueue q b) bytes
          (omega (arith, ap length now, length-append (items q) (b ∷ []), same)) in
      (all ∙ ap (λ s. s ++ bytes) now ∙ append_assoc (items q) (b ∷ []) bytes, still ∙ same)

  pub written :
      (r : RingBuffer) (bytes : Bytes) (policy : Backpressure)
      → IsSound r
      → reserve_turn (length bytes) policy r ≡ granted
      → (r' : RingBuffer) × (write_record r bytes ≡ some r')
        × IsSound r'
        × (((visible r' ≡ visible r) × ([] ≡ [] ++ bytes))
            ⊎ ((visible r' ≡ (visible r ++ []) ++ bytes) × (◌≡◌ {A = Bytes} [] [])))
  unfolding reserve_turn write_record
  written r bytes policy v e =
      let fits : length (items r.fifo) + length bytes ≤ room r.fifo =
        ground (arith, len_is r.fifo, v.room_is, v.word) in
      let (now, same) = enqueue_all_lem r.fifo bytes fits in
      (
        record r { fifo = enqueue_all r.fifo bytes },
        refl,
        record { room_is = same ∙ v.room_is; word = v.word },
        inr (now ∙ ap (λ s. s ++ bytes) (sym (append-nil (items r.fifo))), refl),
      )

  dequeue_all_lem :
      (s : Bytes) (fuel : ℕ) (q : AllocRingBuffer) (moved : ℕ) (out : Bytes)
      → items q ≡ s
      → length s < fuel
      → (q' : AllocRingBuffer) × (dequeue_all fuel q moved out
          ≡ some (moved + length s, out ++ s, q'))
        × (items q' ≡ [])
        × (room q' ≡ room q)
  unfolding dequeue_all
  dequeue_all_lem s zero q moved out e h = absurd (omega arith)
  dequeue_all_lem [] (suc fuel) q moved out e h = (
    q,
    rw (crate.dequeue-nil q e, dequeue_all)
        (ap (λ t. some (moved, t, q)) (sym (append-nil out))
          ∙ ap (λ n. some (n, out ++ [], q)) (sym (add-zero moved))),
    e,
    refl,
  )
  dequeue_all_lem (b ∷ s) (suc fuel) q moved out e h =
      let (q', f, rest, same) = crate.dequeue-cons q b s e in
      let (q2, g, empty, still) =
        dequeue_all_lem s fuel q' (moved + 1) (out ++ b ∷ []) rest (omega arith) in
      let count : moved + 1 + length s ≡ moved + suc (length s) = omega arith in
      (
        q2,
        rw (f, dequeue_all)
            (g
              ∙ ap (λ t. some (moved + 1 + length s, t, q2)) (append_assoc out (b ∷ []) s)
              ∙ ap (λ n. some (n, out ++ b ∷ s, q2)) count),
        empty,
        still ∙ same,
      )

  pub popped :
      (r : RingBuffer) (out : Bytes)
      → IsSound r
      → (r' : RingBuffer) × (pop_available r out ≡ some (length (visible r), out ++ visible r, r'))
        × IsSound r'
        × (visible r' ≡ [])
        × (◌≡◌ {A = Bytes} [] [])
  unfolding pop_available
  popped r out v =
      let (q, e, empty, same) =
        dequeue_all_lem (items r.fifo) (suc (len r.fifo)) r.fifo 0 out refl
          (omega (arith, len_is r.fifo)) in
      (
        record r { fifo = q },
        ap (with_fifo r) e
            ∙ ap (λ n. some (n, out ++ items r.fifo, record r { fifo = q }))
                (zero-add (length (items r.fifo))),
        record { room_is = same ∙ v.room_is; word = v.word },
        empty,
        refl,
      )

  abbrev pub backend : Backend
  backend = record {
    Buffer = RingBuffer;
    reserve_turn = reserve_turn;
    write_record = write_record;
    pop_available = pop_available;
    IsSound = IsSound;
    visible = visible;
    staged = λ r. [];
    written = written;
    popped = popped;
  }
