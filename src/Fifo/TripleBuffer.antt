-- ===== src/Fifo/TripleBuffer.antt =====
-- src/triple_buffer_backend.rs: one value at a time, behind the `triple_buffer` crate.
use ticklog.Base.{
  ◌⊎◌, inl, inr, ℕ, ◌≡◌, refl, sym, ap, ◌∙◌, arith, Bytes, Bool, true, false, not, Option, none,
  some, [], ◌∷◌, ◌++◌, length, ltb, if◌then◌else◌, append-nil, Option-cases, inl, inr,
}
use ticklog.Fifo.{Asked, granted, refused, waits, Backend}
use ticklog.Policy.{Backpressure}

-- The crate: `Input` and `Output` of one exchange. `outstanding` is the value that was published and
-- not yet fetched.
pub record Crate : Type 1 where
  pub Exchange : Type 0
  pub triple_buffer : Bytes → Exchange
  pub consumed : Exchange → Bool
  pub publish : Exchange → Bytes → Exchange
  pub update : Exchange → Bool × Exchange
  pub output_buffer : Exchange → Bytes
  pub outstanding : Exchange → Option Bytes
  pub fresh : (initial : Bytes) → outstanding (triple_buffer initial) ≡ none
  pub consumed-none : (x : Exchange) → outstanding x ≡ none → consumed x ≡ true
  pub consumed-some : (x : Exchange) (v : Bytes) → outstanding x ≡ some v → consumed x ≡ false
  pub published : (x : Exchange) (v : Bytes) → outstanding (publish x v) ≡ some v
  pub update-none :
      (x : Exchange)
      → outstanding x ≡ none
      → ((update x).0 ≡ false) × (outstanding (update x).1 ≡ none)
  pub update-some :
      (x : Exchange) (v : Bytes)
      → outstanding x ≡ some v
      → ((update x).0 ≡ true) × (output_buffer (update x).1 ≡ v) × (outstanding (update x).1 ≡ none)

module _ (crate : Crate) where
  open crate use {
    Exchange, triple_buffer, consumed, publish, update, output_buffer, outstanding, fresh,
    published,
  }

  pub record RingBuffer : Type 0 where
    pub exchange : Exchange
    pub live : Bool
    pub thread_id : ℕ
    pub thread_name : Bytes

  -- As without debug assertions, the capacity that is asked for has no effect; `initial` is 65535 zero bytes.
  unfoldable pub with_capacity : Bytes → RingBuffer
  with_capacity initial = record {
    exchange = triple_buffer initial;
    live = true;
    thread_id = 0;
    thread_name = [];
  }

  -- Both the size and the policy are ignored.
  unfoldable pub set_thread_info : RingBuffer → ℕ → Bytes → RingBuffer
  set_thread_info r thread_id thread_name = record r {
    thread_id = thread_id;
    thread_name = thread_name;
  }

  unfoldable pub set_dead : RingBuffer → RingBuffer
  set_dead r = record r { live = false }

  unfoldable pub reserve_turn : ℕ → Backpressure → RingBuffer → Asked
  reserve_turn total_size policy r =
      if consumed r.exchange then granted else if not r.live then refused else waits

  unfoldable pub commit : RingBuffer → Bytes → RingBuffer
  commit r bytes = record r { exchange = publish r.exchange bytes }

  -- The record is assembled in the scratch buffer, and committed from there.
  unfoldable pub write_record : RingBuffer → Bytes → Option RingBuffer
  unfolding commit
  write_record r bytes = some (commit r bytes)

  unfoldable pub pop_available : RingBuffer → Bytes → Option (ℕ × Bytes × RingBuffer)
  pop_available r out =
      let (updated, exchange') = update r.exchange in
      let data_bytes = output_buffer exchange' in
      let r' = record r { exchange = exchange' } in
      some (
        if updated
        then (length data_bytes, if ltb 0 (length data_bytes) then out ++ data_bytes else out, r')
        else (0, out, r'))

  abbrev value : Option Bytes → Bytes
  value none = []
  value (some v) = v

  abbrev pub visible : RingBuffer → Bytes
  visible r = value (outstanding r.exchange)

  with_capacity-empty : (initial : Bytes) → visible (with_capacity initial) ≡ []
  unfolding with_capacity
  with_capacity-empty initial = ap value (fresh initial)

  pub written :
      (r : RingBuffer) (bytes : Bytes) (policy : Backpressure)
      → Unit {0}
      → reserve_turn (length bytes) policy r ≡ granted
      → (r' : RingBuffer) × (write_record r bytes ≡ some r')
        × Unit {0}
        × (((visible r' ≡ visible r) × ([] ≡ [] ++ bytes))
            ⊎ ((visible r' ≡ (visible r ++ []) ++ bytes) × (◌≡◌ {A = Bytes} [] [])))
  unfolding reserve_turn write_record
  written r bytes policy v e = elim (Option-cases (outstanding r.exchange)) [
    | inl free ↦ (
      record r { exchange = publish r.exchange bytes },
      refl,
      tt,
      inr (
        ap value (published r.exchange bytes) ∙ sym (ap (λ o. (value o ++ []) ++ bytes) free),
        refl,
      ),
    )
    | inr (x, taken) ↦ absurd (impossible (crate.consumed-some r.exchange x taken) e)
  ]
    where
      impossible :
          consumed r.exchange ≡ false
          → (if consumed r.exchange then granted else if not r.live then refused else waits)
            ≡ granted
          → ⊥
      impossible f g = ground arith

  pub popped :
      (r : RingBuffer) (out : Bytes)
      → Unit {0}
      → (r' : RingBuffer) × (pop_available r out ≡ some (length (visible r), out ++ visible r, r'))
        × Unit {0}
        × (visible r' ≡ [])
        × (◌≡◌ {A = Bytes} [] [])
  unfolding pop_available
  popped r out v =
      let after : RingBuffer = record r { exchange = (update r.exchange).1 } in
      elim (Option-cases (outstanding r.exchange)) [
        | inl free ↦
            let (no_update, empty) = crate.update-none r.exchange free in
            (
              after,
              rw no_update (
                  ap (λ t. some (0, t, after)) (sym (append-nil out))
                  ∙ ap (λ o. some (length (value o), out ++ value o, after)) (sym free)),
              tt,
              ap value empty,
              refl,
            )
        | inr (x, taken) ↦
            let (did, is_x, empty) = crate.update-some r.exchange x taken in
            (
              after,
              rw (did, is_x)
                  (ap (λ t. some (length x, t, after)) (appended x)
                    ∙ ap (λ o. some (length (value o), out ++ value o, after)) (sym taken)),
              tt,
              ap value empty,
              refl,
            )
      ]
    where
      appended : (x : Bytes) → (if ltb 0 (length x) then out ++ x else out) ≡ out ++ x
      appended [] = sym (append-nil out)
      appended (b ∷ x) = ground arith

  abbrev pub backend : Backend
  backend = record {
    Buffer = RingBuffer;
    reserve_turn = reserve_turn;
    write_record = write_record;
    pop_available = pop_available;
    IsSound = λ r. Unit {0};
    visible = visible;
    staged = λ r. [];
    written = written;
    popped = popped;
  }
