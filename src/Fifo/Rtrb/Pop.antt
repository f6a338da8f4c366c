-- ===== src/Fifo/Rtrb/Pop.antt =====
-- The drain's pop of the `rtrb` backend, and the backend as a whole.
use native.Mathlib.Nat.{sub-zero}
use ticklog.Base.{
  ℕ, suc, ◌<◌, ◌+◌, ◌-◌, ◌≡◌, refl, sym, ap, ◌∙◌, arith, Bytes, true, false, some, [], ◌∷◌, ◌++◌,
  length, take, drop, leb, ◌==◌, ==_iff, append-nil, length-append, Bool-cases, inl, inr,
}
use ticklog.Fifo.{Backend, no_bytes}
use ticklog.Fifo.Rtrb.{
  Crate, SplitRing, reserve_turn, write_record, read_loop, moved_of, pop_available,
}
use ticklog.Fifo.Rtrb.Laws.{IsSound, visible, write_record_lem}

take_all : (s : Bytes) → take (length s) s ≡ s
take_all [] = refl
take_all (b ∷ s) = ap (λ t. b ∷ t) (take_all s)

drop_all : (s : Bytes) → drop (length s) s ≡ []
drop_all [] = refl
drop_all (b ∷ s) = drop_all s

module _ (crate : Crate) where
  open crate use {Queue, consumer_slots, items, room, taken}

  -- The first chunk takes all that is there.
  read_all :
      (fuel : ℕ) (q : Queue)
      → 0 < length (items q)
      → (q' : Queue) × (read_loop crate (suc fuel) q (length (items q)) 0 [] ≡ some (items q, q'))
        × (items q' ≡ [])
        × (room q' ≡ room q)
  unfolding read_loop
  read_all fuel q pos =
      let n = length (items q) in
      let (a, b, e, all) = crate.read_chunk_lem q n (omega (arith, taken q)) in
      let bytes : a ++ b ≡ items q = all ∙ take_all (items q) in
      let size : length a + length b ≡ n = sym (length-append a b) ∙ ap length bytes in
      let (left, same) = crate.commit_read_lem q n (omega (arith, taken q)) in
      let some_left : ((n - 0) == 0) ≡ false = ground arith in
      let done : leb n (0 + n) ≡ true = ground arith in
      (
        crate.commit_read q n,
        rw (some_left, sub-zero n, e, size, done, bytes) refl,
        left ∙ drop_all (items q),
        same,
      )

  pub popped :
      (r : SplitRing crate) (out : Bytes)
      → IsSound crate r
      → (r' : SplitRing crate) × (pop_available crate r out
          ≡ some (length (visible crate r), out ++ visible crate r, r'))
        × IsSound crate r'
        × (visible crate r' ≡ [])
        × (r'.staged ≡ r.staged)
  unfolding pop_available
  popped r out v = elim (Bool-cases (length (items r.queue) == 0)) [
    | inl e ↦
        let empty = no_bytes (items r.queue) ((==_iff _ _).0 e) in
        (
          r,
          rw (taken r.queue, e)
              (ap (λ s. some (0, s, r)) (sym (append-nil out))
                ∙ ap (λ s. some (length s, out ++ s, r)) (sym empty)),
          v,
          empty,
          refl,
        )
    | inr e ↦
        let (q, f, empty, same) = read_all (length (items r.queue)) r.queue (ground arith) in
        (
          record r { queue = q },
          rw (taken r.queue, e) (ap (moved_of crate r out) f),
          record { room_is = same ∙ v.room_is; word = v.word },
          empty,
          refl,
        )
  ]

  abbrev pub backend : Backend
  backend = record {
    Buffer = SplitRing crate;
    reserve_turn = reserve_turn crate;
    write_record = write_record crate;
    pop_available = pop_available crate;
    IsSound = IsSound crate;
    visible = visible crate;
    staged = λ r. r.staged;
    written = λ r bytes policy v e. write_record_lem crate r bytes policy v e;
    popped = popped;
  }
