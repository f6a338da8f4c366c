-- ===== src/Fifo/Drain/Returns.antt =====
-- When a pass over staged bytes ends, whatever the bytes are.
use ticklog.Base.{
  ℕ, suc, zero, ◌<◌, ◌≤◌, ◌+◌, ◌≡◌, refl, sym, ap, ◌∙◌, arith, Bytes, Bool, true, false, List, [],
  ◌∷◌, ◌++◌, inl, inr, none, some, not, ◌||◌, length, get_or, drop, take, length-drop,
  length-append, ltb, le→ltb, ◌==◌, ==_iff, Bool-cases, append_assoc,
}
use ticklog.Drain.{Delivery, deliver}
use ticklog.Fifo.Drain.{
  Pass, Turn, stop, again, size_of, turn, after, staging_loop, drain_staging, close,
}
use ticklog.Fifo.Drain.Exact.{flat, AllWire, whole_turn}
use ticklog.Fifo.Drain.Turns.{loop_stop, loop_step}
use ticklog.Ring.{version, log_record, end_of_buffer, header_size}
use mathlib.Core.Path.{subst}

-- A filler of size 0, with the bytes of a header to read.
pub record Stalls (s : Bytes) : Type 0 where
  pub filler_at : get_or s 1 0 ≡ end_of_buffer
  pub size_at : size_of s ≡ 0
  pub long : header_size ≤ length s

drop_more : (k n : ℕ) (s : Bytes) → drop n (drop k s) ≡ drop (k + n) s
drop_more zero n s = ap (λ m. drop m s) (omega arith)
drop_more (suc k) n [] = nothing n ∙ sym (nothing (suc k + n))
  where
    nothing : (m : ℕ) → ◌≡◌ {A = Bytes} (drop m []) []
    nothing zero = refl
    nothing (suc m) = refl
drop_more (suc k) n (b ∷ s) =
    let e : suc (k + n) ≡ suc k + n = omega arith in drop_more k n s ∙ ap (λ m. drop m (b ∷ s)) e

-- What a turn can do: end the loop, or take bytes away.
data Moves (p : Pass) (t : Turn) : Type 0 where
  ends : t ≡ stop p → Moves p t
  goes : (k : ℕ) (p' : Pass) → 0 < k → p'.rest ≡ drop k p.rest → t ≡ again p' → Moves p t

module _ (payload : Bytes → Bytes) where
  turn-Moves : (p : Pass) → ¬ Stalls p.rest → header_size ≤ length p.rest → Moves p (turn payload p)
  unfolding turn
  turn-Moves p free long =
      let s = p.rest in
      elim (Bool-cases (get_or s 1 0 == end_of_buffer)) [
        | inl filler ↦ elim (Bool-cases (ltb (length s) (size_of s))) [
          | inl short ↦ ends (rw (filler, short) refl)
          | inr enough ↦
              goes (size_of s) (record p { rest = drop (size_of s) s }) (positive filler) refl
                (rw (filler, enough) refl)
        ]
        | inr other ↦
            elim (Bool-cases (
              not (get_or s 0 0 == version)
              || not (get_or s 1 0 == log_record)
              || ltb (size_of s) header_size)) [
                | inl corrupt ↦
                    goes 1 (record p { rest = drop 1 s }) (omega arith) refl
                      (rw (other, corrupt) refl)
                | inr fine ↦ elim (Bool-cases (ltb (length s) (size_of s))) [
                  | inl short ↦ ends (rw (other, fine, short) refl)
                  | inr enough ↦
                      goes (size_of s)
                        (record {
                          rest = drop (size_of s) s;
                          had_work = true;
                          out = p.out ++ deliver payload (take (size_of s) s) ∷ [];
                        })
                        (ground arith) refl (rw (other, fine, enough) refl)
                ]
              ]
      ]
    where
      positive : (get_or p.rest 1 0 == end_of_buffer) ≡ true → 0 < size_of p.rest
      positive filler = elim (Bool-cases (size_of p.rest == 0)) [
        | inl e ↦ absurd (
            free (record {
              filler_at = (==_iff _ _).0 filler;
              size_at = (==_iff _ _).0 e;
              long = long;
            }))
        | inr e ↦ ground arith
      ]

  loop-Returns :
      (fuel : ℕ) (p : Pass)
      → length p.rest < fuel
      → ((n : ℕ) → ¬ Stalls (drop n p.rest))
      → (q : Pass) × (staging_loop payload fuel p ≡ some q)
  loop-Returns zero p h free = absurd (omega arith)
  loop-Returns (suc fuel) p h free = elim (Bool-cases (ltb (length p.rest) header_size)) [
    | inl short ↦ (p, loop_stop payload fuel p short)
    | inr long ↦ elim (turn-Moves p (free 0) (ground arith)) [
      | ends e ↦
          (p, loop_step payload fuel p long ∙ ap (λ u. after u (staging_loop payload fuel)) e)
      | goes k p' pos rest e ↦
          let (q, f) =
            loop-Returns fuel p'
              (omega (
                arith,
                ap length rest,
                length-drop k p.rest,
                ltb_false (length p.rest) header_size long,
              ))
              (λ n.
                subst (λ s. ¬ Stalls s) (sym (ap (drop n) rest ∙ drop_more k n p.rest))
                  (free (k + n))) in
          (q, loop_step payload fuel p long ∙ ap (λ u. after u (staging_loop payload fuel)) e ∙ f)
    ]
  ]
    where
      ltb_false : (a b : ℕ) → ltb a b ≡ false → b ≤ a
      ltb_false a b h = ground arith

  -- A pass over any bytes ends, corrupt or cut off as they may be, unless the bytes of a header can be
  -- read at some place as a filler of size 0.
  pub drain_staging-Returns :
      (staging : Bytes)
      → ((n : ℕ) → ¬ Stalls (drop n staging))
      → (r : Bool × Bytes × List Delivery) × (drain_staging payload staging ≡ some r)
  unfolding drain_staging
  drain_staging-Returns staging free =
      let (q, e) = loop-Returns (suc (length staging)) _ (omega arith) free in (_, ap close e)

  stuck_turn : (p : Pass) → Stalls p.rest → turn payload p ≡ again p
  unfolding turn
  stuck_turn p v = rw (v.filler_at, v.size_at, le→ltb (length p.rest) 0 (omega arith)) refl

  stuck_loop : (fuel : ℕ) (p : Pass) → Stalls p.rest → staging_loop payload fuel p ≡ none
  unfolding staging_loop
  stuck_loop zero p v = refl
  stuck_loop (suc fuel) p v =
      loop_step payload fuel p (le→ltb _ _ v.long)
      ∙ ap (λ u. after u (staging_loop payload fuel)) (stuck_turn p v)
      ∙ stuck_loop fuel p v

  -- Where whole records are followed by a filler of size 0, the loop of the pass does not end: no number
  -- of turns is enough.
  pub staging_loop-Stalls :
      (fuel : ℕ) (rs : List Bytes) (s : Bytes) (had_work : Bool) (out : List Delivery)
      → AllWire rs
      → Stalls s
      → staging_loop payload fuel (record { rest = flat rs ++ s; had_work = had_work; out = out })
        ≡ none
  unfolding staging_loop
  staging_loop-Stalls fuel [] s had_work out v h = stuck_loop fuel _ h
  staging_loop-Stalls zero (r ∷ rs) s had_work out v h = refl
  staging_loop-Stalls (suc fuel) (r ∷ rs) s had_work out v h =
      let start : Pass = record { rest = flat (r ∷ rs) ++ s; had_work = had_work; out = out } in
      loop_step payload fuel start (
        le→ltb (length (flat (r ∷ rs) ++ s)) header_size
          (omega (arith, length-append (flat (r ∷ rs)) s, length-append r (flat rs), v.0.long)))
      ∙ ap (λ u. after u (staging_loop payload fuel))
          (ap (λ x. turn payload (record { rest = x; had_work = had_work; out = out }))
              (append_assoc r (flat rs) s)
            ∙ whole_turn payload r (flat rs ++ s) had_work out v.0)
      ∙ staging_loop-Stalls fuel rs s true (out ++ deliver payload r ∷ []) v.1 h
