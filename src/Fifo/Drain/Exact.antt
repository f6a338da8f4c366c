-- ===== src/Fifo/Drain/Exact.antt =====
-- A pass over staged bytes delivers the whole records at their front.
use ticklog.Base.{
  ℕ, suc, zero, ◌<◌, ◌≤◌, ◌+◌, ◌≡◌, refl, ap, ◌∙◌, arith, Bytes, Bool, true, false, List, [], ◌∷◌,
  ◌++◌, ◌⊎◌, inl, inr, map, Option, some, length, lt→ltb, le→ltb, length-append, take-append,
  drop-append, append-nil, append_assoc, ltb, Bool-cases,
}
use ticklog.Drain.{Delivery, deliver}
use ticklog.Drain.Exact.{worked, worked-true}
use ticklog.Fifo.Drain.{Pass, again, turn, after, staging_loop, drain_staging, close}
use ticklog.Fifo.Drain.Turns.{
  append-Announces, cut-Announces, wire-Announces, turn_whole, turn_cut, loop_stop, loop_step,
}
use ticklog.Ring.{header_size}
use ticklog.Ring.Frames.{IsWire}

-- The bytes of records that follow each other.
abbrev pub flat : List Bytes → Bytes
flat [] = []
flat (r ∷ rs) = r ++ flat rs

abbrev pub AllWire : List Bytes → Type 0
AllWire [] = Unit {0}
AllWire (r ∷ rs) = IsWire r × AllWire rs

pub flat-append : (rs ss : List Bytes) → flat (rs ++ ss) ≡ flat rs ++ flat ss
flat-append [] ss = refl
flat-append (r ∷ rs) ss = rw (flat-append rs ss, append_assoc) refl

pub AllWire-append : (rs ss : List Bytes) → AllWire rs → AllWire ss → AllWire (rs ++ ss)
AllWire-append [] ss v w = w
AllWire-append (r ∷ rs) ss v w = (v.0, AllWire-append rs ss v.1 w)

-- Nothing, or the front of a record whose end is missing.
abbrev pub IsPart : Bytes → Type 0
IsPart s = (s ≡ []) ⊎ ((t : Bytes) × IsWire (s ++ t) × (0 < length t))

module _ (payload : Bytes → Bytes) where
  part_ends : (fuel : ℕ) (p : Pass) → IsPart p.rest → staging_loop payload (suc fuel) p ≡ some p
  part_ends fuel p (inl e) = loop_stop payload fuel p (lt→ltb _ _ (omega (arith, ap length e)))
  part_ends fuel p (inr (t, w, cut)) = elim (Bool-cases (ltb (length p.rest) header_size)) [
    | inl short ↦ loop_stop payload fuel p short
    | inr whole ↦
        let long : 16 ≤ length p.rest = ground arith in
        let a = cut-Announces t (omega (arith, long)) (wire-Announces w) in
        loop_step payload fuel p whole
        ∙ ap (λ u. after u (staging_loop payload fuel))
            (turn_cut payload p (length (p.rest ++ t)) a w.long
              (omega (arith, length-append p.rest t)))
  ]

  pub whole_turn :
      (b s : Bytes) (had_work : Bool) (out : List Delivery)
      → IsWire b
      → turn payload (record { rest = b ++ s; had_work = had_work; out = out })
        ≡ again (record { rest = s; had_work = true; out = out ++ deliver payload b ∷ [] })
  whole_turn b s had_work out w =
      turn_whole payload (record { rest = b ++ s; had_work = had_work; out = out }) (length b)
        (append-Announces s (omega (arith, w.long)) (wire-Announces w)) w.long
        (omega (arith, length-append b s))
      ∙ rw (take-append b s, drop-append b s) refl

  loop_exact :
      (fuel : ℕ) (rs : List Bytes) (part : Bytes) (had_work : Bool) (out : List Delivery)
      → AllWire rs
      → IsPart part
      → length (flat rs ++ part) < fuel
      → staging_loop payload fuel
          (record { rest = flat rs ++ part; had_work = had_work; out = out })
        ≡ some (record {
          rest = part;
          had_work = worked had_work rs;
          out = out ++ map (deliver payload) rs;
        })
  loop_exact zero rs part had_work out v q h = absurd (omega arith)
  loop_exact (suc fuel) [] part had_work out v q h = part_ends fuel _ q ∙ rw append-nil refl
  loop_exact (suc fuel) (r ∷ rs) part had_work out v q h =
      let len : length (flat (r ∷ rs) ++ part) ≡ length r + length (flat rs ++ part) =
        ap length (append_assoc r (flat rs) part) ∙ length-append r (flat rs ++ part) in
      let start : Pass = record { rest = flat (r ∷ rs) ++ part; had_work = had_work; out = out } in
      loop_step payload fuel start
        (le→ltb (length (flat (r ∷ rs) ++ part)) header_size (omega (arith, len, v.0.long)))
      ∙ ap (λ u. after u (staging_loop payload fuel))
          (ap (λ s. turn payload (record { rest = s; had_work = had_work; out = out }))
              (append_assoc r (flat rs) part)
            ∙ whole_turn r (flat rs ++ part) had_work out v.0)
      ∙ loop_exact fuel rs part true (out ++ deliver payload r ∷ []) v.1 q
          (omega (arith, len, v.0.long))
      ∙ finish r rs
    where
      finish :
          (r : Bytes) (rs : List Bytes)
          → ◌≡◌ {A = Option Pass}
              (some (record {
                rest = part;
                had_work = worked true rs;
                out = (out ++ deliver payload r ∷ []) ++ map (deliver payload) rs;
              }))
              (some (record {
                rest = part;
                had_work = true;
                out = out ++ map (deliver payload) (r ∷ rs);
              }))
      finish r rs =
          rw (worked-true rs, append_assoc out (deliver payload r ∷ []) (map (deliver payload) rs))
            refl

  -- Over whole records followed by nothing or by the front of a record whose end is missing: the pass ends,
  -- reports work just when there is a whole record, leaves that front, and delivers each whole record once,
  -- in order.
  pub drain_staging-exact :
      (rs : List Bytes) (part : Bytes)
      → AllWire rs
      → IsPart part
      → drain_staging payload (flat rs ++ part)
        ≡ some (worked false rs, part, map (deliver payload) rs)
  unfolding drain_staging
  drain_staging-exact rs part v q =
      ap close (loop_exact (suc (length (flat rs ++ part))) rs part false [] v q (omega arith))
