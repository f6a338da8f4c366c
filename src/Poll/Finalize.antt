-- ===== src/Poll/Finalize.antt =====
-- The last drain of several rings.
use ticklog.Base.{
  ℕ, ◌<◌, ◌≡◌, ◌≢◌, refl, sym, ap, arith, ◌∙◌, Bytes, true, false, some, [], ◌∷◌, List, has, ==_iff,
  distinct,
}
use ticklog.Poll.{finalize, give_back}
use ticklog.Poll.Pass.{deliveries}
use ticklog.Poll.Drained.{drained_at, drained_at-there, drain_ring-drained}
use ticklog.Poll.GiveBack.{give_back-there, give_back-registry}
use ticklog.Ring.Holds.{Holds}
use ticklog.Shared.{Shared}
use ticklog.Words.{u64_mod}
use mathlib.Core.Path.{subst}

-- Rings with queues that no producer has reserved, in order.
pub data Waits (w : Shared) : List ℕ → List (List Bytes) → Type 0 where
  none_wait : Waits w [] []
  waiting :
      {a : ℕ} {rest : List ℕ} {rs : List Bytes} {queues : List (List Bytes)}
      → Holds (w.store a) rs
      → (w.store a).head < u64_mod
      → (w.store a).helper_reserved ≡ false
      → Waits w rest queues
      → Waits w (a ∷ rest) (rs ∷ queues)

pub Waits-congr :
    {w w' : Shared} {dead : List ℕ} {queues : List (List Bytes)}
    → ((b : ℕ) → has dead b ≡ true → w'.store b ≡ w.store b)
    → Waits w dead queues
    → Waits w' dead queues
Waits-congr same none_wait = none_wait
Waits-congr {w} {w'} same (waiting {a} {rest} {rs} h s f more) =
    let e' = sym (same a (ground (arith, (==_iff a a).1 refl))) in
    waiting (subst (λ r. Holds r rs) e' h) (subst (λ r. r.head < u64_mod) e' s)
      (subst (λ r. r.helper_reserved ≡ false) e' f)
      (Waits-congr (λ b p. same b (ground arith)) more)

module _ (payload : Bytes → Bytes) where
  pub finalize_lem :
      (w : Shared) (dead : List ℕ) (queues : List (List Bytes))
      → distinct dead ≡ true
      → Waits w dead queues
      → (w' : Shared) × (finalize payload w dead ≡ some (w', deliveries payload queues))
        × (w'.registry ≡ w.registry)
  unfolding finalize
  finalize_lem w [] [] d none_wait = (w, refl, refl)
  finalize_lem w [] (rs ∷ queues) d s = elim s [ ]
  finalize_lem w (a ∷ dead) [] d s = elim s [ ]
  finalize_lem w (a ∷ dead) (rs ∷ queues) d (waiting h small free more) =
      let x = drained_at w a in
      let same : (b : ℕ) → has dead b ≡ true → (give_back x a).store b ≡ w.store b = λ b m.
        let n : b ≢ a = λ eq. ground (arith, ap (has dead) eq) in
        give_back-there x a b n ∙ drained_at-there w a b n in
      let (w', run, reg) =
        finalize_lem (give_back x a) dead queues (ground arith) (Waits-congr same more) in
      (w', rw (drain_ring-drained payload w a rs h small, run) refl, reg ∙ give_back-registry x a)
