-- ===== src/Ring/Capacity.antt =====
-- What the capacity check of `reserve` decides, for every sequence of tails that it sees.
use ticklog.Backoff.{Backoff, new, waited}
use ticklog.Base.{ℕ, ◌+◌, ◌≤◌, ◌<◌, ◌≡◌, arith, true, false, List, [], ◌∷◌, inl, inr, Bool-cases}
use ticklog.Policy.{Backpressure}
use ticklog.Ring.{
  Ring, Seen, Ensured, decided, waiting, fits, on_full, ensure_loop, try_ensure_capacity,
}
use ticklog.Words.{u64_mod}

-- Every tail that was seen is at most `tail`, as the drain only advances it.
abbrev pub SeenUpTo : ℕ → List Seen → Type 0
SeenUpTo tail [] = Unit {0}
SeenUpTo tail (s ∷ seen) = (s.tail ≤ tail) × SeenUpTo tail seen

-- Short of the end of u64 the wrapping test is the plain one.
pub fits-le :
    (mask head needed tail : ℕ)
    → tail ≤ head
    → head + needed < u64_mod
    → fits mask head needed tail ≡ true
    → head + needed ≤ mask + tail
unfolding fits
fits-le mask head needed tail h b e = ground arith

pub le-fits :
    (mask head needed tail : ℕ)
    → tail ≤ head
    → head + needed < u64_mod
    → head + needed ≤ mask + tail
    → fits mask head needed tail ≡ true
unfolding fits
le-fits mask head needed tail h b e = ground arith

-- What an answer of the capacity check promises where the drain's position is `tail`.
abbrev pub Granted : ℕ → ℕ → ℕ → ℕ → Ensured → Type 0
Granted mask head needed tail (decided true t) = (t ≤ tail) × (head + needed ≤ mask + tail)
Granted mask head needed tail (decided false t) = t ≤ tail
Granted mask head needed tail (waiting _) = Unit {0}

module _ (mask head needed tail : ℕ) (low : tail ≤ head) (small : head + needed < u64_mod) where
  on_full-Granted :
      (policy : Backpressure) (s : Seen) (again : Ensured)
      → s.tail ≤ tail
      → Granted mask head needed tail again
      → Granted mask head needed tail (on_full policy s again)
  unfolding on_full
  on_full-Granted Backpressure.drop s again h g = h
  on_full-Granted Backpressure.nano_log s again h g = h
  on_full-Granted Backpressure.quill s again h g = h
  on_full-Granted Backpressure.block s again h g = elim (Bool-cases s.live) [
    | inl e ↦ rw e g
    | inr e ↦ rw e h
  ]

  ensure_loop-Granted :
      (policy : Backpressure) (b : Backoff) (seen : List Seen)
      → SeenUpTo tail seen
      → Granted mask head needed tail (ensure_loop mask head needed policy b seen)
  unfolding ensure_loop
  ensure_loop-Granted policy b [] h = tt
  ensure_loop-Granted policy b (s ∷ seen) (h, hs) =
      elim (Bool-cases (fits mask head needed s.tail)) [
        | inl e ↦ rw e (h, omega (arith, fits-le mask head needed s.tail (omega arith) small e))
        | inr e ↦
            rw e (on_full-Granted policy s _ h (ensure_loop-Granted policy (waited b) seen hs))
      ]

  pub try_ensure_capacity-Granted :
      (r : Ring) (policy : Backpressure) (seen : List Seen)
      → r.mask ≡ mask
      → r.tail_cache ≤ tail
      → SeenUpTo tail seen
      → Granted mask head needed tail (try_ensure_capacity r head needed policy seen)
  unfolding try_ensure_capacity
  try_ensure_capacity-Granted r policy [] m c h = tt
  try_ensure_capacity-Granted r policy (s ∷ seen) m c (h, hs) =
      elim (Bool-cases (fits r.mask head needed r.tail_cache)) [
        | inl e ↦
            rw e (h, omega (arith, fits-le r.mask head needed r.tail_cache (omega arith) small e))
        | inr e ↦ rw (e, m) (ensure_loop-Granted policy new (s ∷ seen) (h, hs))
      ]
