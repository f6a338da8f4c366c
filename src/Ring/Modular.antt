-- ===== src/Ring/Modular.antt =====
-- Positions on a ring: remainders by a capacity that is a multiple of the slot size.
use native.Mathlib.Nat.{mod-lt, div-add-mod'}
use native.Mathlib.Decide.{dec_lt}
use ticklog.Base.{ℕ, ◌+◌, ◌-◌, ◌/◌, ◌%◌, ◌<◌, ◌≡◌, ◌≢◌, ap, arith, mod_of_rest}

module _ (cap : ℕ) (pos : 0 < cap) where
  -- A step that stays inside the lap is a step of the offset.
  pub mod-step : (x i : ℕ) → x % cap + i < cap → (x + i) % cap ≡ x % cap + i
  mod-step x i h =
      mod_of_rest (x + i) (x / cap) cap (x % cap + i) (omega (arith, div-add-mod' x cap)) h

  -- A step to the end of the lap leads to offset 0.
  pub mod_lap : (x : ℕ) → (x + (cap - x % cap)) % cap ≡ 0
  mod_lap x =
      mod_of_rest (x + (cap - x % cap)) (x / cap + 1) cap 0
        (omega (arith, div-add-mod' x cap, mod-lt x pos)) pos

  -- Two positions less than a lap apart have different offsets.
  pub mod-ne : (x y : ℕ) → x < y → y < x + cap → x % cap ≢ y % cap
  mod-ne x y p q e =
      let d : ℕ = y - x in
      let y_is : y ≡ x + d = omega arith in
      elim (dec_lt (x % cap + d) cap) [
        | yes inside ↦ omega (arith, mod-step x d inside, ap (λ t. t % cap) y_is)
        | no outside ↦ omega (
          arith,
          mod-lt x pos,
          div-add-mod' x cap,
          ap (λ t. t % cap) y_is,
          mod_of_rest (x + d) (x / cap + 1) cap (x % cap + d - cap)
              (omega (arith, div-add-mod' x cap)) (omega (arith, mod-lt x pos)),
        )
      ]
