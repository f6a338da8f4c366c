-- ===== src/Sink/Fan.antt =====
-- A fan-out as the sinks that it holds, each by itself.
use ticklog.Base.{
  ◌≡◌, refl, ap, ◌∙◌, Bytes, Bool, true, [], ◌∷◌, List, map, if◌then◌else◌, Bool-cases, inl, inr,
}
use ticklog.Drain.{Delivery}
use ticklog.Level.{Level, level_le}
use ticklog.Sink.{Child, fan_accept, fan_all}

-- the deliveries at that level and below
abbrev pub at_most : Level → List Delivery → List Delivery
at_most max [] = []
at_most max ((line, level) ∷ more) =
    let rest = at_most max more in if level_le level max then (line, level) ∷ rest else rest

module _ {ℓ} {S : Type ℓ} (accept : S → Bytes → Level → S × Bool) where
  -- one sink that is given the deliveries one after the other
  abbrev pub alone : S → List Delivery → S
  alone s [] = s
  alone s ((line, level) ∷ more) = alone (accept s line level).0 more

  abbrev pub served : List Delivery → Child S → Child S
  served ds c = record c { state = alone c.state (at_most c.max_level ds) }

  one :
      (c : Child S) (line : Bytes) (level : Level) (more : List Delivery)
      → served more (
          if level_le level c.max_level
          then record c { state = (accept c.state line level).0 }
          else c)
        ≡ served ((line, level) ∷ more) c
  one c line level more = elim (Bool-cases (level_le level c.max_level)) [
    | inl e ↦ rw e refl
    | inr e ↦ rw e refl
  ]

  step :
      (entries : List (Child S)) (line : Bytes) (level : Level) (more : List Delivery)
      → map (served more) (fan_accept accept entries line level).0
        ≡ map (served ((line, level) ∷ more)) entries
  unfolding fan_accept
  step [] line level more = refl
  step (c ∷ entries) line level more = rw (one c line level more, step entries line level more) refl

  -- Whatever the inner sinks do and answer, each sink of a fan-out ends as if it had been given,
  -- alone and in order, the deliveries at its own level and below; each call of the fan-out answers
  -- Ok.
  pub fan_all_lem :
      (entries : List (Child S)) (ds : List Delivery)
      → (fan_all accept entries ds ≡ map (served ds) entries)
        × ((line : Bytes) (level : Level) → (fan_accept accept entries line level).1 ≡ true)
  unfolding fan_all fan_accept
  fan_all_lem entries ds = (all entries ds, ok entries)
    where
      ok :
          (entries : List (Child S)) (line : Bytes) (level : Level)
          → (fan_accept accept entries line level).1 ≡ true
      ok [] line level = refl
      ok (c ∷ entries) line level = refl

      none_given : (entries : List (Child S)) → entries ≡ map (served []) entries
      none_given [] = refl
      none_given (c ∷ entries) = ap (λ t. c ∷ t) (none_given entries)

      all :
          (entries : List (Child S)) (ds : List Delivery)
          → fan_all accept entries ds ≡ map (served ds) entries
      all entries [] = none_given entries
      all entries ((line, level) ∷ more) =
          all (fan_accept accept entries line level).0 more ∙ step entries line level more
