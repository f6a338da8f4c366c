-- ===== src/Configure/Once.antt =====
-- Logging is configured once.
use ticklog.Base.{
  ◌≡◌, refl, sym, ap, ◌∙◌, Bool, true, false, ◌||◌, Option, none, some, List, Bool-cases,
  if◌then◌else◌, not, ltb, inl, inr, ◌⊎◌, ◌>>=◌,
}
use ticklog.Configure.{
  TicklogError, Config, Statics, Started, Configured, started, failed, set_once, spawn, install,
  claim, checked_claim, validate, configure_rt, checked_pattern, pattern_str, is_segmented,
  valid_offset,
}
use ticklog.Format.Template.{Segment}
use ticklog.Format.Template.Returns.{parse-Returns}
use ticklog.Policy.{Backpressure}
use ticklog.Ring.{is_power_of_two, slot_size}
use ticklog.Segments.{init}
use ticklog.Shared.{Shared}
use mathlib.Core.Path.{subst}

-- The registry and the policy are set.
abbrev Claimed : Statics → Type 0
Claimed s = (s.claimed ≡ true) × (b : Backpressure) × (s.backpressure ≡ some b)

-- Where a call starts the drain, the statics are claimed.
StartsClaimed : {Io : Type 0} → Option (Statics × Configured Io) → Type 0
StartsClaimed none = Unit
StartsClaimed (some (s, started d)) = Claimed s
StartsClaimed (some (s, failed e)) = Unit

if_true {ℓ} : {A : Type ℓ} (k : Bool) (x y : A) → k ≡ true → (if k then x else y) ≡ x
if_true k x y e = rw e refl

module _ {Io : Type 0} (refused : Option Io) (c : Config) where
  spawn-Claimed :
      (t : List Segment) (s : Statics) → Claimed s → StartsClaimed (some (spawn refused c t s))
  unfolding StartsClaimed
  spawn-Claimed t s v = answered refused
    where
      answered : (refused : Option Io) → StartsClaimed (some (spawn refused c t s))
      answered none = v
      answered (some e) = tt

  install-Claimed :
      (t : List Segment) (s : Statics) → Claimed s → StartsClaimed (install refused c t s)
  unfolding install StartsClaimed
  install-Claimed t s v = made (init c.backpressure c.ring_capacity s.shared) s.shared.installed
    where
      made :
          (o : Option Shared) (installed : Bool)
          → StartsClaimed (
              o >>= (λ w. some (
                if installed
                then (s, failed TicklogError.already_initialized)
                else spawn refused c t (record s { shared = w }))))
      made none installed = tt
      made (some w) true = tt
      made (some w) false = spawn-Claimed t (record s { shared = w }) v

  set_once-Set : {A : Type 0} (o : Option A) (b : A) → (a : A) × (set_once o b ≡ some a)
  set_once-Set (some a) b = (a, refl)
  set_once-Set none b = (b, refl)

  claim-Claimed : (t : List Segment) (s : Statics) → StartsClaimed (claim refused c t s)
  unfolding claim StartsClaimed
  claim-Claimed t s =
      let s2 : Statics = record s {
        backpressure = set_once s.backpressure c.backpressure;
        claimed = true;
      } in
      let set = set_once-Set s.backpressure c.backpressure in
      let v : Claimed s2 = (refl, set.0, set.1) in
      elim (Bool-cases s.claimed) [
        | inl e ↦ rw e tt
        | inr e ↦ elim (Bool-cases (is_segmented c.backpressure)) [
          | inl f ↦ rw (e, f) (install-Claimed t s2 v)
          | inr f ↦ rw (e, f) (spawn-Claimed t s2 v)
        ]
      ]

  configure_rt-Claimed : (s : Statics) → StartsClaimed (configure_rt refused c s)
  unfolding configure_rt StartsClaimed
  configure_rt-Claimed s = past (validate c)
    where
      past :
          (r : Option (TicklogError Io ⊎ List Segment))
          → StartsClaimed (r >>= checked_claim refused c s)
      past none = tt
      past (some (inl e)) = tt
      past (some (inr t)) = claim-Claimed t s

  -- The checks come to an answer.
  validate-Returns : (r : TicklogError Io ⊎ List Segment) × (validate c ≡ some r)
  unfolding validate
  validate-Returns =
      let (p, e) = parse-Returns (pattern_str c.format) in
      elim (Bool-cases (valid_offset c.timezone_offset)) [
        | inl f ↦
            elim (Bool-cases
              (not (is_power_of_two c.ring_capacity) || ltb c.ring_capacity slot_size)) [
                | inl g ↦ (inl (TicklogError.invalid_ring_capacity c.ring_capacity), rw (f, g) refl)
                | inr g ↦ (checked_pattern p, rw (f, g, e) refl)
              ]
        | inr f ↦ (inl (TicklogError.invalid_timezone_offset c.timezone_offset), rw f refl)
      ]

  claim_again :
      (t : List Segment) (s : Statics)
      → Claimed s
      → claim refused c t s ≡ some (s, failed TicklogError.already_initialized)
  unfolding claim
  claim_again t s (e, b, f) =
      if_true s.claimed _ _ e
      ∙ ap (λ o. some (record s { backpressure = o }, failed TicklogError.already_initialized))
          (ap (λ o. set_once o c.backpressure) f ∙ sym f)

  configure_rt_again :
      (s : Statics)
      → Claimed s
      → (e : TicklogError Io) × (configure_rt refused c s ≡ some (s, failed e))
  unfolding configure_rt
  configure_rt_again s v =
      let (r, q) = validate-Returns in
      let (e, g) = answer r in (e, ap (λ o. o >>= checked_claim refused c s) q ∙ g)
    where
      answer :
          (r : TicklogError Io ⊎ List Segment)
          → (e : TicklogError Io) × (checked_claim refused c s r ≡ some (s, failed e))
      answer (inl e) = (e, refl)
      answer (inr t) = (TicklogError.already_initialized, claim_again t s v)

-- Once a call has started the drain, a further call on the state that it left, whatever it is asked
-- for and whatever the system does, returns, with an error, and leaves the policy, the registry's
-- claim, the capacity and the shared objects as the first call left them.
pub configure_rt_once :
    {Io : Type 0} (refused refused' : Option Io) (c c' : Config) (s s' : Statics) (d : Started)
    → configure_rt refused c s ≡ some (s', started d)
    → (e : TicklogError Io) × (configure_rt refused' c' s' ≡ some (s', failed e))
unfolding StartsClaimed
configure_rt_once refused refused' c c' s s' d h =
    configure_rt_again refused' c' s' (subst StartsClaimed h (configure_rt-Claimed refused c s))
