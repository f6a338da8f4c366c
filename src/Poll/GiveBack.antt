-- ===== src/Poll/GiveBack.antt =====
-- What the pool does with a segment that it gets back.
use ticklog.Poll.Drained.{flags-Holds}
use ticklog.Base.{
  ℕ, ◌≡◌, ◌≢◌, refl, sym, ap, ◌∙◌, ◌&&◌, Bool, true, false, not, [], ◌∷◌, List, if◌then◌else◌,
}
use ticklog.Poll.{give_back}
use ticklog.Ring.{mark_recycled}
use ticklog.Ring.Holds.{Holds}
use ticklog.Segments.{drain_recycle, recycle}
use ticklog.Shared.{Shared, update, update_here, update_there}
use mathlib.Core.Path.{subst}

-- What a visit leaves of the pool when the entry went.
abbrev pub pool_after : Shared → ℕ → Bool → List ℕ
pool_after w a retired =
    if retired && w.installed && (w.store a).recyclable && not (w.store a).recycled
    then a ∷ w.spares
    else w.spares

-- what becomes of the state, by the flags of the ring and of the pool
abbrev given : Bool → Bool → Bool → Shared → Shared → Shared → Shared
given installed recyclable recycled pooled marked w =
    let answer : Bool × Shared =
      if recyclable
      then (if not recycled then (true, pooled) else (false, marked))
      else (false, w) in
    if installed then answer.1 else w

module _ (w : Shared) (a : ℕ) where
  abbrev marked : Shared
  marked = update w a (λ r. record r { recycled = true })

  abbrev pooled : Shared
  pooled = record marked { spares = a ∷ w.spares }

  give_back-given :
      give_back w a ≡ given w.installed (w.store a).recyclable (w.store a).recycled pooled marked w
  unfolding drain_recycle recycle mark_recycled
  give_back-given = refl

  -- A property of the three states that `give_back` can leave.
  given-any : (P : Shared → Type 0) → P w → P marked → P pooled → P (give_back w a)
  given-any P p m q =
      subst P (sym give_back-given) (cases w.installed (w.store a).recyclable (w.store a).recycled)
    where
      cases : (i c d : Bool) → P (given i c d pooled marked w)
      cases false c d = p
      cases true false d = p
      cases true true false = q
      cases true true true = m

  pub give_back-spares : (give_back w a).spares ≡ pool_after w a true
  give_back-spares =
      ap (λ x. x.spares) give_back-given
      ∙ cases w.installed (w.store a).recyclable (w.store a).recycled
    where
      cases :
          (i c d : Bool)
          → (given i c d pooled marked w).spares
            ≡ (if i && c && not d then a ∷ w.spares else w.spares)
      cases false c d = refl
      cases true false d = refl
      cases true true false = refl
      cases true true true = refl

  pub give_back-registry : (give_back w a).registry ≡ w.registry
  give_back-registry = given-any (λ x. x.registry ≡ w.registry) refl refl refl

  pub give_back-there : (b : ℕ) → b ≢ a → (give_back w a).store b ≡ w.store b
  give_back-there b n =
      let other = update_there w a b (λ r. record r { recycled = true }) n in
      given-any (λ x. x.store b ≡ w.store b) refl other other

  pub give_back-Holds : Holds (w.store a) [] → Holds ((give_back w a).store a) []
  give_back-Holds v =
      let here : Holds (marked.store a) [] =
        subst (λ r. Holds r []) (sym (update_here w a (λ r. record r { recycled = true })))
          (flags-Holds (w.store a).draining true v) in
      given-any (λ x. Holds (x.store a) []) v here here

  pub give_back-idle :
      {h : ℕ}
      → ((w.store a).draining ≡ false) × ((w.store a).head ≡ h)
      → (((give_back w a).store a).draining ≡ false) × (((give_back w a).store a).head ≡ h)
  give_back-idle {h} v =
      let here = update_here w a (λ r. record r { recycled = true }) in
      let m : ((marked.store a).draining ≡ false) × ((marked.store a).head ≡ h) =
        (ap (λ r. r.draining) here ∙ v.0, ap (λ r. r.head) here ∙ v.1) in
      given-any (λ x. ((x.store a).draining ≡ false) × ((x.store a).head ≡ h)) v m m
