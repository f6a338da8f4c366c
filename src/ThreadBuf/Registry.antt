-- ===== src/ThreadBuf/Registry.antt =====
-- The registry of rings and the serials of its registrations.
use ticklog.Base.{
  ℕ, suc, ◌<◌, ◌≡◌, ◌≢◌, refl, sym, ap, arith, ◌∙◌, ◌||◌, ◌++◌, Bool, true, false, [], ◌∷◌, ◌==◌,
  ==_iff, if◌then◌else◌, has, has-append, distinct, distinct-snoc, Bool-cases, inl, inr,
}
use ticklog.Shared.{Shared, update, update_here, update_there}
use mathlib.Core.Path.{subst}
use ticklog.ThreadBuf.{register_ring, set_serial}
use ticklog.Words.{u64_mod, wrapping_add}

-- No ring is registered twice, and every registered ring has a serial below the counter.
pub record IsRegistry (w : Shared) : Type 0 where
  pub once : distinct w.registry ≡ true
  pub old : (b : ℕ) → has w.registry b ≡ true → (w.store b).serial < w.next_serial

known : (same : Bool) {h h' : Bool} → h' ≡ true → (same ≡ true → h ≡ h') → h ≡ (h || same)
known true e f = ground (arith, f refl)
known false e f = ground arith

module _ (w : Shared) (a : ℕ) where
  abbrev stamped : Shared
  stamped =
      update (record w { next_serial = wrapping_add w.next_serial 1 }) a (set_serial w.next_serial)

  -- A property of both states that `register_ring` can leave.
  register_ring-any :
      (P : Shared → Type 0)
      → (has w.registry a ≡ true → P stamped)
      → (has w.registry a ≡ false → P (record stamped { registry = w.registry ++ a ∷ [] }))
      → P (register_ring w a)
  unfolding register_ring
  register_ring-any P p q = elim (Bool-cases (has w.registry a)) [
    | inl e ↦ subst P (sym (ap choice e)) (p e)
    | inr e ↦ subst P (sym (ap choice e)) (q e)
  ]
    where
      choice : Bool → Shared
      choice c = if c then stamped else record stamped { registry = w.registry ++ a ∷ [] }

  register_ring-next_serial : (register_ring w a).next_serial ≡ wrapping_add w.next_serial 1
  register_ring-next_serial =
      register_ring-any (λ x. x.next_serial ≡ wrapping_add w.next_serial 1) (λ e. refl) (λ e. refl)

  pub register_ring-here : (register_ring w a).store a ≡ set_serial w.next_serial (w.store a)
  register_ring-here =
      let here = update_here w a (set_serial w.next_serial) in
      register_ring-any (λ x. x.store a ≡ set_serial w.next_serial (w.store a)) (λ e. here)
        (λ e. here)

  pub register_ring-there : (b : ℕ) → b ≢ a → (register_ring w a).store b ≡ w.store b
  register_ring-there b n =
      let there = update_there w a b (set_serial w.next_serial) n in
      register_ring-any (λ x. x.store b ≡ w.store b) (λ e. there) (λ e. there)

  pub register_ring-has :
      (b : ℕ) → has (register_ring w a).registry b ≡ (has w.registry b || a == b)
  register_ring-has b =
      register_ring-any (λ x. has x.registry b ≡ (has w.registry b || a == b))
        (λ e. known (a == b) e (λ same. ap (has w.registry) (sym ((==_iff a b).0 same))))
        (λ e. ground (arith, has-append w.registry (a ∷ []) b))

  register_ring-once : distinct w.registry ≡ true → distinct (register_ring w a).registry ≡ true
  register_ring-once d =
      register_ring-any (λ x. distinct x.registry ≡ true) (λ e. d) (distinct-snoc w.registry a d)

-- Below 2^64 - 1 registrations: registering a ring, a new one or one that is registered already,
-- keeps the registry without doubles and the serials below the counter; the ring is registered, the
-- others are registered as before, and the serial of the ring is one that no registered ring had.
pub register_ring-IsRegistry :
    (w : Shared) (a : ℕ)
    → IsRegistry w
    → suc w.next_serial < u64_mod
    → let w' = register_ring w a in
      IsRegistry w'
      × ((b : ℕ) → has w'.registry b ≡ (has w.registry b || a == b))
      × ((w'.store a).serial ≡ w.next_serial)
      × ((b : ℕ) → has w.registry b ≡ true → (w.store b).serial ≢ (w'.store a).serial)
      × ((b : ℕ) → b ≢ a → w'.store b ≡ w.store b)
register_ring-IsRegistry w a v h =
    let w' = register_ring w a in
    let next : w'.next_serial ≡ suc w.next_serial = register_ring-next_serial w a ∙ omega arith in
    let here = register_ring-here w a in
    let there = register_ring-there w a in
    let fresh : (w'.store a).serial ≡ w.next_serial = ap (λ r. r.serial) here in
    (
      record {
        once = register_ring-once w a v.once;
        old = λ b m. elim (Bool-cases (a == b)) [
          | inl e ↦
              let eq = (==_iff a b).0 e in
              subst (λ c. (w'.store c).serial < w'.next_serial) eq (omega arith)
          | inr e ↦
              let n : b ≢ a = λ eq. ground (arith, (==_iff a b).1 (sym eq)) in
              let was : has w.registry b ≡ true = ground (arith, register_ring-has w a b) in
              omega (arith, v.old b was, ap (λ r. r.serial) (there b n))
        ];
      },
      register_ring-has w a,
      fresh,
      λ b m e. omega (arith, v.old b m),
      there,
    )
