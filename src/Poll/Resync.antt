-- ===== src/Poll/Resync.antt =====
-- What `sync_rings` makes of the drain's own list.
use ticklog.Poll.Entries.{
  addresses-append, has-addresses-append, current, current-append, length-last_first,
  has-last_first, Apart, moved-distinct, moved-Apart, distinct-last_first, kept, gone, known,
}
use ticklog.Base.{
  ℕ, zero, suc, ◌≤◌, ◌≡◌, refl, sym, ap, arith, ◌∙◌, ◌&&◌, ◌||◌, ◌++◌, Bool, true, not, [], ◌∷◌,
  List, length, ◌==◌, Bool-cases, inl, inr, has, distinct, distinct-snoc, ==_iff,
}
use ticklog.Poll.{Entry, addresses, keep, swap_out, reconcile, add_new, resync}
use ticklog.Shared.{Shared}

module _ (w : Shared) where
  -- whether a ring stays
  abbrev pub stays : ℕ → Bool
  stays b = has w.registry b && keep w b

  has-reconcile :
      (fuel : ℕ) (p r : List Entry)
      → length r ≤ fuel
      → (b : ℕ)
      → has (addresses (reconcile fuel w p r)) b
        ≡ (has (addresses p) b || (has (addresses r) b && stays b))
  unfolding reconcile swap_out
  has-reconcile fuel p [] h b = ground arith
  has-reconcile zero p ((a, s) ∷ r) h b = absurd (omega arith)
  has-reconcile (suc fuel) p ((a, s) ∷ r) h b = elim (Bool-cases (stays a)) [
    | inl e ↦ rw e (
        has-reconcile fuel (p ++ (a, (w.store a).serial) ∷ []) r (omega arith) b
        ∙ kept (a == b) (has (addresses p) b) _ (has (addresses r) b) (stays b)
            (has-addresses-append p ((a, (w.store a).serial) ∷ []) b)
            (λ same. ap stays (sym ((==_iff a b).0 same)) ∙ e))
    | inr e ↦ rw e (
        has-reconcile fuel p (swap_out r) (omega (arith, length-last_first [] r)) b
        ∙ gone (a == b) (has (addresses p) b) (has (addresses r) b) _ (stays b)
            (has-last_first [] r b) (λ same. ap stays (sym ((==_iff a b).0 same)) ∙ e))
  ]

  distinct-reconcile :
      (fuel : ℕ) (p r : List Entry)
      → length r ≤ fuel
      → distinct (addresses p) ≡ true
      → distinct (addresses r) ≡ true
      → Apart p r
      → distinct (addresses (reconcile fuel w p r)) ≡ true
  unfolding reconcile swap_out
  distinct-reconcile fuel p [] h dp dr apart = dp
  distinct-reconcile zero p ((a, s) ∷ r) h dp dr apart = absurd (omega arith)
  distinct-reconcile (suc fuel) p ((a, s) ∷ r) h dp dr apart = elim (Bool-cases (stays a)) [
    | inl e ↦
        let t = (w.store a).serial in
        rw e (
          distinct-reconcile fuel (p ++ (a, t) ∷ []) r (omega arith)
            (moved-distinct p r a s t dp dr apart) (ground arith)
            (moved-Apart p r a s t dp dr apart))
    | inr e ↦ rw e (
        distinct-reconcile fuel p (swap_out r) (omega (arith, length-last_first [] r)) dp
          (distinct-last_first [] r refl (ground arith) (λ b. refl))
          (λ b. ground (arith, apart b, has-last_first [] r b)))
  ]

  current-reconcile :
      (fuel : ℕ) (p r : List Entry) → current w p ≡ true → current w (reconcile fuel w p r) ≡ true
  unfolding reconcile
  current-reconcile fuel p [] c = c
  current-reconcile zero p ((a, s) ∷ r) c = c
  current-reconcile (suc fuel) p ((a, s) ∷ r) c = elim (Bool-cases (stays a)) [
    | inl e ↦
        let t = (w.store a).serial in
        rw e (
          current-reconcile fuel (p ++ (a, t) ∷ []) r
            (ground (arith, current-append w p ((a, t) ∷ []), (==_iff t t).1 refl)))
    | inr e ↦ rw e (current-reconcile fuel p (swap_out r) c)
  ]

  abbrev is_new : ℕ → List Entry → Bool
  is_new a p = keep w a && not (has (addresses p) a)

  has-add_new :
      (xs : List ℕ) (p : List Entry) (b : ℕ)
      → has (addresses (add_new w xs p)) b ≡ (has (addresses p) b || (has xs b && keep w b))
  unfolding add_new
  has-add_new [] p b = ground arith
  has-add_new (a ∷ xs) p b = elim (Bool-cases (is_new a p)) [
    | inl e ↦
        let t = (w.store a).serial in
        rw e (
          has-add_new xs (p ++ (a, t) ∷ []) b
          ∙ kept (a == b) (has (addresses p) b) _ (has xs b) (keep w b)
              (has-addresses-append p ((a, t) ∷ []) b)
              (λ same. ap (keep w) (sym ((==_iff a b).0 same)) ∙ ground arith))
    | inr e ↦ rw e (
        has-add_new xs p b
        ∙ known (a == b) (has (addresses p) b) (has xs b) (keep w b)
            (λ same. ap (λ c. is_new c p) (sym ((==_iff a b).0 same)) ∙ e))
  ]

  distinct-add_new :
      (xs : List ℕ) (p : List Entry)
      → distinct (addresses p) ≡ true
      → distinct (addresses (add_new w xs p)) ≡ true
  unfolding add_new
  distinct-add_new [] p d = d
  distinct-add_new (a ∷ xs) p d = elim (Bool-cases (is_new a p)) [
    | inl e ↦
        let t = (w.store a).serial in
        rw e (
          distinct-add_new xs (p ++ (a, t) ∷ []) (
            ap distinct (addresses-append p ((a, t) ∷ []))
            ∙ distinct-snoc (addresses p) a d (ground arith)))
    | inr e ↦ rw e (distinct-add_new xs p d)
  ]

  current-add_new :
      (xs : List ℕ) (p : List Entry) → current w p ≡ true → current w (add_new w xs p) ≡ true
  unfolding add_new
  current-add_new [] p c = c
  current-add_new (a ∷ xs) p c = elim (Bool-cases (is_new a p)) [
    | inl e ↦
        let t = (w.store a).serial in
        rw e (
          current-add_new xs (p ++ (a, t) ∷ [])
            (ground (arith, current-append w p ((a, t) ∷ []), (==_iff t t).1 refl)))
    | inr e ↦ rw e (current-add_new xs p c)
  ]

-- When the drain's list names no ring twice, then behind `resync` it names no ring twice, names just
-- the rings that are registered and live or reserved, and has each with the serial of now.
pub resync_lem :
    (w : Shared) (rings : List Entry)
    → distinct (addresses rings) ≡ true
    → (distinct (addresses (resync w rings)) ≡ true)
      × ((b : ℕ) → has (addresses (resync w rings)) b ≡ (has w.registry b && keep w b))
      × (current w (resync w rings) ≡ true)
unfolding resync
resync_lem w rings d =
    let n = length rings in
    let mid = reconcile n w [] rings in
    (
      distinct-add_new w w.registry mid
          (distinct-reconcile w n [] rings (omega arith) refl d (λ b. refl)),
      λ b.
          ground
            (arith, has-add_new w w.registry mid b, has-reconcile w n [] rings (omega arith) b),
      current-add_new w w.registry mid (current-reconcile w n [] rings refl),
    )
