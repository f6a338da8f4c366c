-- ===== src/Sink/Memory.antt =====
-- What the in-memory sink retains.
use ticklog.Base.{
  ℕ, zero, suc, ◌+◌, ◌-◌, ◌≤◌, ◌<◌, ◌≡◌, refl, sym, ap, arith, ◌∙◌, ◌++◌, false, [], ◌∷◌, List,
  length, take, drop, take-append, length-append, append_assoc, leb, Bool-cases, inl, inr,
  append-nil, leb→le,
}
use ticklog.Drain.{Delivery}
use ticklog.Sink.{Overflow, unbounded, drop_newest, drop_oldest, Captures, empty, push, push_all}

-- what is retained of all that was captured, at that capacity
abbrev pub retained : Overflow → ℕ → List Delivery → List Delivery
retained unbounded capacity all = all
retained drop_newest capacity all = take capacity all
retained drop_oldest capacity all = drop (length all - capacity) all

abbrev pub dropped_of : Overflow → ℕ → List Delivery → ℕ
dropped_of unbounded capacity all = 0
dropped_of drop_newest capacity all = length all - capacity
dropped_of drop_oldest capacity all = length all - capacity

take-all : (n : ℕ) (xs : List Delivery) → length xs ≤ n → take n xs ≡ xs
take-all zero [] h = refl
take-all zero (x ∷ xs) h = absurd (omega arith)
take-all (suc n) [] h = refl
take-all (suc n) (x ∷ xs) h = ap (λ t. x ∷ t) (take-all n xs (omega arith))

take-full : (n : ℕ) (xs ys : List Delivery) → length xs ≡ n → take n (xs ++ ys) ≡ xs
take-full n xs ys h = ap (λ m. take m (xs ++ ys)) (sym h) ∙ take-append xs ys

abbrev made : List Delivery → ℕ → Captures
made items dropped = record { items = items; dropped = dropped }

same_captures : {i j : List Delivery} {d e : ℕ} → i ≡ j → d ≡ e → made i d ≡ made j e
same_captures {i} {j} {d} {e} p q = ap (λ t. made t d) p ∙ ap (made j) q

push_all-unbounded :
    (n : ℕ) (s : Captures) (xs : List Delivery)
    → push_all unbounded n s xs ≡ record s { items = s.items ++ xs }
unfolding push_all push
push_all-unbounded n s [] = ap (λ t. record s { items = t }) (sym (append-nil s.items))
push_all-unbounded n s (x ∷ xs) =
    push_all-unbounded n (record s { items = s.items ++ x ∷ [] }) xs
    ∙ ap (λ t. record s { items = t }) (append_assoc s.items (x ∷ []) xs)

push_all-newest :
    (n : ℕ) (s : Captures) (xs : List Delivery)
    → length s.items ≤ n
    → push_all drop_newest n s xs ≡ record {
      items = take n (s.items ++ xs);
      dropped = s.dropped + (length (s.items ++ xs) - n);
    }
unfolding push_all push
push_all-newest n s [] h =
    same_captures (sym (take-all n s.items h) ∙ ap (take n) (sym (append-nil s.items)))
      (omega (arith, length-append s.items []))
push_all-newest n s (x ∷ xs) h = elim (Bool-cases (leb n (length s.items))) [
  | inl e ↦ rw e (
      let whole : length s.items ≡ n = omega (arith, leb→le n (length s.items) e) in
      push_all-newest n (record s { dropped = s.dropped + 1 }) xs h
      ∙ same_captures (take-full n s.items xs whole ∙ sym (take-full n s.items (x ∷ xs) whole))
          (omega (arith, length-append s.items xs, length-append s.items (x ∷ xs))))
  | inr e ↦ rw e (
      push_all-newest n (record s { items = s.items ++ x ∷ [] }) xs
        (ground (arith, length-append s.items (x ∷ [])))
      ∙ ap (λ t. made (take n t) (s.dropped + (length t - n))) (append_assoc s.items (x ∷ []) xs))
]

push_all-oldest :
    (n : ℕ) (items : List Delivery) (d : ℕ) (xs : List Delivery)
    → 0 < n
    → length items ≤ n
    → push_all drop_oldest n (made items d) xs
      ≡ made (drop (length (items ++ xs) - n) (items ++ xs)) (d + (length (items ++ xs) - n))
unfolding push_all push
push_all-oldest n items d [] p h =
    let within : length (items ++ []) - n ≡ 0 = omega (arith, length-append items []) in
    same_captures (sym (append-nil items) ∙ ap (λ m. drop m (items ++ [])) (sym within))
      (omega arith)
push_all-oldest n [] d (x ∷ xs) p h =
    rw (lt→leb p) (push_all-oldest n (x ∷ []) d xs p (omega arith))
  where
    lt→leb : 0 < n → leb n 0 ≡ false
    lt→leb p = ground arith
push_all-oldest n (y ∷ ys) d (x ∷ xs) p h = elim (Bool-cases (leb n (suc (length ys)))) [
  | inl e ↦
      let short = length-append ys (x ∷ []) in
      let one = append_assoc ys (x ∷ []) xs in
      let size = length-append ys (x ∷ xs) in
      let over : length (ys ++ x ∷ xs) - n ≡ length xs =
        omega (arith, leb→le n (suc (length ys)) e) in
      let over' : suc (length (ys ++ x ∷ xs)) - n ≡ suc (length xs) =
        omega (arith, leb→le n (suc (length ys)) e) in
      rw e (
        push_all-oldest n (ys ++ x ∷ []) (d + 1) xs p (omega arith)
        ∙ ap (λ t. made (drop (length t - n) t) (d + 1 + (length t - n))) one
        ∙ same_captures
            (ap (λ m. drop m (ys ++ x ∷ xs)) over
              ∙ sym (ap (λ m. drop m (y ∷ (ys ++ x ∷ xs))) over'))
            (omega arith))
  | inr e ↦ rw e (
      push_all-oldest n (y ∷ (ys ++ x ∷ [])) d xs p (ground (arith, length-append ys (x ∷ [])))
      ∙ ap (λ t. made (drop (suc (length t) - n) (y ∷ t)) (d + (suc (length t) - n)))
          (append_assoc ys (x ∷ []) xs))
]

-- From an empty store of a positive capacity: unbounded, everything is retained; with the newest
-- dropped, the earliest captures up to the capacity; with the oldest dropped, the latest up to it. The
-- captures stay in order, and as many are counted as dropped as there are past the capacity.
pub push_all_lem :
    (overflow : Overflow) (capacity : ℕ) (xs : List Delivery)
    → 0 < capacity
    → push_all overflow capacity empty xs
      ≡ record { items = retained overflow capacity xs; dropped = dropped_of overflow capacity xs }
push_all_lem unbounded n xs p = push_all-unbounded n empty xs
push_all_lem drop_newest n xs p =
    push_all-newest n empty xs (omega arith) ∙ same_captures refl (omega arith)
push_all_lem drop_oldest n xs p =
    push_all-oldest n [] 0 xs p (omega arith) ∙ same_captures refl (omega arith)
