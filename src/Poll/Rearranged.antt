-- ===== src/Poll/Rearranged.antt =====
-- The segments of the drain's list, and the order that `swap_remove` leaves them in.
use ticklog.Base.{
  ℕ, ◌≡◌, refl, sym, ap, ◌∙◌, Bytes, Bool, true, false, List, [], ◌∷◌, ◌++◌, append-nil,
  append_assoc,
}
use ticklog.Poll.{Entry, last_first}
use ticklog.Poll.Disorder.{Listed}
use ticklog.Shared.{Shared}
use mathlib.Core.List.{Perm}
use mathlib.Core.List.Perm
use mathlib.Core.List.{perm_append_singleton}

-- A segment of the drain's list: its entry, its queue, and whether its producer is done with it.
pub record Segment : Type 0 where
  pub at : ℕ
  pub serial : ℕ
  pub queue : List Bytes
  pub full : Bool

abbrev pub entries : List Segment → List Entry
entries [] = []
entries (i ∷ is) = (i.at, i.serial) ∷ entries is

abbrev pub queues : List Segment → List (List Bytes)
queues [] = []
queues (i ∷ is) = i.queue ∷ queues is

-- The segments that their producers still write to.
abbrev pub still_written : List Segment → List Segment
still_written [] = []
still_written (i ∷ is) = elim i.full [ true ↦ still_written is | false ↦ i ∷ still_written is ]

abbrev pub AllListed : Shared → List Segment → Type 0
AllListed w [] = Unit {0}
AllListed w (i ∷ is) = Listed w i.at i.serial i.queue i.full × AllListed w is

AllListed-append :
    (w : Shared) (is js : List Segment) → AllListed w is → AllListed w js → AllListed w (is ++ js)
AllListed-append w [] js v u = u
AllListed-append w (i ∷ is) js v u = (v.0, AllListed-append w is js v.1 u)

entries-append : (is js : List Segment) → entries (is ++ js) ≡ entries is ++ entries js
entries-append [] js = refl
entries-append (i ∷ is) js = ap (λ t. (i.at, i.serial) ∷ t) (entries-append is js)

-- What `swap_remove` leaves are the same segments in another order.
abbrev pub Rearranged : Shared → List Entry → List Segment → Type 0
Rearranged w es is = (js : List Segment) × (es ≡ entries js) × AllListed w js × Perm js is

pub last_first-Rearranged :
    (w : Shared) (passed is : List Segment)
    → AllListed w passed
    → AllListed w is
    → Rearranged w (last_first (entries passed) (entries is)) (passed ++ is)
last_first-Rearranged w passed [] v u = (passed, refl, v, rw (append-nil passed) (Perm.refl passed))
last_first-Rearranged w passed (i ∷ []) v u =
    (i ∷ passed, refl, (u.0, v), Perm.symm (perm_append_singleton i passed))
last_first-Rearranged w passed (i ∷ j ∷ is) v u =
    let (js, e, x, perm) =
      last_first-Rearranged w (passed ++ i ∷ []) (j ∷ is)
        (AllListed-append w passed (i ∷ []) v (u.0, tt)) u.1 in
    (
      js,
      ap (λ t. last_first t (entries (j ∷ is))) (sym (entries-append passed (i ∷ []))) ∙ e,
      x,
      rw (sym (append_assoc passed (i ∷ []) (j ∷ is))) perm,
    )
