-- ===== src/Fifo/Order.antt =====
-- Every run over a byte-queue backend delivers the logged records in order.
use ticklog.Base.{
  ◌≡◌, refl, ap, ◌∙◌, sym, Bytes, Bool, List, [], ◌∷◌, ◌++◌, some, none, Option, map, map-append,
  length, le→ltb, append-nil, append_assoc, inl, inr, ◌⊎◌, false,
}
use ticklog.Drain.{Delivery, deliver}
use ticklog.Drain.Exact.{worked}
use ticklog.Fifo.{
  Backend, Asked, granted, refused, waits, Sent, logged, dropped, waiting, panicked, stored,
  dispatch_turn, drain_pass, Run, start, log, pass,
}
use ticklog.Fifo.Drain.{drain_staging}
use ticklog.Fifo.Drain.Exact.{flat, AllWire, flat-append, AllWire-append, drain_staging-exact}
use ticklog.Policy.{Backpressure}
use ticklog.Ring.{max_record_size}
use ticklog.Ring.Frames.{IsWire}
use mathlib.Core.Path.{subst}

module _ (b : Backend) where
  -- What a dispatched record leaves in the ring.
  abbrev Stored : b.Buffer → Bytes → Sent b → Type 0
  Stored r bytes (logged r') =
      b.IsSound r'
      × (((b.visible r' ≡ b.visible r) × (b.staged r' ≡ b.staged r ++ bytes))
          ⊎ ((b.visible r' ≡ (b.visible r ++ b.staged r) ++ bytes) × (b.staged r' ≡ [])))
  Stored r bytes dropped = Unit {0}
  Stored r bytes waiting = Unit {0}
  Stored r bytes panicked = ⊥

  -- No call panics.
  dispatch_turn-Stored :
      (r : b.Buffer) (bytes : Bytes) (policy : Backpressure)
      → b.IsSound r
      → IsWire bytes
      → Stored r bytes (dispatch_turn b r bytes policy)
  unfolding dispatch_turn
  dispatch_turn-Stored r bytes policy v w =
      rw (le→ltb max_record_size (length bytes) w.short)
        (asked (b.reserve_turn (length bytes) policy r) refl)
    where
      asked :
          (a : Asked)
          → b.reserve_turn (length bytes) policy r ≡ a
          → Stored r bytes (elim a [
            | granted ↦ stored b (b.write_record r bytes)
            | refused ↦ dropped
            | waits ↦ waiting
          ])
      asked granted e =
          let (r', f, v', g) = b.written r bytes policy v e in
          subst (λ o. Stored r bytes (stored b o)) (sym f) (v', g)
      asked refused e = tt
      asked waits e = tt

  module _ (payload : Bytes → Bytes) where
    -- The records that are logged and not delivered: those in the ring, and those kept back.
    pub record Pending (r : b.Buffer) (sent : List Bytes) (out : List Delivery) : Type 0 where
      pub sound : b.IsSound r
      pub rest : List Bytes
      pub kept : List Bytes
      pub rest_wire : AllWire rest
      pub kept_wire : AllWire kept
      pub in_order :
          map (deliver payload) sent
          ≡ out ++ (map (deliver payload) rest ++ map (deliver payload) kept)
      pub visible_is : b.visible r ≡ flat rest
      pub staged_is : b.staged r ≡ flat kept

    -- What a pass does with what is pending.
    pub record Passed (r : b.Buffer) (sent : List Bytes) (out : List Delivery) : Type 0 where
      pub had_work : Bool
      pub after : b.Buffer
      pub more : List Delivery
      pub ends : drain_pass b payload r ≡ some (had_work, after, [], more)
      pub pending : Pending after sent (out ++ more)
      pub emptied : b.visible after ≡ []
      pub all_but : map (deliver payload) sent ≡ (out ++ more) ++ map (deliver payload) pending.kept
      pub same_kept : b.staged after ≡ b.staged r

    pass-Pending :
        (r : b.Buffer) (sent : List Bytes) (out : List Delivery)
        → Pending r sent out
        → Passed r sent out
    unfolding drain_pass
    pass-Pending r sent out p =
        let (r', e, v, empty, kept) = b.popped r [] p.sound in
        let front = map (deliver payload) p.rest in
        let back = map (deliver payload) p.kept in
        let whole : drain_staging payload (b.visible r) ≡ some (worked false p.rest, [], front) =
          ap (drain_staging payload) (p.visible_is ∙ sym (append-nil (flat p.rest)))
          ∙ drain_staging-exact payload p.rest [] p.rest_wire (inl refl) in
        let split : map (deliver payload) sent ≡ (out ++ front) ++ back =
          p.in_order ∙ sym (append_assoc out front back) in
        record {
          had_work = worked false p.rest;
          after = r';
          more = front;
          ends = rw (e, whole) refl;
          pending = record {
            sound = v;
            rest = [];
            kept = p.kept;
            rest_wire = tt;
            kept_wire = p.kept_wire;
            in_order = split;
            visible_is = empty;
            staged_is = kept ∙ p.staged_is;
          };
          emptied = empty;
          all_but = split;
          same_kept = kept;
        }

    -- One record more, kept back or else in the ring with all that was kept back.
    log-Pending :
        (r r' : b.Buffer) (sent : List Bytes) (out : List Delivery) (bytes : Bytes)
        → IsWire bytes
        → Pending r sent out
        → Stored r bytes (logged r')
        → Pending r' (sent ++ bytes ∷ []) out
    log-Pending r r' sent out bytes w p (v, inl (same, more)) =
        let d = deliver payload in
        record {
          sound = v;
          rest = p.rest;
          kept = p.kept ++ bytes ∷ [];
          rest_wire = p.rest_wire;
          kept_wire = AllWire-append p.kept (bytes ∷ []) p.kept_wire (w, tt);
          in_order =
              map-append d sent (bytes ∷ [])
              ∙ ap (λ ds. ds ++ d bytes ∷ []) p.in_order
              ∙ append_assoc out (map d p.rest ++ map d p.kept) (d bytes ∷ [])
              ∙ ap (λ ds. out ++ ds)
                  (append_assoc (map d p.rest) (map d p.kept) (d bytes ∷ [])
                    ∙ ap (λ ds. map d p.rest ++ ds) (sym (map-append d p.kept (bytes ∷ []))));
          visible_is = same ∙ p.visible_is;
          staged_is = more ∙ one_more p.kept (b.staged r) p.staged_is;
        }
      where
        one_more :
            (rs : List Bytes) (s : Bytes) → s ≡ flat rs → s ++ bytes ≡ flat (rs ++ bytes ∷ [])
        one_more rs s e =
            ap (λ t. t ++ bytes) e
            ∙ ap (λ t. flat rs ++ t) (sym (append-nil bytes))
            ∙ sym (flat-append rs (bytes ∷ []))
    log-Pending r r' sent out bytes w p (v, inr (all, none_kept)) =
        let d = deliver payload in
        let now = (p.rest ++ p.kept) ++ bytes ∷ [] in
        record {
          sound = v;
          rest = now;
          kept = [];
          rest_wire =
              AllWire-append (p.rest ++ p.kept) (bytes ∷ [])
                (AllWire-append p.rest p.kept p.rest_wire p.kept_wire) (w, tt);
          kept_wire = tt;
          in_order =
              map-append d sent (bytes ∷ [])
              ∙ ap (λ ds. ds ++ d bytes ∷ [])
                  (p.in_order ∙ ap (λ ds. out ++ ds) (sym (map-append d p.rest p.kept)))
              ∙ append_assoc out (map d (p.rest ++ p.kept)) (d bytes ∷ [])
              ∙ ap (λ ds. out ++ ds)
                  (sym (map-append d (p.rest ++ p.kept) (bytes ∷ []))
                    ∙ sym (append-nil (map d now)));
          visible_is =
              all
              ∙ ap (λ t. t ++ bytes)
                  (ap (λ t. t ++ b.staged r) p.visible_is
                    ∙ ap (λ t. flat p.rest ++ t) p.staged_is
                    ∙ sym (flat-append p.rest p.kept))
              ∙ ap (λ t. flat (p.rest ++ p.kept) ++ t) (sym (append-nil bytes))
              ∙ sym (flat-append (p.rest ++ p.kept) (bytes ∷ []));
          staged_is = none_kept;
        }

    outcome : {A : Type 0} → Option A → A → A
    outcome none a = a
    outcome (some x) a = x

    pub Run-Pending :
        {r : b.Buffer} {sent : List Bytes} {out : List Delivery}
        → Run b payload r sent out
        → Pending r sent out
    unfolding outcome
    Run-Pending (start v e f) = record {
      sound = v;
      rest = [];
      kept = [];
      rest_wire = tt;
      kept_wire = tt;
      in_order = refl;
      visible_is = e;
      staged_is = f;
    }
    Run-Pending (log {r} {r'} {sent} {out} bytes policy run w e) =
        let p = Run-Pending run in
        log-Pending r r' sent out bytes w p
          (subst (Stored r bytes) e (dispatch_turn-Stored r bytes policy p.sound w))
    Run-Pending (pass {r} {r'} {left} {sent} {out} {more} {had_work} run e) =
        let q = pass-Pending r sent out (Run-Pending run) in
        subst (λ t. Pending t.1 sent (out ++ t.3))
          (ap (λ o. outcome o (had_work, r', left, more)) (sym q.ends ∙ e)) q.pending

    -- In every run over a byte-queue backend, whatever the policies: a pass of the drain ends and
    -- leaves nothing in the ring or in its staging, and what has then been delivered, followed by
    -- the records whose bytes the producer keeps back, is all that was logged, each record once and
    -- in order.
    pub drain_pass-delivers :
        {r : b.Buffer} {sent : List Bytes} {out : List Delivery}
        → Run b payload r sent out
        → (had_work : Bool) × (r' : b.Buffer) × (more : List Delivery) × (kept : List Bytes)
          × (drain_pass b payload r ≡ some (had_work, r', [], more))
          × (map (deliver payload) sent ≡ (out ++ more) ++ map (deliver payload) kept)
          × (b.staged r ≡ flat kept)
          × (b.visible r' ≡ [])
    drain_pass-delivers {r} {sent} {out} run =
        let p = Run-Pending run in
        let q = pass-Pending r sent out p in
        (
          q.had_work,
          q.after,
          q.more,
          q.pending.kept,
          q.ends,
          q.all_but,
          sym q.same_kept ∙ q.pending.staged_is,
          q.emptied,
        )
