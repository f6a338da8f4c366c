-- ===== src/ThreadBuf/Slot/Warm.antt =====
-- The start of a thread's buffer ahead of its first log.
use ticklog.Base.{◌≡◌, refl, sym, ap, ◌∙◌, true, false, none, some, Option}
use ticklog.Shared.{Shared}
use ticklog.ThreadBuf.{ThreadBuf}
use ticklog.ThreadBuf.Slot.{
  ThreadSlot, Setting, Closure, Called, lazy_start, run_closure, empty_closure, with_thread_buf,
  warm_up,
}

module _ (setting : Setting) where
  with_thread_buf-called :
      {R : Type 0} (f : Closure R) (s : ThreadSlot) (w : Shared)
      → s.active ≡ false
      → with_thread_buf setting f s w
        ≡ run_closure setting f (record s { active = true }) w (lazy_start setting w s.buf)
  unfolding with_thread_buf
  with_thread_buf-called f s w e = rw e refl

  -- After the empty closure has run over what a start gave, any closure finds the same.
  again :
      {R : Type 0} (f : Closure R) (s : ThreadSlot) (w : Shared) (o : Option (ThreadBuf × Shared))
      → lazy_start setting w s.buf ≡ o
      → let c = run_closure setting empty_closure (record s { active = true }) w o in
        with_thread_buf setting f c.slot c.shared
        ≡ run_closure setting f (record s { active = true }) w o
  unfolding lazy_start
  again f s w none e =
      with_thread_buf-called f (record s { active = false }) w refl
      ∙ ap (run_closure setting f (record s { active = true }) w) e
  again f s w (some (tb, w')) e =
      with_thread_buf-called f (record { active = false; buf = some tb }) w' refl

  abbrev state : {R : Type 0} → Called R → ThreadSlot × Shared
  state c = (c.slot, c.shared)

  module _ (Io : Type 0) (claimed : setting.registry_set ≡ true) where
    warm_up-state :
        (s : ThreadSlot) (w : Shared)
        → (warm_up setting {Io = Io} s w).1 ≡ state (with_thread_buf setting empty_closure s w)
    unfolding warm_up
    warm_up-state s w = rw claimed refl

    after_warm_up :
        {R : Type 0} (f : Closure R) (s : ThreadSlot) (w : Shared)
        → s.active ≡ false
        → let (s', w') = (warm_up setting {Io = Io} s w).1 in
          with_thread_buf setting f s' w' ≡ with_thread_buf setting f s w
    after_warm_up f s w idle =
        ap (λ p. with_thread_buf setting f p.0 p.1)
          (warm_up-state s w ∙ ap state (with_thread_buf-called empty_closure s w idle))
        ∙ again f s w (lazy_start setting w s.buf) refl
        ∙ sym (with_thread_buf-called f s w idle)

    -- Once the registry is set, on a thread that is not logging: behind warm_up, whether its start succeeds
    -- or panics, a call of with_thread_buf does for every closure what it would have done without it, and
    -- a second warm_up changes nothing.
    pub with_thread_buf-warm_up :
        {R : Type 0} (f : Closure R) (s : ThreadSlot) (w : Shared)
        → s.active ≡ false
        → let (s', w') = (warm_up setting {Io = Io} s w).1 in
          (with_thread_buf setting f s' w' ≡ with_thread_buf setting f s w)
          × ((warm_up setting {Io = Io} s' w').1 ≡ (s', w'))
    with_thread_buf-warm_up f s w idle =
        let (s', w') = (warm_up setting {Io = Io} s w).1 in
        (
          after_warm_up f s w idle,
          warm_up-state s' w'
              ∙ ap state (after_warm_up empty_closure s w idle)
              ∙ sym (warm_up-state s w),
        )
