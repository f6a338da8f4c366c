-- ===== src/ThreadBuf/Slot/Nested.antt =====
-- A closure that logs again: the nested call is refused, whatever the closure does around it.
use ticklog.Base.{◌≡◌, ◌≢◌, refl, ap, Bool, true, false, none, some, Option}
use ticklog.Shared.{Shared}
use ticklog.ThreadBuf.{ThreadBuf}
use ticklog.ThreadBuf.Slot.{
  ThreadSlot, Setting, unwound, returned, Called, Ran, lazy_start, run_closure, finished,
  with_thread_buf,
}

-- What a closure may do: return, panic, act on its buffer and the shared objects, look at them, and log,
-- where it learns whether the nested closure was run.
pub data Body (R : Type 0) : Type 0 where
  done : R → Body R
  panics : Body R
  acts : (ThreadBuf → Shared → ThreadBuf × Shared) → Body R → Body R
  looks : (ThreadBuf → Shared → Body R) → Body R
  logs : Body R → (Bool → Body R) → Body R

-- The same closure where no nested call is run.
unfoldable pub without_logs : {R : Type 0} → Body R → Body R
without_logs (done r) = done r
without_logs panics = panics
without_logs (acts f b) = acts f (without_logs b)
without_logs (looks k) = looks (λ tb w. without_logs (k tb w))
without_logs (logs inner k) = without_logs (k false)

module _ (setting : Setting) where
  -- Behind a nested call: a panic of its closure goes on.
  abbrev pub resumed :
      {R : Type 0} → ThreadBuf → (Bool → ThreadSlot → Shared → Ran R) → Called R → Ran R
  resumed tb rest c = elim c.outcome [
    | none ↦ rest false c.slot c.shared
    | some (returned r) ↦ rest true c.slot c.shared
    | some unwound ↦ record { ended = unwound; buf = tb; slot = c.slot; shared = c.shared }
  ]

  unfoldable pub exec : {R : Type 0} → Body R → ThreadBuf → ThreadSlot → Shared → Ran R
  exec (done r) tb s w = record { ended = returned r; buf = tb; slot = s; shared = w }
  exec panics tb s w = record { ended = unwound; buf = tb; slot = s; shared = w }
  exec (acts f b) tb s w = let (tb', w') = f tb w in exec b tb' s w'
  exec (looks k) tb s w = exec (k tb w) tb s w
  exec (logs inner k) tb s w =
      resumed tb (λ ran s' w'. exec (k ran) tb s' w') (with_thread_buf setting (exec inner) s w)

  with_thread_buf-active :
      {R : Type 0} (f : ThreadBuf → ThreadSlot → Shared → Ran R) (s : ThreadSlot) (w : Shared)
      → s.active ≡ true
      → with_thread_buf setting f s w ≡ record { outcome = none; slot = s; shared = w }
  unfolding with_thread_buf
  with_thread_buf-active f s w e = rw e refl

  exec-logs :
      {R : Type 0} (inner : Body R) (k : Bool → Body R) (tb : ThreadBuf) (s : ThreadSlot)
      (w : Shared)
      → s.active ≡ true
      → exec (logs inner k) tb s w ≡ exec (k false) tb s w
  unfolding exec
  exec-logs inner k tb s w e =
      ap (resumed tb (λ ran s' w'. exec (k ran) tb s' w'))
        (with_thread_buf-active (exec inner) s w e)

  -- While the flag is set, a body runs as the body without its logs, and leaves the slot alone.
  exec-without_logs :
      {R : Type 0} (b : Body R) (tb : ThreadBuf) (s : ThreadSlot) (w : Shared)
      → s.active ≡ true
      → (exec b tb s w ≡ exec (without_logs b) tb s w) × ((exec b tb s w).slot ≡ s)
  unfolding exec without_logs
  exec-without_logs (done r) tb s w e = (refl, refl)
  exec-without_logs panics tb s w e = (refl, refl)
  exec-without_logs (acts f b) tb s w e = exec-without_logs b (f tb w).0 s (f tb w).1 e
  exec-without_logs (looks k) tb s w e = exec-without_logs (k tb w) tb s w e
  exec-without_logs (logs inner k) tb s w e =
      rw (exec-logs inner k tb s w e) (exec-without_logs (k false) tb s w e)

  -- The same call, which has run its closure and has left the flag clear.
  abbrev Same : {R : Type 0} → Called R → Called R → Type 0
  Same c d = (c ≡ d) × (c.outcome ≢ none) × (c.slot.active ≡ false)

  run_closure-Same :
      {R : Type 0} (b : Body R) (s : ThreadSlot) (w : Shared) (o : Option (ThreadBuf × Shared))
      → s.active ≡ true
      → Same
          (run_closure setting (exec b) s w o)
          (run_closure setting (exec (without_logs b)) s w o)
  run_closure-Same b s w none e = (refl, λ n. cc, refl)
  run_closure-Same b s w (some (tb, w')) e = (
    ap (finished setting) (exec-without_logs b tb (record s { buf = some tb }) w' e).0,
    λ n. cc,
    refl,
  )

  -- Of a thread that is not logging, whatever its closure does: with_thread_buf does what it does for the
  -- closure in which no nested call is run, and behind it, the closure having returned or panicked, the
  -- thread may log again.
  pub with_thread_buf-without_logs :
      {R : Type 0} (b : Body R) (s : ThreadSlot) (w : Shared)
      → s.active ≡ false
      → (with_thread_buf setting (exec b) s w ≡ with_thread_buf setting (exec (without_logs b)) s w)
        × ((with_thread_buf setting (exec b) s w).outcome ≢ none)
        × ((with_thread_buf setting (exec b) s w).slot.active ≡ false)
  unfolding with_thread_buf
  with_thread_buf-without_logs b s w e =
      rw e (run_closure-Same b (record s { active = true }) w (lazy_start setting w s.buf) refl)
