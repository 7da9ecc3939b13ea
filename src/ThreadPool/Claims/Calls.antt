-- ===== src/ThreadPool/Claims/Calls.antt =====
-- The steps of a call on a task that lives keep the claims on the tasks.
use system_prog.Common.{
  ℕ, ◌≡◌, refl, ap, Bool, true, false, not, some, ◌||◌, if◌then◌else◌, if_both, arith, Bool-cases,
  inl, inr,
}
use system_prog.ThreadPool.Balance.{one}
use system_prog.ThreadPool.Balance.Keeps.{with_at}
use system_prog.ThreadPool.Claims.{
  Kind, user, claimer, deleter, detacher, other, kind_of, marks, nulls, finished_state, Claims,
}
use system_prog.ThreadPool.Claims.Kinds.{
  less-Fit, other-Fit, user-Fit, delete-Fit, drop-Fit, detach-Fit,
}
use system_prog.ThreadPool.Claims.Moves.{
  After, Stands, Stands-other, goes-Claims, returns-Claims, put_goes-Claims, put_returns-Claims,
}
use system_prog.ThreadPool.{
  TaskState, new, queued, running, finished, joined, Task, At, delete_enter, detach_enter,
  push_lock, push_queue, join_sleep, timed_join_sleep, delete_free, detach_drop, push_undo,
  join_drop, World, task_at, put_task, is_busy, Outcome, push_mark, join_loop, join_pushed,
  timed_join_end, timed_join_pushed, timed_join_loop, delete_task, detach_pushed,
}

pub either : (x y : Outcome) (b : Bool) → After x → After y → After (if b then x else y)
either x y b = if_both After b x y

module _ (w : World) {p : At} (t : ℕ) (x : Kind) (here : Stands t x p)
    (h : Claims (with_at w p)) where
  -- The thread ends, whatever it had to do with the task.
  pub ends-Claims : {v : World} → v.tasks ≡ w.tasks → v.active ≡ w.active → Claims v
  ends-Claims {v} ts as' =
      returns-Claims {w = w} {v = v} t x here ts as'
        (λ f. other-Fit (marks w t) (less-Fit (marks w t) x f)) h

  -- It goes on elsewhere.
  pub leaves-Claims :
      {v : World} (q : At)
      → v.tasks ≡ w.tasks
      → v.active ≡ w.active
      → kind_of q ≡ other
      → nulls q ≡ 0
      → Claims (with_at v q)
  leaves-Claims {v} q ts as' e n =
      goes-Claims {w = w} {v = v} t x here ts as' other (Stands-other t q e) n
        (λ f. other-Fit (marks w t) (less-Fit (marks w t) x f)) h

  -- It goes on with the task.
  pub stays-Claims : (q : At) → Stands t x q → nulls q ≡ 0 → Claims (with_at w q)
  stays-Claims q there n = goes-Claims {w = w} {v = w} t x here refl refl x there n (λ f. f) h

module _ (w : World) (t : ℕ) (k : Task) (at : task_at w t ≡ some k) where
  -- A call that pushes or joins the task.
  module _ {p : At} (here : Stands t user p) (h : Claims (with_at w p)) where
    pub join_loop-Claims : (s : TaskState) → k.state ≡ s → After (join_loop w t k s)
    unfolding join_loop
    join_loop-Claims finished e =
        put_goes-Claims {w = w} {o = some (record k { pool = false; state = joined })} t at user
          here refl refl other (Stands-other t (join_drop k.pool) refl) refl
          (λ f. other-Fit (marks w t) (less-Fit (marks w t) user (user-Fit (marks w t) refl f))) h
    join_loop-Claims joined e = ends-Claims w t user here h refl refl
    join_loop-Claims new e = stays-Claims w t user here h (join_sleep t) (λ c s. refl) refl
    join_loop-Claims queued e = stays-Claims w t user here h (join_sleep t) (λ c s. refl) refl
    join_loop-Claims running e = stays-Claims w t user here h (join_sleep t) (λ c s. refl) refl

    pub join_pushed-Claims : (s : TaskState) → k.state ≡ s → After (join_pushed w t k s)
    unfolding join_pushed
    join_pushed-Claims new e = ends-Claims w t user here h refl refl
    join_pushed-Claims queued e = join_loop-Claims queued e
    join_pushed-Claims running e = join_loop-Claims running e
    join_pushed-Claims finished e = join_loop-Claims finished e
    join_pushed-Claims joined e = join_loop-Claims joined e

    pub timed_join_end-Claims : After (timed_join_end w t k)
    unfolding timed_join_end
    timed_join_end-Claims =
        either _ _ k.pool
          (put_returns-Claims {w = w} {o = some (record k { state = joined })} t at user here refl
            refl
            (λ f. other-Fit (marks w t) (less-Fit (marks w t) user (user-Fit (marks w t) refl f)))
            h)
          tt

    timed_sleep : Claims (with_at w (timed_join_sleep t))
    timed_sleep = stays-Claims w t user here h (timed_join_sleep t) (λ c s. refl) refl

    pub timed_join_pushed-Claims : (s : TaskState) → After (timed_join_pushed w t k s)
    unfolding timed_join_pushed
    timed_join_pushed-Claims new = ends-Claims w t user here h refl refl
    timed_join_pushed-Claims finished = timed_join_end-Claims
    timed_join_pushed-Claims joined = timed_join_end-Claims
    timed_join_pushed-Claims queued = timed_sleep
    timed_join_pushed-Claims running = timed_sleep

    pub timed_join_loop-Claims : (b : Bool) (s : TaskState) → After (timed_join_loop w t b k s)
    unfolding timed_join_loop
    timed_join_loop-Claims b finished =
        either _ _ b (ends-Claims w t user here h refl refl) timed_join_end-Claims
    timed_join_loop-Claims b joined =
        either _ _ b (ends-Claims w t user here h refl refl) (ends-Claims w t user here h refl refl)
    timed_join_loop-Claims b new = either _ _ b (ends-Claims w t user here h refl refl) timed_sleep
    timed_join_loop-Claims b queued =
        either _ _ b (ends-Claims w t user here h refl refl) timed_sleep
    timed_join_loop-Claims b running =
        either _ _ b (ends-Claims w t user here h refl refl) timed_sleep

  pub push_mark-Claims : Claims (with_at w (push_lock t)) → After (push_mark w t (some k))
  unfolding push_mark
  push_mark-Claims h =
      either _ _ (k.pool || is_busy k.state)
        (leaves-Claims w t user (λ c s. refl) h push_undo refl refl refl refl)
        (put_goes-Claims {w = w} {o = some (record k { pool = true; state = queued })} t at user
          (λ c s. refl) refl refl {q = push_queue t} user (λ c s. refl) refl
          (user-Fit (marks w t) refl) h)

  idle_if : (b : Bool) → b ≡ false → one (not b) ≡ 1
  idle_if b e = ground arith

  pub delete_task-Claims :
      Claims (with_at w (delete_enter (some t))) → After (delete_task w t (some k))
  unfolding delete_task
  delete_task-Claims h = elim (Bool-cases (is_busy k.state)) [
    | inl e ↦ rw e (ends-Claims w t claimer (λ c s. refl) h refl refl)
    | inr e ↦ rw e (
        goes-Claims {w = w} {v = w} t claimer (λ c s. refl) refl refl {q = delete_free t} deleter
          (λ c s. refl) refl (λ f. delete-Fit (marks w t) (rw at (idle_if _ e)) f) h)
  ]

  detach_mark :
      Claims (with_at w (detach_enter (some t)))
      → Claims (put_task w t (some (record k { detached = true })))
  detach_mark h =
      put_returns-Claims {w = w} {o = some (record k { detached = true })} t at claimer
        (λ c s. refl) refl refl
        (λ f. other-Fit (marks w t) (detach-Fit (marks w t) refl refl refl f)) h

  pub detach_pushed-Claims :
      Claims (with_at w (detach_enter (some t)))
      → (s : TaskState) → k.state ≡ s
      → After (detach_pushed w t k s)
  unfolding detach_pushed
  detach_pushed-Claims h finished e =
      goes-Claims {w = w} {v = w} t claimer (λ c s. refl) refl refl {q = detach_drop t} detacher
        (λ c s. refl) refl (λ f. drop-Fit (marks w t) (rw at (ap finished_state e)) f) h
  detach_pushed-Claims h new e = detach_mark h
  detach_pushed-Claims h queued e = detach_mark h
  detach_pushed-Claims h running e = detach_mark h
  detach_pushed-Claims h joined e = detach_mark h
