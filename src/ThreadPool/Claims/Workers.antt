-- ===== src/ThreadPool/Claims/Workers.antt =====
-- The steps of a worker, and those that delete a task, keep the claims on the tasks.
use system_prog.Common.{
  ℕ, ◌+◌, ◌≤◌, ◌≡◌, refl, ap, Bool, true, false, not, none, some, ◌∷◌, if◌then◌else◌, arith,
}
use system_prog.ThreadPool.Balance.{one, Inv, weight, pool_in}
use system_prog.ThreadPool.Balance.Given.{started, ran}
use system_prog.ThreadPool.Balance.Keeps.{with_at, one-le}
use system_prog.ThreadPool.Balance.Wakes.{total-wake_join}
use system_prog.ThreadPool.Claims.{
  Kind, deleter, detacher, releaser, other, mark, marks, nulls, finished_state, Fit, Claims, more,
}
use system_prog.ThreadPool.Claims.Kinds.{
  less-Fit, other-Fit, worker-Fit, release-Fit, deleted-Fit, dropped-Fit, released-Fit,
}
use system_prog.ThreadPool.Claims.Calls.{either}
use system_prog.ThreadPool.Claims.Moves.{
  After, Stands, Stands-other, goes-Claims, put_moves-Claims, put_goes-Claims, put_returns-Claims,
}
use system_prog.ThreadPool.{
  running, finished, Task, At, delete_free, detach_drop, detach_free, worker_wait, worker_drop,
  worker_start, worker_run, worker_free, World, task_at, put_task, is_busy, drop_one, wake_join,
  each, free_task, detach_subtract, worker_begin, worker_finish, worker_delete,
}

module _ (w : World) (t : ℕ) (k : Task) (at : task_at w t ≡ some k) where
  -- A worker has the task.
  pub worker_begin-Claims :
      Inv (with_at w (worker_start t))
      → Claims (with_at w (worker_start t))
      → After (worker_begin w t (some k))
  unfolding worker_begin
  worker_begin-Claims i h =
      let e = started w t k at i in
      put_goes-Claims {w = w} {o = some (record k { state = running })} t at other
        (Stands-other t (worker_start t) refl) refl refl {q = worker_run t} other
        (Stands-other t (worker_run t) refl) refl
        (λ f.
          worker-Fit (more other (marks w t)) refl (ap finished_state e)
            (ap (λ s. one (not (is_busy s))) e) f)
        h

  module _ (i : Inv (with_at w (worker_run t))) (h : Claims (with_at w (worker_run t))) where
    abbrev over : At → World
    over q = record (put_task w t (some (record k { state = finished }))) {
      active = q ∷ each (wake_join t) w.active;
    }

    finishes :
        (q : At) (y : Kind)
        → Stands t y q
        → nulls q ≡ 0
        → (Fit (some k) (more other (marks w t))
            → Fit (some (record k { state = finished })) (more y (marks w t)))
        → Claims (over q)
    finishes q y there n fit =
        put_moves-Claims {w = w} {v = over q} {o = some (record k { state = finished })} t at other
          (Stands-other t (worker_run t) refl) refl q y there
          (λ c s.
            ap (λ n. mark c s q + n)
              (total-wake_join (mark c s) t w.active (λ r. refl) (λ r. refl)))
          (ap (λ n. nulls q + n) (total-wake_join nulls t w.active (λ r. refl) (λ r. refl))) n fit h

    pooled : one (not k.pool) ≡ 0
    pooled =
        let b : 1 ≤ one k.pool = omega (
          arith,
          i.pooled t,
          ap weight at,
          ap pool_in at,
          ap (λ s. one (is_busy s)) (ran w t k at i),
        ) in
        ground arith

    pub worker_finish-Claims : After (worker_finish w t (some k))
    unfolding worker_finish
    worker_finish-Claims = by_if k.detached refl
      where
        by_if :
            (b : Bool)
            → k.detached ≡ b
            → Claims (over (if b then worker_free t k.pool else worker_wait))
        by_if true e =
            finishes (worker_free t k.pool) releaser (λ c s. refl) pooled
              (λ f.
                release-Fit (marks w t) (ap one e) (ap one e) (ap finished_state (ran w t k at i))
                  refl (ap (λ s. one (not (is_busy s))) (ran w t k at i))
                  (less-Fit (marks w t) other f))
        by_if false e = finishes worker_wait other (Stands-other t worker_wait refl) refl (λ f.
            worker-Fit (more other (marks w t)) refl (ap finished_state (ran w t k at i))
              (ap (λ s. one (not (is_busy s))) (ran w t k at i)) f)

  pub worker_delete-Claims :
      (b : Bool) → Claims (with_at w (worker_free t b)) → After (worker_delete w t b (some k))
  unfolding worker_delete
  worker_delete-Claims b h =
      put_goes-Claims {w = w} {o = none} t at releaser (λ c s. refl) refl refl {q = worker_drop b}
        other (Stands-other t (worker_drop b) refl) (omega (arith, h.known))
        (λ f. other-Fit (marks w t) (released-Fit (marks w t) (one-le k.detached) f)) h

  -- A call deletes it.
  pub delete_free-Claims : Claims (with_at w (delete_free t)) → After (free_task w t (some k))
  unfolding free_task
  delete_free-Claims h =
      put_returns-Claims {w = w} {o = none} t at deleter (λ c s. refl) refl refl
        (λ f. other-Fit (marks w t) (deleted-Fit (marks w t) f)) h

  pub detach_free-Claims : Claims (with_at w (detach_free t)) → After (free_task w t (some k))
  unfolding free_task
  detach_free-Claims h =
      put_returns-Claims {w = w} {o = none} t at detacher (λ c s. refl) refl refl
        (λ f. other-Fit (marks w t) (dropped-Fit (marks w t) f)) h

  pub detach_drop-Claims : Claims (with_at w (detach_drop t)) → After (detach_subtract w t (some k))
  unfolding detach_subtract
  detach_drop-Claims h =
      either _ _ k.pool
        (goes-Claims {w = w} {v = drop_one w} t detacher (λ c s. refl) refl refl {q = detach_free t}
          detacher (λ c s. refl) refl (λ f. f) h)
        tt
