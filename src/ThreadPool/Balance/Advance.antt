-- ===== src/ThreadPool/Balance/Advance.antt =====
-- Every step of `advance` keeps the invariant of the pool, where the claims on the tasks are kept.
use system_prog.Common.{
  ℕ, ◌≤◌, ◌==◌, ◌||◌, ◌≡◌, refl, ap, Bool, true, false, Option, none, some, List, [], ◌∷◌, total,
  arith,
}
use system_prog.ThreadPool.Balance.Wakes.{total-wake_worker}
use system_prog.ThreadPool.Claims.{Claims, idle_in, finished_in, finished_state}
use system_prog.ThreadPool.Balance.{
  one, queued_state, running_state, refunds, Changes-Inv, owes, brings, runs, named, Inv,
}
use system_prog.ThreadPool.{
  Task, At, push_enter, join_enter, timed_join_enter, delete_enter, detach_enter, push_lock,
  push_queue, join_wait, timed_join_wait, push_undo, worker_wait, worker_sleep, join_sleep,
  timed_join_sleep, delete_free, detach_drop, detach_free, worker_free, pool_delete_enter,
  pool_stop, pool_join, TaskState, finished, asleep, put_task, is_busy, free_task, detach_subtract,
  worker_delete, pool_tell, any_worker, each, wake_worker, worker_drop, join_drop, worker_start,
  worker_run, World, task_at, Answers, drop_one, delete_task,
}
use system_prog.ThreadPool.Balance.Keeps.{
  with_at, After, Alike, goes-Inv, freed-Inv, idle, one_self, Same-Inv, returns-Inv, free, under_if,
  join_loop-Inv, delete_task-Inv, detach_pushed-Inv,
}
use system_prog.ThreadPool.{
  join_first, join_again, timed_join_first, timed_join_again, detach_task, worker_take,
  worker_begin, worker_finish, join_end, advance,
}
use system_prog.ThreadPool.Balance.Pushes.{push_reserve-Inv, push_mark-Inv, push_append-Inv}
use system_prog.ThreadPool.Balance.Given.{
  Allowed, joined_in, join_first-Inv, timed_join_first-Inv, timed_join_loop-Inv, worker_begin-Inv,
  worker_finish-Inv,
}

worker_take-Inv :
    (w : World) (queue : List ℕ)
    → w.queue ≡ queue
    → Inv (with_at w worker_wait)
    → After (worker_take w queue)
unfolding worker_take
worker_take-Inv w [] e h =
    under_if _ _ w.stopping (returns-Inv w (free refl refl (λ s. refl) (λ s. refl)) h)
      (goes-Inv w (record { owed = refl; refunded = refl; brought = λ s. refl; ran = λ s. refl }) h)
worker_take-Inv w (t ∷ queue) e h =
    Same-Inv
      (record {
        tasks = refl;
        counter = omega arith;
        held = λ s. omega (arith, ap (total (named s)) e);
        run = λ s. omega arith;
      })
      h

drop-Inv :
    (w : World) (p : At)
    → owes p ≡ 1
    → refunds p ≡ 0
    → ((s : ℕ) → brings s p ≡ 0)
    → ((s : ℕ) → runs s p ≡ 0)
    → Inv (with_at w p)
    → Inv (drop_one w)
drop-Inv w p o back b r h =
    Same-Inv
      (record {
        tasks = refl;
        counter = omega (arith, o, back);
        held = λ s. omega (arith, b s);
        run = λ s. omega (arith, r s);
      })
      h

-- A worker, or a join, that waits for a condition and no longer does.
awake-Inv : (w : World) {p q : At} (b : Bool) → Alike p q → Inv (with_at w p) → After (asleep w q b)
awake-Inv w b alike h = under_if _ _ b (goes-Inv w alike h) tt

state_finished : (s : TaskState) → 1 ≤ finished_state s → s ≡ finished
state_finished finished h = refl
state_finished _ h = absurd (omega arith)

join_end-Inv : (w : World) (b : Bool) → Inv (with_at w (join_drop b)) → After (join_end w b)
join_end-Inv w true h = drop-Inv w (join_drop true) refl refl (λ s. refl) (λ s. refl) h
join_end-Inv w false h = returns-Inv w (free refl refl (λ s. refl) (λ s. refl)) h

-- The task that a call is given, or none.
module _ (w : World) (t : ℕ) where
  join_enter-Inv :
      (o : Option Task)
      → task_at w t ≡ o
      → Inv (with_at w (join_enter (some t)))
      → After (join_first w t o)
  unfolding join_first
  join_enter-Inv none at h = tt
  join_enter-Inv (some k) at h = join_first-Inv w t k at h k.state refl

  join_wait-Inv :
      (o : Option Task) → task_at w t ≡ o → Inv (with_at w (join_wait t)) → After (join_again w t o)
  unfolding join_again
  join_wait-Inv none at h = tt
  join_wait-Inv (some k) at h =
      join_loop-Inv w t k at _ (free refl refl (λ s. refl) (λ s. refl)) h k.state refl

  timed_join_enter-Inv :
      (o : Option Task)
      → task_at w t ≡ o
      → joined_in o ≡ false
      → Inv (with_at w (timed_join_enter (some t)))
      → After (timed_join_first w t o)
  unfolding timed_join_first
  timed_join_enter-Inv none at g h = tt
  timed_join_enter-Inv (some k) at g h = timed_join_first-Inv w t k at h k.state refl g

  timed_join_wait-Inv :
      (b : Bool) (o : Option Task)
      → task_at w t ≡ o
      → Inv (with_at w (timed_join_wait t))
      → After (timed_join_again w t b o)
  unfolding timed_join_again
  timed_join_wait-Inv b none at h = tt
  timed_join_wait-Inv b (some k) at h = timed_join_loop-Inv w t k at h b k.state refl

  delete_enter-Inv :
      (o : Option Task)
      → task_at w t ≡ o
      → Inv (with_at w (delete_enter (some t)))
      → After (delete_task w t o)
  unfolding delete_task
  delete_enter-Inv none at h = tt
  delete_enter-Inv (some k) at h =
      delete_task-Inv w t k at _ (free refl refl (λ s. refl) (λ s. refl)) h
        (record { owed = refl; refunded = refl; brought = λ s. refl; ran = λ s. refl })

  delete_free-Inv :
      (o : Option Task)
      → task_at w t ≡ o
      → 1 ≤ idle_in o
      → Inv (with_at w (delete_free t))
      → After (free_task w t o)
  unfolding free_task
  delete_free-Inv none at i h = tt
  delete_free-Inv (some k) at i h =
      let off : is_busy k.state ≡ false = ground arith in
      freed-Inv w t k at _ (free refl refl (λ s. refl) (λ s. refl)) h [] (ap one off) refl
        (λ s. refl) (λ s. refl) (idle k off).0 (idle k off).1

  detach_drop-Inv :
      (o : Option Task)
      → task_at w t ≡ o
      → Inv (with_at w (detach_drop t))
      → After (detach_subtract w t o)
  unfolding detach_subtract
  detach_drop-Inv none at h = tt
  detach_drop-Inv (some k) at h =
      under_if _ _ k.pool
        (Same-Inv
          (record { tasks = refl; counter = omega arith; held = λ s. refl; run = λ s. refl }) h)
        tt

  detach_free-Inv :
      (o : Option Task)
      → task_at w t ≡ o
      → 1 ≤ finished_in o
      → Inv (with_at w (detach_free t))
      → After (free_task w t o)
  unfolding free_task
  detach_free-Inv none at f h = tt
  detach_free-Inv (some k) at f h =
      let e = state_finished k.state f in
      Changes-Inv {w = with_at w (detach_free t)} {t = t} {k = k} {o = none} {v = put_task w t none}
        (record {
          tasks = refl;
          counter = omega (arith, ap (λ s. one (is_busy s)) e);
          held = omega (arith, ap queued_state e);
          held_else = λ s ne. omega arith;
          run = omega (arith, ap running_state e);
          run_else = λ s ne. omega arith;
          knows = omega arith;
        })
        at h

  worker_free-Inv :
      (b : Bool) (o : Option Task)
      → task_at w t ≡ o
      → 1 ≤ finished_in o
      → Inv (with_at w (worker_free t b))
      → After (worker_delete w t b o)
  unfolding worker_delete
  worker_free-Inv b none at f h = tt
  worker_free-Inv b (some k) at f h =
      let e = state_finished k.state f in
      freed-Inv w t k at _ (free refl refl (λ s. refl) (λ s. refl)) h (worker_drop b ∷ [])
        (ap (λ s. one (is_busy s)) e) refl (λ s. refl) (λ s. refl) (ap queued_state e)
        (ap running_state e)

  detach_enter-Inv :
      (o : Option Task)
      → task_at w t ≡ o
      → Inv (with_at w (detach_enter (some t)))
      → After (detach_task w t o)
  unfolding detach_task
  detach_enter-Inv none at h = tt
  detach_enter-Inv (some k) at h =
      under_if _ _ k.pool
        (detach_pushed-Inv w t k at _ (free refl refl (λ s. refl) (λ s. refl)) h
          (record { owed = refl; refunded = refl; brought = λ s. refl; ran = λ s. refl }) k.state
          refl)
        (returns-Inv w (free refl refl (λ s. refl) (λ s. refl)) h)

  worker_start-Inv :
      (o : Option Task)
      → task_at w t ≡ o
      → Inv (with_at w (worker_start t))
      → After (worker_begin w t o)
  unfolding worker_begin
  worker_start-Inv none at h = tt
  worker_start-Inv (some k) at h = worker_begin-Inv w t k at h

  worker_run-Inv :
      (o : Option Task)
      → task_at w t ≡ o
      → Inv (with_at w (worker_run t))
      → After (worker_finish w t o)
  unfolding worker_finish
  worker_run-Inv none at h = tt
  worker_run-Inv (some k) at h = worker_finish-Inv w t k at h

pool_tell-Inv : (w : World) → Inv (with_at w pool_stop) → After (pool_tell w)
pool_tell-Inv w h =
    let woken : (f : At → ℕ)
        → f worker_wait ≡ f worker_sleep
        → total f (each wake_worker w.active) ≡ total f w.active =
      λ f e. total-wake_worker f w.active e in
    Same-Inv
      (record {
        tasks = refl;
        counter = omega (arith, woken owes refl, woken refunds refl);
        held = λ s. omega (arith, woken (brings s) refl);
        run = λ s. omega (arith, woken (runs s) refl);
      })
      h

pub advance-Inv :
    (w : World) (p : At) (a : Answers)
    → Allowed w p
    → Claims (with_at w p)
    → Inv (with_at w p)
    → After (advance w p a)
unfolding advance
advance-Inv w (push_enter task) a g c h = push_reserve-Inv w task h
advance-Inv w (push_lock t) a g c h = push_mark-Inv w t (task_at w t) refl h
advance-Inv w push_undo a g c h = drop-Inv w push_undo refl refl (λ s. refl) (λ s. refl) h
advance-Inv w (push_queue t) a g c h = push_append-Inv w t a h
advance-Inv w (join_enter none) a g c h = returns-Inv w (free refl refl (λ s. refl) (λ s. refl)) h
advance-Inv w (join_enter (some t)) a g c h = join_enter-Inv w t (task_at w t) refl h
advance-Inv w (join_wait t) a g c h = join_wait-Inv w t (task_at w t) refl h
advance-Inv w (join_drop b) a g c h = join_end-Inv w b h
advance-Inv w (timed_join_enter none) a g c h =
    returns-Inv w (free refl refl (λ s. refl) (λ s. refl)) h
advance-Inv w (timed_join_enter (some t)) a g c h = timed_join_enter-Inv w t (task_at w t) refl g h
advance-Inv w (timed_join_wait t) a g c h = timed_join_wait-Inv w t a.timed_out (task_at w t) refl h
advance-Inv w (delete_enter none) a g c h = returns-Inv w (free refl refl (λ s. refl) (λ s. refl)) h
advance-Inv w (delete_enter (some t)) a g c h = delete_enter-Inv w t (task_at w t) refl h
advance-Inv w (detach_enter none) a g c h = returns-Inv w (free refl refl (λ s. refl) (λ s. refl)) h
advance-Inv w (detach_enter (some t)) a g c h = detach_enter-Inv w t (task_at w t) refl h
advance-Inv w worker_wait a g c h = worker_take-Inv w w.queue refl h
advance-Inv w (worker_start t) a g c h = worker_start-Inv w t (task_at w t) refl h
advance-Inv w (worker_run t) a g c h = worker_run-Inv w t (task_at w t) refl h
advance-Inv w (join_sleep t) a g c h =
    awake-Inv w a.spurious
      (record { owed = refl; refunded = refl; brought = λ s. refl; ran = λ s. refl }) h
advance-Inv w (timed_join_sleep t) a g c h =
    awake-Inv w (a.timed_out || a.spurious)
      (record { owed = refl; refunded = refl; brought = λ s. refl; ran = λ s. refl }) h
advance-Inv w worker_sleep a g c h =
    awake-Inv w a.spurious
      (record { owed = refl; refunded = refl; brought = λ s. refl; ran = λ s. refl }) h
advance-Inv w (delete_free t) a g c h =
    delete_free-Inv w t (task_at w t) refl (omega (arith, (c.fits t).idle, one_self t)) h
advance-Inv w (detach_drop t) a g c h = detach_drop-Inv w t (task_at w t) refl h
advance-Inv w (detach_free t) a g c h =
    detach_free-Inv w t (task_at w t) refl (omega (arith, (c.fits t).dropped, one_self t)) h
advance-Inv w (worker_free t b) a g c h =
    worker_free-Inv w t b (task_at w t) refl (omega (arith, (c.fits t).released, one_self t)) h
advance-Inv w (worker_drop true) a g c h =
    Same-Inv (record { tasks = refl; counter = omega arith; held = λ s. refl; run = λ s. refl }) h
advance-Inv w (worker_drop false) a g c h = tt
advance-Inv w (pool_delete_enter false) a g c h =
    returns-Inv w (free refl refl (λ s. refl) (λ s. refl)) h
advance-Inv w (pool_delete_enter true) a g c h =
    under_if _ _ (w.added == w.subtracted)
      (goes-Inv w (record { owed = refl; refunded = refl; brought = λ s. refl; ran = λ s. refl }) h)
      (returns-Inv w (free refl refl (λ s. refl) (λ s. refl)) h)
advance-Inv w pool_stop a g c h = pool_tell-Inv w h
advance-Inv w pool_join a g c h =
    under_if _ _ (any_worker w.active) tt (returns-Inv w (free refl refl (λ s. refl) (λ s. refl)) h)
