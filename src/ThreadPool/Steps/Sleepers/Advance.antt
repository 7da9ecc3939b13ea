-- ===== src/ThreadPool/Steps/Sleepers/Advance.antt =====
-- So do all steps of `advance`.
use system_prog.Common.{
  ℕ, ◌+◌, ◌≡◌, refl, Bool, true, false, Option, none, some, List, [], ◌∷◌, ◌++◌, ◌==◌, ◌||◌, leb,
  length, if◌then◌else◌, total-append, arith, inl, inr,
}
use system_prog.ThreadPool.Balance.Keeps.{with_at}
use system_prog.ThreadPool.{
  queued, running, Task, At, push_enter, join_enter, timed_join_enter, delete_enter, detach_enter,
  push_lock, push_queue, join_wait, join_sleep, timed_join_wait, timed_join_sleep, delete_free,
  detach_drop, detach_free, push_undo, worker_wait, worker_sleep, join_drop, worker_drop,
  worker_start, worker_run, worker_free, pool_delete_enter, pool_stop, pool_join, World, task_at,
  is_busy, Answers, goes, returns, max_tasks, wake_worker, each, workers, spawns, push_reserve,
  push_mark, push_append, join_first, join_again, timed_join_first, timed_join_again, delete_task,
  free_task, detach_task, detach_subtract, worker_take, worker_begin, worker_finish, worker_delete,
  advance, any_worker, ok,
}
use system_prog.ThreadPool.Balance.Wakes.{total-wake_worker}
use system_prog.ThreadPool.Balance.Pushes.{more_workers, total-workers}
use system_prog.ThreadPool.Steps.Sleepers.{
  sleeps, dozes, Awake, After, either, ends, rises, puts_end, puts, wakes,
}
use system_prog.ThreadPool.Steps.Sleepers.Calls.{
  none_asleep, join_loop-Awake, join_pushed-Awake, timed_join_pushed-Awake, timed_join_loop-Awake,
  detach_pushed-Awake, worker_finish-Awake,
}

empty_queue :
    (w : World)
    → w.queue ≡ []
    → Awake (with_at w worker_wait)
    → (b : Bool) → w.stopping ≡ b
    → After (if b then returns w ok else goes w worker_sleep)
empty_queue w e h true f = ends w h
empty_queue w e h false f = record { workers_awake = inr (e, f); joins_awake = h.joins_awake }

worker_take-Awake :
    (w : World) (queue : List ℕ)
    → w.queue ≡ queue
    → Awake (with_at w worker_wait)
    → After (worker_take w queue)
unfolding worker_take
worker_take-Awake w [] e h = empty_queue w e h w.stopping refl
worker_take-Awake w (t ∷ queue) e h = record {
  workers_awake = elim h.workers_awake [
    | inl z ↦ inl z
    | inr (empty, s) ↦ absurd (ground (arith, e, empty))
  ];
  joins_awake = h.joins_awake;
}

push_append-Awake :
    (w : World) (t : ℕ) (a : Answers) → Awake (with_at w (push_queue t)) → After (push_append w t a)
unfolding push_append
push_append-Awake w t a h =
    let made = spawns a.creates w.max_threads (length (w.queue ++ t ∷ [])) w.threads in
    wakes w h _ (λ s. refl) (λ s. more_workers (dozes s) w.active made refl refl)
      (omega (
        arith,
        total-append sleeps (each wake_worker w.active) (workers made),
        none_asleep w.active,
        total-workers sleeps made refl,
      ))

-- The task that a step finds, or none.
module _ (w : World) (t : ℕ) {p : At} (h : Awake (with_at w p)) where
  mark_step : (o : Option Task) → task_at w t ≡ o → After (push_mark w t o)
  unfolding push_mark
  mark_step none at = tt
  mark_step (some k) at =
      either _ _ (k.pool || is_busy k.state) (rises w h push_undo refl (λ s. refl)) (
        puts w h t k (some (record k { pool = true; state = queued })) (push_queue t) at
          (omega arith) refl (λ s. refl))

  join_step : (o : Option Task) → task_at w t ≡ o → After (join_first w t o)
  unfolding join_first
  join_step none at = tt
  join_step (some k) at = join_pushed-Awake w t k at h k.state refl

  join_step_again : (o : Option Task) → task_at w t ≡ o → After (join_again w t o)
  unfolding join_again
  join_step_again none at = tt
  join_step_again (some k) at = join_loop-Awake w t k at h k.state refl

  timed_join_step : (o : Option Task) → task_at w t ≡ o → After (timed_join_first w t o)
  unfolding timed_join_first
  timed_join_step none at = tt
  timed_join_step (some k) at = timed_join_pushed-Awake w t k at h k.state refl

  timed_join_step_again :
      (b : Bool) (o : Option Task) → task_at w t ≡ o → After (timed_join_again w t b o)
  unfolding timed_join_again
  timed_join_step_again b none at = tt
  timed_join_step_again b (some k) at = timed_join_loop-Awake w t k at h b k.state refl

  delete_step : (o : Option Task) → task_at w t ≡ o → After (delete_task w t o)
  unfolding delete_task
  delete_step none at = tt
  delete_step (some k) at =
      either _ _ (is_busy k.state) (ends w h) (rises w h (delete_free t) refl (λ s. refl))

  free_step : (o : Option Task) → task_at w t ≡ o → After (free_task w t o)
  unfolding free_task
  free_step none at = tt
  free_step (some k) at = puts_end w h t k none at (omega arith)

  detach_step : (o : Option Task) → task_at w t ≡ o → After (detach_task w t o)
  unfolding detach_task
  detach_step none at = tt
  detach_step (some k) at = either _ _ k.pool (detach_pushed-Awake w t k at h k.state) (ends w h)

  subtract_step : (o : Option Task) → task_at w t ≡ o → After (detach_subtract w t o)
  unfolding detach_subtract
  subtract_step none at = tt
  subtract_step (some k) at =
      let r = rises w h (detach_free t) refl (λ s. refl) in
      either _ _ k.pool (record { workers_awake = r.workers_awake; joins_awake = r.joins_awake }) tt

  begin_step : (o : Option Task) → task_at w t ≡ o → After (worker_begin w t o)
  unfolding worker_begin
  begin_step none at = tt
  begin_step (some k) at =
      puts w h t k (some (record k { state = running })) (worker_run t) at (omega arith) refl
        (λ s. refl)

  finish_step : (o : Option Task) → task_at w t ≡ o → After (worker_finish w t o)
  unfolding worker_finish
  finish_step none at = tt
  finish_step (some k) at = worker_finish-Awake w t k at h

  release_step : (b : Bool) (o : Option Task) → task_at w t ≡ o → After (worker_delete w t b o)
  unfolding worker_delete
  release_step b none at = tt
  release_step b (some k) at = puts w h t k none (worker_drop b) at (omega arith) refl (λ s. refl)

-- The counter does not matter.
recount : (w : World) (a s : ℕ) → Awake w → Awake (record w { added = a; subtracted = s })
recount w a s h = record { workers_awake = h.workers_awake; joins_awake = h.joins_awake }

pub advance-Awake : (w : World) (p : At) (a : Answers) → Awake (with_at w p) → After (advance w p a)
unfolding advance push_reserve
advance-Awake w (push_enter none) a h = ends w h
advance-Awake w (push_enter (some t)) a h =
    either _ _ (leb (w.subtracted + max_tasks) w.added) (ends w h)
      (recount _ (w.added + 1) w.subtracted (rises w h (push_lock t) refl (λ s. refl)))
advance-Awake w (push_lock t) a h = mark_step w t h (task_at w t) refl
advance-Awake w push_undo a h = recount w w.added (w.subtracted + 1) (ends w h)
advance-Awake w (push_queue t) a h = push_append-Awake w t a h
advance-Awake w (join_enter none) a h = ends w h
advance-Awake w (join_enter (some t)) a h = join_step w t h (task_at w t) refl
advance-Awake w (join_wait t) a h = join_step_again w t h (task_at w t) refl
advance-Awake w (join_sleep t) a h =
    either _ _ a.spurious (rises w h (join_wait t) refl (λ s. refl)) tt
advance-Awake w (join_drop true) a h = recount w w.added (w.subtracted + 1) (ends w h)
advance-Awake w (join_drop false) a h = ends w h
advance-Awake w (timed_join_enter none) a h = ends w h
advance-Awake w (timed_join_enter (some t)) a h = timed_join_step w t h (task_at w t) refl
advance-Awake w (timed_join_sleep t) a h =
    either _ _ (a.timed_out || a.spurious) (rises w h (timed_join_wait t) refl (λ s. refl)) tt
advance-Awake w (timed_join_wait t) a h = timed_join_step_again w t h a.timed_out (task_at w t) refl
advance-Awake w (delete_enter none) a h = ends w h
advance-Awake w (delete_enter (some t)) a h = delete_step w t h (task_at w t) refl
advance-Awake w (delete_free t) a h = free_step w t h (task_at w t) refl
advance-Awake w (detach_enter none) a h = ends w h
advance-Awake w (detach_enter (some t)) a h = detach_step w t h (task_at w t) refl
advance-Awake w (detach_drop t) a h = subtract_step w t h (task_at w t) refl
advance-Awake w (detach_free t) a h = free_step w t h (task_at w t) refl
advance-Awake w worker_sleep a h = either _ _ a.spurious (rises w h worker_wait refl (λ s. refl)) tt
advance-Awake w worker_wait a h = worker_take-Awake w w.queue refl h
advance-Awake w (worker_start t) a h = begin_step w t h (task_at w t) refl
advance-Awake w (worker_run t) a h = finish_step w t h (task_at w t) refl
advance-Awake w (worker_free t b) a h = release_step w t h b (task_at w t) refl
advance-Awake w (worker_drop true) a h =
    recount _ w.added (w.subtracted + 1) (rises w h worker_wait refl (λ s. refl))
advance-Awake w (worker_drop false) a h = tt
advance-Awake w (pool_delete_enter false) a h = ends w h
advance-Awake w (pool_delete_enter true) a h =
    either _ _ (w.added == w.subtracted) (rises w h pool_stop refl (λ s. refl)) (ends w h)
advance-Awake w pool_stop a h =
    wakes w h (record w { stopping = true; active = pool_join ∷ each wake_worker w.active })
      (λ s. refl) (λ s. omega (arith, total-wake_worker (dozes s) w.active refl))
      (omega (arith, none_asleep w.active))
advance-Awake w pool_join a h = either _ _ (any_worker w.active) tt (ends w h)
