-- ===== src/ThreadPool/Claims/Advance.antt =====
-- Every step of `advance` keeps the claims on the tasks.
use system_prog.Common.{
  ℕ, ◌+◌, ◌≡◌, ◌∙◌, refl, sym, ap, Bool, true, false, Option, none, some, List, [], ◌∷◌, ◌++◌, ◌==◌,
  ◌||◌, leb, length, if◌then◌else◌, total, arith,
}
use system_prog.ThreadPool.Balance.{one, Inv}
use system_prog.ThreadPool.Balance.Keeps.{with_at}
use system_prog.ThreadPool.Balance.Pushes.{more_workers}
use system_prog.ThreadPool.Balance.Wakes.{total-wake_worker}
use system_prog.ThreadPool.Claims.{Kind, user, claimer, other, kind_of, mark, marks, nulls, Claims}
use system_prog.ThreadPool.Claims.Kinds.{less-Fit, other-Fit}
use system_prog.ThreadPool.Claims.Calls.{
  either, ends-Claims, leaves-Claims, stays-Claims, join_loop-Claims, join_pushed-Claims,
  timed_join_pushed-Claims, timed_join_loop-Claims, push_mark-Claims, delete_task-Claims,
  detach_pushed-Claims,
}
use system_prog.ThreadPool.Claims.Moves.{
  After, Stands-other, is_kind-other, moves-Claims, goes-Claims,
}
use system_prog.ThreadPool.{
  Task, At, push_enter, join_enter, timed_join_enter, delete_enter, detach_enter, push_lock,
  push_queue, join_wait, join_sleep, timed_join_wait, timed_join_sleep, delete_free, detach_drop,
  detach_free, push_undo, worker_wait, worker_sleep, join_drop, worker_drop, worker_start,
  worker_run, worker_free, pool_delete_enter, pool_stop, pool_join, World, task_at, Answers,
  max_tasks, worker_subtract, pool_tell, any_worker, asleep, wake_worker, each, workers, spawns,
  push_reserve, push_mark, push_append, join_first, join_again, timed_join_first, timed_join_again,
  delete_task, free_task, detach_task, detach_subtract, worker_take, worker_begin, worker_finish,
  worker_delete, advance,
}
use system_prog.ThreadPool.Claims.Workers.{
  worker_begin-Claims, worker_finish-Claims, worker_delete-Claims, delete_free-Claims,
  detach_free-Claims, detach_drop-Claims,
}

-- The thread has to do with no task.
module _ (w : World) {p : At} (e : kind_of p ≡ other) (h : Claims (with_at w p)) where
  off-Claims :
      {v : World} (q : At)
      → v.tasks ≡ w.tasks
      → v.active ≡ w.active
      → kind_of q ≡ other
      → nulls q ≡ 0
      → Claims (with_at v q)
  off-Claims {v} q ts as' o n = leaves-Claims w 0 other (Stands-other 0 p e) h {v = v} q ts as' o n

  gone-Claims : {v : World} → v.tasks ≡ w.tasks → v.active ≡ w.active → Claims v
  gone-Claims {v} ts as' = ends-Claims w 0 other (Stands-other 0 p e) h {v = v} ts as'

worker_take-Claims :
    (w : World) (queue : List ℕ) → Claims (with_at w worker_wait) → After (worker_take w queue)
unfolding worker_take
worker_take-Claims w [] h =
    either _ _ w.stopping (gone-Claims w refl h refl refl)
      (off-Claims w refl h worker_sleep refl refl refl refl)
worker_take-Claims w (t ∷ queue) h = off-Claims w refl h (worker_start t) refl refl refl refl

kind_workers : (c : Kind) (s : ℕ) (p : At) → kind_of p ≡ other → mark c s p ≡ 0
kind_workers c s p e =
    Stands-other s p e c s ∙ ap (λ b. if b then one (s == s) else 0) (is_kind-other c)

push_append-Claims :
    (w : World) (t : ℕ) (a : Answers)
    → Claims (with_at w (push_queue t))
    → After (push_append w t a)
unfolding push_append
push_append-Claims w t a h =
    let made = spawns a.creates w.max_threads (length (w.queue ++ t ∷ [])) w.threads in
    let marks_same : (c : Kind) (s : ℕ)
        → total (mark c s) (each wake_worker w.active ++ workers made) ≡ total (mark c s) w.active =
      λ c s.
        more_workers (mark c s) w.active made (kind_workers c s worker_wait refl)
          (kind_workers c s worker_sleep refl) in
    moves-Claims {w = w} worker_wait t user other (λ c s. refl) (Stands-other t worker_wait refl)
      (λ s ne. refl) (λ c s. omega (arith, marks_same c s, kind_workers c s worker_wait refl))
      (omega (arith, more_workers nulls w.active made refl refl)) refl
      (λ f. other-Fit (marks w t) (less-Fit (marks w t) user f)) h

pool_tell-Claims : (w : World) → Claims (with_at w pool_stop) → After (pool_tell w)
pool_tell-Claims w h =
    moves-Claims {w = w}
      {v = record w { stopping = true; active = pool_join ∷ each wake_worker w.active }} pool_join 0
      other other (Stands-other 0 pool_stop refl) (Stands-other 0 pool_join refl) (λ s ne. refl)
      (λ c s.
        ap (λ n. mark c s pool_join + n)
          (total-wake_worker (mark c s) w.active
            (kind_workers c s worker_wait refl ∙ sym (kind_workers c s worker_sleep refl))))
      (ap (λ n. nulls pool_join + n) (total-wake_worker nulls w.active refl)) refl (λ f. f) h

worker_subtract-Claims :
    (w : World) (b : Bool) → Claims (with_at w (worker_drop b)) → After (worker_subtract w b)
worker_subtract-Claims w true h = off-Claims w refl h worker_wait refl refl refl refl
worker_subtract-Claims w false h = tt

asleep-Claims : (w : World) (q : At) (b : Bool) → Claims (with_at w q) → After (asleep w q b)
asleep-Claims w q b h = either _ _ b h tt

module _ (w : World) (t : ℕ) where
  push_lock-Claims :
      (o : Option Task)
      → task_at w t ≡ o
      → Claims (with_at w (push_lock t))
      → After (push_mark w t o)
  unfolding push_mark
  push_lock-Claims none at h = tt
  push_lock-Claims (some k) at h = push_mark-Claims w t k at h

  join_enter-Claims :
      (o : Option Task)
      → task_at w t ≡ o
      → Claims (with_at w (join_enter (some t)))
      → After (join_first w t o)
  unfolding join_first
  join_enter-Claims none at h = tt
  join_enter-Claims (some k) at h = join_pushed-Claims w t k at (λ c s. refl) h k.state refl

  join_wait-Claims :
      (o : Option Task)
      → task_at w t ≡ o
      → Claims (with_at w (join_wait t))
      → After (join_again w t o)
  unfolding join_again
  join_wait-Claims none at h = tt
  join_wait-Claims (some k) at h = join_loop-Claims w t k at (λ c s. refl) h k.state refl

  timed_join_enter-Claims :
      (o : Option Task)
      → task_at w t ≡ o
      → Claims (with_at w (timed_join_enter (some t)))
      → After (timed_join_first w t o)
  unfolding timed_join_first
  timed_join_enter-Claims none at h = tt
  timed_join_enter-Claims (some k) at h = timed_join_pushed-Claims w t k at (λ c s. refl) h k.state

  timed_join_wait-Claims :
      (b : Bool) (o : Option Task)
      → task_at w t ≡ o
      → Claims (with_at w (timed_join_wait t))
      → After (timed_join_again w t b o)
  unfolding timed_join_again
  timed_join_wait-Claims b none at h = tt
  timed_join_wait-Claims b (some k) at h = timed_join_loop-Claims w t k at (λ c s. refl) h b k.state

  delete_enter-Claims :
      (o : Option Task)
      → task_at w t ≡ o
      → Claims (with_at w (delete_enter (some t)))
      → After (delete_task w t o)
  unfolding delete_task
  delete_enter-Claims none at h = tt
  delete_enter-Claims (some k) at h = delete_task-Claims w t k at h

  detach_enter-Claims :
      (o : Option Task)
      → task_at w t ≡ o
      → Claims (with_at w (detach_enter (some t)))
      → After (detach_task w t o)
  unfolding detach_task
  detach_enter-Claims none at h = tt
  detach_enter-Claims (some k) at h =
      either _ _ k.pool (detach_pushed-Claims w t k at h k.state refl)
        (ends-Claims w t claimer (λ c s. refl) h refl refl)

  free_by_delete :
      (o : Option Task)
      → task_at w t ≡ o
      → Claims (with_at w (delete_free t))
      → After (free_task w t o)
  unfolding free_task
  free_by_delete none at h = tt
  free_by_delete (some k) at h = delete_free-Claims w t k at h

  free_by_detach :
      (o : Option Task)
      → task_at w t ≡ o
      → Claims (with_at w (detach_free t))
      → After (free_task w t o)
  unfolding free_task
  free_by_detach none at h = tt
  free_by_detach (some k) at h = detach_free-Claims w t k at h

  detach_subtract-Claims :
      (o : Option Task)
      → task_at w t ≡ o
      → Claims (with_at w (detach_drop t))
      → After (detach_subtract w t o)
  unfolding detach_subtract
  detach_subtract-Claims none at h = tt
  detach_subtract-Claims (some k) at h = detach_drop-Claims w t k at h

  worker_start-Claims :
      (o : Option Task)
      → task_at w t ≡ o
      → Inv (with_at w (worker_start t))
      → Claims (with_at w (worker_start t))
      → After (worker_begin w t o)
  unfolding worker_begin
  worker_start-Claims none at i h = tt
  worker_start-Claims (some k) at i h = worker_begin-Claims w t k at i h

  worker_run-Claims :
      (o : Option Task)
      → task_at w t ≡ o
      → Inv (with_at w (worker_run t))
      → Claims (with_at w (worker_run t))
      → After (worker_finish w t o)
  unfolding worker_finish
  worker_run-Claims none at i h = tt
  worker_run-Claims (some k) at i h = worker_finish-Claims w t k at i h

  worker_free-Claims :
      (b : Bool) (o : Option Task)
      → task_at w t ≡ o
      → Claims (with_at w (worker_free t b))
      → After (worker_delete w t b o)
  unfolding worker_delete
  worker_free-Claims b none at h = tt
  worker_free-Claims b (some k) at h = worker_delete-Claims w t k at b h

pub advance-Claims :
    (w : World) (p : At) (a : Answers)
    → Inv (with_at w p)
    → Claims (with_at w p)
    → After (advance w p a)
unfolding advance push_reserve
advance-Claims w (push_enter none) a i h = gone-Claims w refl h refl refl
advance-Claims w (push_enter (some t)) a i h =
    either _ _ (leb (w.subtracted + max_tasks) w.added)
      (ends-Claims w t user (λ c s. refl) h refl refl)
      (goes-Claims {w = w} {v = record w { added = w.added + 1 }} t user (λ c s. refl) refl refl
        {q = push_lock t} user (λ c s. refl) refl (λ f. f) h)
advance-Claims w (push_lock t) a i h = push_lock-Claims w t (task_at w t) refl h
advance-Claims w push_undo a i h = gone-Claims w refl h refl refl
advance-Claims w (push_queue t) a i h = push_append-Claims w t a h
advance-Claims w (join_enter none) a i h = gone-Claims w refl h refl refl
advance-Claims w (join_enter (some t)) a i h = join_enter-Claims w t (task_at w t) refl h
advance-Claims w (join_wait t) a i h = join_wait-Claims w t (task_at w t) refl h
advance-Claims w (join_sleep t) a i h =
    asleep-Claims w (join_wait t) a.spurious
      (stays-Claims w t user (λ c s. refl) h (join_wait t) (λ c s. refl) refl)
advance-Claims w (join_drop true) a i h = gone-Claims w refl h refl refl
advance-Claims w (join_drop false) a i h = gone-Claims w refl h refl refl
advance-Claims w (timed_join_enter none) a i h = gone-Claims w refl h refl refl
advance-Claims w (timed_join_enter (some t)) a i h =
    timed_join_enter-Claims w t (task_at w t) refl h
advance-Claims w (timed_join_sleep t) a i h =
    asleep-Claims w (timed_join_wait t) (a.timed_out || a.spurious)
      (stays-Claims w t user (λ c s. refl) h (timed_join_wait t) (λ c s. refl) refl)
advance-Claims w (timed_join_wait t) a i h =
    timed_join_wait-Claims w t a.timed_out (task_at w t) refl h
advance-Claims w (delete_enter none) a i h = gone-Claims w refl h refl refl
advance-Claims w (delete_enter (some t)) a i h = delete_enter-Claims w t (task_at w t) refl h
advance-Claims w (delete_free t) a i h = free_by_delete w t (task_at w t) refl h
advance-Claims w (detach_enter none) a i h = gone-Claims w refl h refl refl
advance-Claims w (detach_enter (some t)) a i h = detach_enter-Claims w t (task_at w t) refl h
advance-Claims w (detach_drop t) a i h = detach_subtract-Claims w t (task_at w t) refl h
advance-Claims w (detach_free t) a i h = free_by_detach w t (task_at w t) refl h
advance-Claims w worker_sleep a i h =
    asleep-Claims w worker_wait a.spurious (off-Claims w refl h worker_wait refl refl refl refl)
advance-Claims w worker_wait a i h = worker_take-Claims w w.queue h
advance-Claims w (worker_start t) a i h = worker_start-Claims w t (task_at w t) refl i h
advance-Claims w (worker_run t) a i h = worker_run-Claims w t (task_at w t) refl i h
advance-Claims w (worker_free t b) a i h = worker_free-Claims w t b (task_at w t) refl h
advance-Claims w (worker_drop b) a i h = worker_subtract-Claims w b h
advance-Claims w (pool_delete_enter false) a i h = gone-Claims w refl h refl refl
advance-Claims w (pool_delete_enter true) a i h =
    either _ _ (w.added == w.subtracted) (off-Claims w refl h pool_stop refl refl refl refl)
      (gone-Claims w refl h refl refl)
advance-Claims w pool_stop a i h = pool_tell-Claims w h
advance-Claims w pool_join a i h =
    either _ _ (any_worker w.active) tt (gone-Claims w refl h refl refl)
