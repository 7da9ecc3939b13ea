-- ===== src/ThreadPool/Steps/Bounds.antt =====
-- The limits of the pool.
use mathlib.Core.Path.{subst}
use system_prog.Common.{
  ℕ, zero, suc, ◌+◌, ◌≤◌, ◌≡◌, Bool, true, Option, none, some, List, [], ◌∷◌, ◌++◌, arith, ℤ, pos,
  negsuc,
}
use system_prog.ThreadPool.Steps.{Step, Reach, begin, proceed, finish, make_task, start, step}
use system_prog.ThreadPool.{
  Task, At, push_enter, join_enter, timed_join_enter, delete_enter, detach_enter, push_lock,
  push_queue, join_wait, timed_join_wait, push_undo, worker_wait, worker_sleep, join_sleep,
  timed_join_sleep, delete_free, detach_drop, detach_free, worker_free, pool_delete_enter,
  pool_stop, pool_join, free_task, detach_subtract, worker_delete, worker_drop, join_drop,
  worker_start, worker_run, World, task_at, Outcome, Answers, goes, returns, waits, crashes,
  advance, new_world, thread_pool_new, thread_task_new, worker_begin, worker_finish, worker_take,
}
use system_prog.Common.{length}
use system_prog.ThreadPool.{
  max_tasks, push_mark, spawns, join_loop, join_pushed, join_first, join_again, timed_join_end,
  timed_join_pushed, timed_join_first, timed_join_loop, timed_join_again, delete_task,
  detach_pushed, detach_task,
}

pub record Bounded (w : World) : Type 0 where
  pub tasks_bound : w.added ≤ w.subtracted + max_tasks
  pub threads_bound : w.threads ≤ w.max_threads

abbrev AfterBounded : Outcome → Type 0
AfterBounded (goes w q) = Bounded w
AfterBounded (returns w code) = Bounded w
AfterBounded waits = Unit
AfterBounded crashes = Unit

spawns-le :
    (creates limit size threads : ℕ)
    → threads ≤ limit
    → threads + spawns creates limit size threads ≤ limit
unfolding spawns
spawns-le zero limit size threads h = omega arith
spawns-le (suc creates) limit size threads h =
    ground (arith, spawns-le creates limit size (threads + 1))

push_mark-Bounded :
    (w : World) (t : ℕ) (o : Option Task) → Bounded w → AfterBounded (push_mark w t o)
unfolding push_mark
push_mark-Bounded w t o h = ground arith

join_first-Bounded :
    (w : World) (t : ℕ) (o : Option Task) → Bounded w → AfterBounded (join_first w t o)
unfolding join_first join_pushed join_loop
join_first-Bounded w t o h = ground arith

join_again-Bounded :
    (w : World) (t : ℕ) (o : Option Task) → Bounded w → AfterBounded (join_again w t o)
unfolding join_again join_loop
join_again-Bounded w t o h = ground arith

timed_join_first-Bounded :
    (w : World) (t : ℕ) (o : Option Task) → Bounded w → AfterBounded (timed_join_first w t o)
unfolding timed_join_first timed_join_pushed timed_join_end
timed_join_first-Bounded w t o h = ground arith

delete_task-Bounded :
    (w : World) (t : ℕ) (o : Option Task) → Bounded w → AfterBounded (delete_task w t o)
unfolding delete_task
delete_task-Bounded w t o h = ground arith

free_task-Bounded :
    (w : World) (t : ℕ) (o : Option Task) → Bounded w → AfterBounded (free_task w t o)
unfolding free_task
free_task-Bounded w t o h = ground arith

detach_subtract-Bounded :
    (w : World) (t : ℕ) (o : Option Task) → Bounded w → AfterBounded (detach_subtract w t o)
unfolding detach_subtract
detach_subtract-Bounded w t o h = ground arith

worker_delete-Bounded :
    (w : World) (t : ℕ) (b : Bool) (o : Option Task)
    → Bounded w
    → AfterBounded (worker_delete w t b o)
unfolding worker_delete
worker_delete-Bounded w t b o h = ground arith

detach_task-Bounded :
    (w : World) (t : ℕ) (o : Option Task) → Bounded w → AfterBounded (detach_task w t o)
unfolding detach_task detach_pushed
detach_task-Bounded w t o h = ground arith

worker_begin-Bounded :
    (w : World) (t : ℕ) (o : Option Task) → Bounded w → AfterBounded (worker_begin w t o)
unfolding worker_begin
worker_begin-Bounded w t o h = ground arith

worker_finish-Bounded :
    (w : World) (t : ℕ) (o : Option Task) → Bounded w → AfterBounded (worker_finish w t o)
unfolding worker_finish
worker_finish-Bounded w t o h = ground arith

timed_join_again-Bounded :
    (w : World) (t : ℕ) (b : Bool) (o : Option Task)
    → Bounded w
    → AfterBounded (timed_join_again w t b o)
unfolding timed_join_again timed_join_loop timed_join_end
timed_join_again-Bounded w t b o h = ground arith

worker_take-Bounded : (w : World) (queue : List ℕ) → Bounded w → AfterBounded (worker_take w queue)
unfolding worker_take
worker_take-Bounded w queue h = ground arith

advance-Bounded : (w : World) (p : At) (a : Answers) → Bounded w → AfterBounded (advance w p a)
unfolding advance
advance-Bounded w (push_enter none) a h = h
advance-Bounded w (push_enter (some t)) a h = ground arith
advance-Bounded w (push_lock t) a h = push_mark-Bounded w t (task_at w t) h
advance-Bounded w push_undo a h = omega arith
advance-Bounded w (push_queue t) a h = record {
  tasks_bound = h.tasks_bound;
  threads_bound =
      spawns-le a.creates w.max_threads (length (w.queue ++ t ∷ [])) w.threads h.threads_bound;
}
advance-Bounded w (join_enter none) a h = h
advance-Bounded w (join_enter (some t)) a h = join_first-Bounded w t (task_at w t) h
advance-Bounded w (join_wait t) a h = join_again-Bounded w t (task_at w t) h
advance-Bounded w (join_drop had_pool) a h = ground arith
advance-Bounded w (timed_join_enter none) a h = h
advance-Bounded w (timed_join_enter (some t)) a h = timed_join_first-Bounded w t (task_at w t) h
advance-Bounded w (timed_join_wait t) a h = timed_join_again-Bounded w t a.timed_out (task_at w t) h
advance-Bounded w (delete_enter none) a h = h
advance-Bounded w (delete_enter (some t)) a h = delete_task-Bounded w t (task_at w t) h
advance-Bounded w (detach_enter none) a h = h
advance-Bounded w (detach_enter (some t)) a h = detach_task-Bounded w t (task_at w t) h
advance-Bounded w worker_wait a h = worker_take-Bounded w w.queue h
advance-Bounded w (worker_start t) a h = worker_begin-Bounded w t (task_at w t) h
advance-Bounded w (worker_run t) a h = worker_finish-Bounded w t (task_at w t) h
advance-Bounded w (join_sleep t) a h = ground arith
advance-Bounded w (timed_join_sleep t) a h = ground arith
advance-Bounded w worker_sleep a h = ground arith
advance-Bounded w (delete_free t) a h = free_task-Bounded w t (task_at w t) h
advance-Bounded w (detach_drop t) a h = detach_subtract-Bounded w t (task_at w t) h
advance-Bounded w (detach_free t) a h = free_task-Bounded w t (task_at w t) h
advance-Bounded w (worker_free t b) a h = worker_delete-Bounded w t b (task_at w t) h
advance-Bounded w (worker_drop b) a h = ground arith
advance-Bounded w (pool_delete_enter given) a h = ground arith
advance-Bounded w pool_stop a h = record {
  tasks_bound = h.tasks_bound;
  threads_bound = h.threads_bound;
}
advance-Bounded w pool_join a h = ground arith

Step-Bounded : {w v : World} → Step w v → Bounded w → Bounded v
unfolding thread_task_new
Step-Bounded {w} (begin p e) h = record {
  tasks_bound = h.tasks_bound;
  threads_bound = h.threads_bound;
}
Step-Bounded {w} (proceed before later p q a v e g o) h =
    let b = record w { active = before ++ later } in
    let moved = subst AfterBounded o (
      advance-Bounded b p a
        (record { tasks_bound = h.tasks_bound; threads_bound = h.threads_bound })) in
    record { tasks_bound = moved.tasks_bound; threads_bound = moved.threads_bound }
Step-Bounded {w} (finish before later p a v code e g o) h =
    let b = record w { active = before ++ later } in
    subst AfterBounded o (
      advance-Bounded b p a
        (record { tasks_bound = h.tasks_bound; threads_bound = h.threads_bound }))
Step-Bounded {w} make_task h = record {
  tasks_bound = h.tasks_bound;
  threads_bound = h.threads_bound;
}

new_world-Bounded : (n : ℕ) → Bounded (new_world n)
new_world-Bounded n = record { tasks_bound = omega arith; threads_bound = omega arith }

start-Bounded :
    (thread_count : ℤ) {w : World} → thread_pool_new thread_count true ≡ some w → Bounded w
unfolding thread_pool_new
start-Bounded (negsuc k) e = cc
start-Bounded (pos n) e = ground (arith, new_world-Bounded n)

bounded : {w : World} → Reach w → Bounded w
bounded (start n e) = start-Bounded n e
bounded (step r s) = Step-Bounded s (bounded r)

-- In every world that is reached by the steps of `Step` the counter of the pool is at most TPOOL_MAX_TASKS, and there are at
-- most as many workers as the pool was made for.
pub Reach-Bounded :
    {w : World} → Reach w → (w.added ≤ w.subtracted + max_tasks) × (w.threads ≤ w.max_threads)
Reach-Bounded r = let h = bounded r in (h.tasks_bound, h.threads_bound)
