-- ===== src/ThreadPool/Joins.antt =====
-- What the two ways to join a task leave behind.
use system_prog.Common.{ℕ, ◌+◌, ◌≡◌, refl, ap, Bool, true, false, some, arith}
use system_prog.ThreadPool.Balance.{task_at-put_self}
use system_prog.ThreadPool.{
  queued, finished, joined, ok, Task, join_enter, timed_join_enter, push_lock, push_queue,
  push_undo, join_drop, World, Answers, goes, returns, crashes, task_at, put_task, drop_one,
  advance, push_mark, join_first, timed_join_first,
}

abbrev pub ended : Bool → Task
ended detached = record { pool = true; state = finished; detached = detached }

abbrev pub joined_task : Bool → Bool → Task
joined_task pool detached = record { pool = pool; state = joined; detached = detached }

module _ (w : World) (t : ℕ) (detached : Bool) (answers : Answers)
    (at : task_at w t ≡ some (ended detached)) where
  -- A call of `thread_task_join` on a task that has ended joins it at once and goes on to subtract
  -- it from the counter. The task can be pushed again then; but a call of `thread_task_timed_join`
  -- on it reads through a null pointer.
  pub thread_task_join_lem :
      (v : World) × (advance w (join_enter (some t)) answers ≡ goes v (join_drop true))
      × (task_at v t ≡ some (joined_task false detached))
      × (advance v (push_lock t) answers
          ≡ goes (put_task v t (some (record (ended detached) { state = queued }))) (push_queue t))
      × (advance v (timed_join_enter (some t)) answers ≡ crashes)
  unfolding advance join_first push_mark timed_join_first
  thread_task_join_lem =
      let v = put_task w t (some (joined_task false detached)) in
      let now = task_at-put_self w t (some (joined_task false detached)) at in
      (v, ap (join_first w t) at, now, ap (push_mark v t) now, ap (timed_join_first v t) now)

  -- A call of `thread_task_timed_join` on a task that has ended joins it and subtracts it from the
  -- counter, and leaves it its pool: a second such call subtracts it again, and a push of the task
  -- goes on to fail.
  pub thread_task_timed_join_lem :
      (v u : World) × (advance w (timed_join_enter (some t)) answers ≡ returns v ok)
      × (task_at v t ≡ some (joined_task true detached))
      × (advance v (timed_join_enter (some t)) answers ≡ returns u ok)
      × (u.subtracted ≡ w.subtracted + 2)
      × (u.added ≡ w.added)
      × (advance v (push_lock t) answers ≡ goes v push_undo)
  unfolding advance push_mark timed_join_first
  thread_task_timed_join_lem =
      let v = drop_one (put_task w t (some (joined_task true detached))) in
      let u = drop_one (put_task v t (some (joined_task true detached))) in
      let now = task_at-put_self w t (some (joined_task true detached)) at in
      (
        v,
        u,
        ap (timed_join_first w t) at,
        now,
        ap (timed_join_first v t) now,
        omega arith,
        refl,
        ap (push_mark v t) now,
      )
