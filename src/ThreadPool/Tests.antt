-- ===== src/ThreadPool/Tests.antt =====
-- Runs of the pool, and examples of its theorems.
use system_prog.Common.{◌+◌, ◌⊎◌, ◌≡◌, ◌≢◌, refl, true, false, some, [], ◌∷◌, ◌++◌, pos, total}
use system_prog.ThreadPool.Balance.{
  weight, queued_in, running_in, owes, refunds, brings, runs, named,
}
use system_prog.ThreadPool.Joins.{
  ended, joined_task, thread_task_join_lem, thread_task_timed_join_lem,
}
use system_prog.ThreadPool.Steps.Delete.{settles, thread_pool_delete_lem}
use system_prog.ThreadPool.Steps.Sleepers.Reached.{no_lost_broadcast}
use system_prog.ThreadPool.Steps.Sleepers.{sleeps, dozes, over_in}
use system_prog.ThreadPool.Steps.Reached.{counter_lem, one_owner}
use system_prog.ThreadPool.Steps.Workers.{advance-ne-crashes}
use system_prog.ThreadPool.Steps.{Reach, begin, proceed, finish, make_task, start, step}
use system_prog.ThreadPool.{
  new, queued, running, push_enter, join_enter, timed_join_enter, push_lock, push_queue, push_undo,
  worker_wait, worker_start, worker_run, join_drop, World, Answers, goes, returns, crashes, task_at,
  put_task, advance, ok, has_tasks, thread_pool_new, thread_task_new, pool_delete_enter, new_world,
}

abbrev answers : Answers
answers = record { creates = 5; timed_out = false; spurious = false }

-- One worker, and a task in the queue.
abbrev pushed : World
pushed = record {
  tasks = some (record { pool = true; state = queued; detached = false }) ∷ [];
  queue = 0 ∷ [];
  threads = 1;
  max_threads = 2;
  added = 1;
  subtracted = 0;
  stopping = false;
  active = worker_wait ∷ [];
}

abbrev counted : World
counted = record (new_world 2) {
  tasks = some (record { pool = false; state = new; detached = false }) ∷ [];
  added = 1;
}

abbrev marked : World
marked = record counted { tasks = pushed.tasks }

pushed-Reach : Reach pushed
unfolding thread_pool_new thread_task_new advance
pushed-Reach =
    step
      (step
        (step (step (step (start (pos 2) refl) make_task) (begin (push_enter (some 0)) refl))
          (proceed [] [] (push_enter (some 0)) (push_lock 0) answers counted refl tt refl))
        (proceed [] [] (push_lock 0) (push_queue 0) answers marked refl tt refl))
      (finish [] [] (push_queue 0) answers pushed ok refl tt refl)

counter_lem_example :
    pushed.added + total refunds pushed.active
    ≡ pushed.subtracted + total weight pushed.tasks + total owes pushed.active
counter_lem_example = counter_lem pushed-Reach

one_owner_example :
    (queued_in (task_at pushed 0) ≡ total (named 0) pushed.queue + total (brings 0) pushed.active)
    × (running_in (task_at pushed 0) ≡ total (runs 0) pushed.active)
one_owner_example = one_owner 0 pushed-Reach

advance-ne-crashes_example :
    advance (record pushed { active = [] ++ [] }) worker_wait answers ≢ crashes
advance-ne-crashes_example = advance-ne-crashes [] [] worker_wait answers pushed-Reach refl refl

abbrev done : World
done = record pushed { tasks = some (ended false) ∷ []; queue = [] }

abbrev in_run : World
in_run = record pushed {
  tasks = some (record { pool = true; state = running; detached = false }) ∷ [];
  queue = [];
}

-- The task was run and joined, and the worker waits.
abbrev rested : World
rested = record done { tasks = some (joined_task false false) ∷ []; subtracted = 1 }

rested-Reach : Reach rested
unfolding advance
rested-Reach =
    step
      (step
        (step
          (step
            (step
              (step pushed-Reach (
                proceed [] [] worker_wait (worker_start 0) answers
                  (record pushed { queue = []; active = [] }) refl tt refl))
              (proceed [] [] (worker_start 0) (worker_run 0) answers (record in_run { active = [] })
                refl tt refl))
            (proceed [] [] (worker_run 0) worker_wait answers (record done { active = [] }) refl tt
              refl))
          (begin (join_enter (some 0)) refl))
        (proceed [] (worker_wait ∷ []) (join_enter (some 0)) (join_drop true) answers
          (record done { tasks = rested.tasks }) refl tt refl))
      (finish [] (worker_wait ∷ []) (join_drop true) answers rested ok refl tt refl)

-- The pool is to be deleted.
abbrev leaving : World
leaving = record rested { active = pool_delete_enter true ∷ worker_wait ∷ [] }

leaving-Reach : Reach leaving
leaving-Reach = step rested-Reach (begin (pool_delete_enter true) tt)

thread_pool_delete_lem_example :
    (leaving.queue ≡ [])
    × (total (brings 0) leaving.active ≡ 0)
    × (total owes leaving.active ≡ 0)
    × (queued_in (task_at leaving 0) + running_in (task_at leaving 0) ≡ 0)
    × (weight (task_at leaving 0) ≡ total (settles 0) leaving.active)
unfolding advance
thread_pool_delete_lem_example =
    thread_pool_delete_lem 0 [] (worker_wait ∷ []) answers leaving-Reach refl refl

not_deleted : advance pushed (pool_delete_enter true) answers ≡ returns pushed has_tasks
unfolding advance
not_deleted = refl

no_lost_broadcast_example :
    ((total sleeps pushed.active ≡ 0) ⊎ ((pushed.queue ≡ []) × (pushed.stopping ≡ false)))
    × ((total (dozes 0) pushed.active ≡ 0) ⊎ (over_in (task_at pushed 0) ≡ 0))
no_lost_broadcast_example = no_lost_broadcast 0 pushed-Reach

thread_task_join_lem_example :
    (v : World) × (advance done (join_enter (some 0)) answers ≡ goes v (join_drop true))
    × (task_at v 0 ≡ some (joined_task false false))
    × (advance v (push_lock 0) answers
        ≡ goes (put_task v 0 (some (record (ended false) { state = queued }))) (push_queue 0))
    × (advance v (timed_join_enter (some 0)) answers ≡ crashes)
thread_task_join_lem_example = thread_task_join_lem done 0 false answers refl

thread_task_timed_join_lem_example :
    (v u : World) × (advance done (timed_join_enter (some 0)) answers ≡ returns v ok)
    × (task_at v 0 ≡ some (joined_task true false))
    × (advance v (timed_join_enter (some 0)) answers ≡ returns u ok)
    × (u.subtracted ≡ done.subtracted + 2)
    × (u.added ≡ done.added)
    × (advance v (push_lock 0) answers ≡ goes v push_undo)
thread_task_timed_join_lem_example = thread_task_timed_join_lem done 0 false answers refl
