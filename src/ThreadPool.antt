-- ===== src/ThreadPool.antt =====
-- 4/thread_pool.cpp: one pool and its tasks. Every part of a call that runs under a mutex, every
-- access of the atomic counter and the release of a task's memory is one step of `advance`; between
-- two of them any thread may run. A wait on a condition is a place of its own, which a broadcast ends.
pub mod Balance
pub mod Claims
pub mod Steps
pub mod Joins
mod Tests
use system_prog.Common.{
  ℕ, zero, suc, ◌+◌, Bool, true, false, Option, none, some, List, [], ◌∷◌, ◌++◌, ltb, leb,
  if◌then◌else◌, ◌==◌, ◌||◌, is_empty, length, get_elem?, set, ℤ, pos, negsuc,
}

pub data TaskState : Type 0 where
  new queued running finished joined : TaskState

pub data Code : Type 0 where
  ok invalid_argument too_many_tasks has_tasks task_not_pushed task_in_pool timeout : Code

-- `pool` says whether the pointer to the pool is set. The mutex and the condition are in the steps.
pub record Task : Type 0 where
  pub pool : Bool
  pub state : TaskState
  pub detached : Bool

abbrev pub max_threads_limit : ℕ
max_threads_limit = 20

abbrev pub max_tasks : ℕ
max_tasks = 100000

-- Where a thread is that uses the pool. An entry of a call holds the pointer that it was given, none
-- for a null pointer (for the pool, whether it is not null); the other places hold the task that the
-- call has found. `join_sleep`, `timed_join_sleep` and `worker_sleep` are the waits on a condition.
pub data At : Type 0 where
  push_enter join_enter timed_join_enter delete_enter detach_enter : Option ℕ → At
  push_lock push_queue join_wait join_sleep timed_join_wait timed_join_sleep : ℕ → At
  delete_free detach_drop detach_free : ℕ → At
  push_undo worker_wait worker_sleep : At
  join_drop worker_drop : Bool → At
  worker_start worker_run : ℕ → At
  worker_free : ℕ → Bool → At
  pool_delete_enter : Bool → At
  pool_stop pool_join : At

-- The tasks by their address, none where one was deleted. The counter is an atomic `int`: what was
-- added to it and what was subtracted. The workers are among the active threads.
pub record World : Type 0 where
  pub tasks : List (Option Task)
  pub queue : List ℕ
  pub threads : ℕ
  pub max_threads : ℕ
  pub added : ℕ
  pub subtracted : ℕ
  pub stopping : Bool
  pub active : List At

-- What the system answers: how many threads `pthread_create` makes before it fails, whether
-- `pthread_cond_timedwait` has timed out, and whether a wait on a condition comes back with no
-- broadcast.
pub record Answers : Type 0 where
  pub creates : ℕ
  pub timed_out : Bool
  pub spurious : Bool

-- A step goes on, or ends the call, or finds that it has to wait, or uses a task that was deleted or
-- a null pointer. A worker that ends returns too.
pub data Outcome : Type 0 where
  goes : World → At → Outcome
  returns : World → Code → Outcome
  waits : Outcome
  crashes : Outcome

abbrev pub flat : Option (Option Task) → Option Task
flat none = none
flat (some o) = o

abbrev pub task_at : World → ℕ → Option Task
task_at w t = flat (get_elem? w.tasks t)

abbrev pub put_task : World → ℕ → Option Task → World
put_task w t o = record w { tasks = set w.tasks t o }

abbrev pub drop_one : World → World
drop_one w = record w { subtracted = w.subtracted + 1 }

-- Whether the state is QUEUED, RUNNING or FINISHED.
abbrev pub is_busy : TaskState → Bool
is_busy queued = true
is_busy running = true
is_busy finished = true
is_busy _ = false

-- The first atomic part of `thread_pool_push_task`; the loop of the exchange is one step.
pub push_reserve : World → Option ℕ → Outcome
push_reserve w none = returns w invalid_argument
push_reserve w (some t) =
    if leb (w.subtracted + max_tasks) w.added
    then returns w too_many_tasks
    else goes (record w { added = w.added + 1 }) (push_lock t)

pub push_mark : World → ℕ → Option Task → Outcome
push_mark w t none = crashes
push_mark w t (some k) =
    if k.pool || is_busy k.state
    then goes w push_undo
    else goes (put_task w t (some (record k { pool = true; state = queued }))) (push_queue t)

-- How many threads the loop makes, if `pthread_create` works so often.
spawns : ℕ → ℕ → ℕ → ℕ → ℕ
spawns zero limit size threads = 0
spawns (suc creates) limit size threads =
    let rest = spawns creates limit size (threads + 1) in
    if ltb threads limit then if ltb threads size then suc rest else 0 else 0

abbrev pub workers : ℕ → List At
workers zero = []
workers (suc n) = worker_wait ∷ workers n

-- A broadcast of the pool's condition, and one of the condition of task `t`, for one thread.
abbrev pub wake_worker : At → At
wake_worker worker_sleep = worker_wait
wake_worker p = p

abbrev pub wake_join : ℕ → At → At
wake_join t (join_sleep s) = if s == t then join_wait s else join_sleep s
wake_join t (timed_join_sleep s) = if s == t then timed_join_wait s else timed_join_sleep s
wake_join t p = p

abbrev pub each : (At → At) → List At → List At
each f [] = []
each f (p ∷ ps) = f p ∷ each f ps

pub push_append : World → ℕ → Answers → Outcome
unfolding spawns
push_append w t answers =
    let queue = w.queue ++ t ∷ [] in
    let made = spawns answers.creates w.max_threads (length queue) w.threads in
    returns
      (record w {
        queue = queue;
        threads = w.threads + made;
        active = each wake_worker w.active ++ workers made;
      })
      ok

-- A wait on a condition that no broadcast has ended.
abbrev pub asleep : World → At → Bool → Outcome
asleep w p spurious = if spurious then goes w p else waits

-- The loop of a join, whenever it has the mutex.
pub join_loop : World → ℕ → Task → TaskState → Outcome
join_loop w t k finished =
    goes (put_task w t (some (record k { pool = false; state = joined }))) (join_drop k.pool)
join_loop w t k joined = returns w ok
join_loop w t k _ = goes w (join_sleep t)

pub join_pushed : World → ℕ → Task → TaskState → Outcome
unfolding join_loop
join_pushed w t k new = returns w task_not_pushed
join_pushed w t k s = join_loop w t k s

join_first : World → ℕ → Option Task → Outcome
unfolding join_pushed
join_first w t none = crashes
join_first w t (some k) = join_pushed w t k k.state

join_again : World → ℕ → Option Task → Outcome
unfolding join_loop
join_again w t none = crashes
join_again w t (some k) = join_loop w t k k.state

abbrev join_end : World → Bool → Outcome
join_end w had_pool = returns (if had_pool then drop_one w else w) ok

-- The end of a timed join: the pool is read through the task.
pub timed_join_end : World → ℕ → Task → Outcome
timed_join_end w t k =
    if k.pool
    then returns (drop_one (put_task w t (some (record k { state = joined })))) ok
    else crashes

pub timed_join_pushed : World → ℕ → Task → TaskState → Outcome
unfolding timed_join_end
timed_join_pushed w t k new = returns w task_not_pushed
timed_join_pushed w t k finished = timed_join_end w t k
timed_join_pushed w t k joined = timed_join_end w t k
timed_join_pushed w t k _ = goes w (timed_join_sleep t)

timed_join_first : World → ℕ → Option Task → Outcome
unfolding timed_join_pushed
timed_join_first w t none = crashes
timed_join_first w t (some k) = timed_join_pushed w t k k.state

-- A wait of a timed join that comes back. A wait that has timed out fails whatever the state.
pub timed_join_loop : World → ℕ → Bool → Task → TaskState → Outcome
unfolding timed_join_end
timed_join_loop w t timed_out k finished =
    if timed_out then returns w timeout else timed_join_end w t k
timed_join_loop w t timed_out k joined = if timed_out then returns w timeout else returns w ok
timed_join_loop w t timed_out k _ =
    if timed_out then returns w timeout else goes w (timed_join_sleep t)

timed_join_again : World → ℕ → Bool → Option Task → Outcome
unfolding timed_join_loop
timed_join_again w t timed_out none = crashes
timed_join_again w t timed_out (some k) = timed_join_loop w t timed_out k k.state

-- The check of `thread_task_delete`, under the mutex, and what comes behind the unlock.
pub delete_task : World → ℕ → Option Task → Outcome
delete_task w t none = crashes
delete_task w t (some k) =
    if is_busy k.state then returns w task_in_pool else goes w (delete_free t)

pub free_task : World → ℕ → Option Task → Outcome
free_task w t none = crashes
free_task w t (some k) = returns (put_task w t none) ok

pub detach_pushed : World → ℕ → Task → TaskState → Outcome
detach_pushed w t k finished = goes w (detach_drop t)
detach_pushed w t k _ = returns (put_task w t (some (record k { detached = true }))) ok

pub detach_task : World → ℕ → Option Task → Outcome
unfolding detach_pushed
detach_task w t none = crashes
detach_task w t (some k) = if k.pool then detach_pushed w t k k.state else returns w task_not_pushed

-- Behind the unlock of a detach the pool is read through the task.
pub detach_subtract : World → ℕ → Option Task → Outcome
detach_subtract w t none = crashes
detach_subtract w t (some k) = if k.pool then goes (drop_one w) (detach_free t) else crashes

worker_take : World → List ℕ → Outcome
worker_take w [] = if w.stopping then returns w ok else goes w worker_sleep
worker_take w (t ∷ queue) = goes (record w { queue = queue }) (worker_start t)

pub worker_begin : World → ℕ → Option Task → Outcome
worker_begin w t none = crashes
worker_begin w t (some k) = goes (put_task w t (some (record k { state = running }))) (worker_run t)

-- The function of the task has ended: the part under the mutex. It wakes the joins, and reads
-- whether the task is detached, and its pool.
pub worker_finish : World → ℕ → Option Task → Outcome
worker_finish w t none = crashes
worker_finish w t (some k) =
    let v = put_task w t (some (record k { state = finished })) in
    goes (record v { active = each (wake_join t) v.active })
      (if k.detached then worker_free t k.pool else worker_wait)

-- Behind the unlock: a detached task is deleted, and then subtracted by the pool that was read.
pub worker_delete : World → ℕ → Bool → Option Task → Outcome
worker_delete w t had_pool none = crashes
worker_delete w t had_pool (some k) = goes (put_task w t none) (worker_drop had_pool)

abbrev pub worker_subtract : World → Bool → Outcome
worker_subtract w true = goes (drop_one w) worker_wait
worker_subtract w false = crashes

-- The places in the loop of a worker.
abbrev pub is_worker : At → Bool
is_worker worker_wait = true
is_worker worker_sleep = true
is_worker (worker_start t) = true
is_worker (worker_run t) = true
is_worker (worker_free t had_pool) = true
is_worker (worker_drop had_pool) = true
is_worker _ = false

abbrev pub any_worker : List At → Bool
any_worker [] = false
any_worker (p ∷ ps) = is_worker p || any_worker ps

-- `thread_pool_delete`: the load of the counter; the part under the mutex; and the joins of the
-- workers, behind which the pool is freed.
abbrev pub pool_load : World → Bool → Outcome
pool_load w false = returns w invalid_argument
pool_load w true = if w.added == w.subtracted then goes w pool_stop else returns w has_tasks

abbrev pub pool_tell : World → Outcome
pool_tell w = goes (record w { stopping = true; active = each wake_worker w.active }) pool_join

abbrev pub pool_end : World → Outcome
pool_end w = if any_worker w.active then waits else returns w ok

unfoldable pub advance : World → At → Answers → Outcome
unfolding push_reserve push_mark push_append join_first join_again timed_join_first timed_join_again
    delete_task free_task detach_task detach_subtract worker_take worker_begin worker_finish
    worker_delete
advance w (push_enter task) a = push_reserve w task
advance w (push_lock t) a = push_mark w t (task_at w t)
advance w push_undo a = returns (drop_one w) task_in_pool
advance w (push_queue t) a = push_append w t a
advance w (join_enter none) a = returns w invalid_argument
advance w (join_enter (some t)) a = join_first w t (task_at w t)
advance w (join_wait t) a = join_again w t (task_at w t)
advance w (join_sleep t) a = asleep w (join_wait t) a.spurious
advance w (join_drop had_pool) a = join_end w had_pool
advance w (timed_join_enter none) a = returns w invalid_argument
advance w (timed_join_enter (some t)) a = timed_join_first w t (task_at w t)
advance w (timed_join_sleep t) a = asleep w (timed_join_wait t) (a.timed_out || a.spurious)
advance w (timed_join_wait t) a = timed_join_again w t a.timed_out (task_at w t)
advance w (delete_enter none) a = returns w invalid_argument
advance w (delete_enter (some t)) a = delete_task w t (task_at w t)
advance w (delete_free t) a = free_task w t (task_at w t)
advance w (detach_enter none) a = returns w invalid_argument
advance w (detach_enter (some t)) a = detach_task w t (task_at w t)
advance w (detach_drop t) a = detach_subtract w t (task_at w t)
advance w (detach_free t) a = free_task w t (task_at w t)
advance w worker_sleep a = asleep w worker_wait a.spurious
advance w worker_wait a = worker_take w w.queue
advance w (worker_start t) a = worker_begin w t (task_at w t)
advance w (worker_run t) a = worker_finish w t (task_at w t)
advance w (worker_free t had_pool) a = worker_delete w t had_pool (task_at w t)
advance w (worker_drop had_pool) a = worker_subtract w had_pool
advance w (pool_delete_enter given) a = pool_load w given
advance w pool_stop a = pool_tell w
advance w pool_join a = pool_end w

abbrev pub new_world : ℕ → World
new_world max_threads = record {
  tasks = [];
  queue = [];
  threads = 0;
  max_threads = max_threads;
  added = 0;
  subtracted = 0;
  stopping = false;
  active = [];
}

-- The pool that is made, or the error; `given` says that the pointer for the result is not null.
unfoldable pub thread_pool_new : ℤ → Bool → Option World
thread_pool_new (negsuc k) given = none
thread_pool_new (pos n) false = none
thread_pool_new (pos n) true =
    if n == 0 then none else if ltb max_threads_limit n then none else some (new_world n)

abbrev pub new_task : Task
new_task = record { pool = false; state = new; detached = false }

-- `thread_task_new`, with the address of the task.
unfoldable pub thread_task_new : World → World × ℕ
thread_task_new w = (record w { tasks = w.tasks ++ some new_task ∷ [] }, length w.tasks)

abbrev in_state : Option Task → (TaskState → Bool) → Option Bool
in_state none test = none
in_state (some k) test = some (test k.state)

-- `none` where the task was deleted.
unfoldable pub thread_task_is_finished : World → Option ℕ → Option Bool
thread_task_is_finished w none = some false
thread_task_is_finished w (some t) =
    in_state (task_at w t) (λ s. elim s [ joined ↦ true | _ ↦ false ])

unfoldable pub thread_task_is_running : World → Option ℕ → Option Bool
thread_task_is_running w none = some false
thread_task_is_running w (some t) =
    in_state (task_at w t) (λ s. elim s [ running ↦ true | _ ↦ false ])
