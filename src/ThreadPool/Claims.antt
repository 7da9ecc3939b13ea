-- ===== src/ThreadPool/Claims.antt =====
-- Who may still use a task, and who is about to delete it: the invariant that the rules of
-- 4/thread_pool.h on the use of tasks give.
pub mod Moves
pub mod Kinds
pub mod Entries
pub mod Calls
pub mod Workers
pub mod Advance
use mathlib.Core.Path.{fun_ext, subst}
use system_prog.Common.{
  ℕ, ◌+◌, ◌≤◌, ◌≡◌, ◌≢◌, ◌⊎◌, refl, Bool, true, false, Option, none, some, List, ◌∷◌, ◌==◌,
  if◌then◌else◌, total, arith, not,
}
use system_prog.ThreadPool.Balance.{one}
use system_prog.ThreadPool.{
  TaskState, finished, joined, Task, At, push_enter, join_enter, timed_join_enter, delete_enter,
  detach_enter, push_lock, push_queue, join_wait, join_sleep, timed_join_wait, timed_join_sleep,
  delete_free, detach_drop, detach_free, worker_drop, worker_free, pool_delete_enter, World,
  task_at, is_busy,
}

-- What a thread has to do with a task: a call that pushes or joins it, a call that has to look
-- whether it may be deleted or detached, one that goes on to delete it, or a worker that does.
pub data Kind : Type 0 where
  user claimer deleter detacher releaser other : Kind

abbrev pub kind_of : At → Kind
kind_of (push_enter (some t)) = user
kind_of (join_enter (some t)) = user
kind_of (timed_join_enter (some t)) = user
kind_of (push_lock t) = user
kind_of (push_queue t) = user
kind_of (join_wait t) = user
kind_of (join_sleep t) = user
kind_of (timed_join_wait t) = user
kind_of (timed_join_sleep t) = user
kind_of (delete_enter (some t)) = claimer
kind_of (detach_enter (some t)) = claimer
kind_of (delete_free t) = deleter
kind_of (detach_drop t) = detacher
kind_of (detach_free t) = detacher
kind_of (worker_free t had_pool) = releaser
kind_of _ = other

-- The task, for those.
abbrev pub task_of : At → ℕ
task_of (push_enter (some t)) = t
task_of (join_enter (some t)) = t
task_of (timed_join_enter (some t)) = t
task_of (push_lock t) = t
task_of (push_queue t) = t
task_of (join_wait t) = t
task_of (join_sleep t) = t
task_of (timed_join_wait t) = t
task_of (timed_join_sleep t) = t
task_of (delete_enter (some t)) = t
task_of (detach_enter (some t)) = t
task_of (delete_free t) = t
task_of (detach_drop t) = t
task_of (detach_free t) = t
task_of (worker_free t had_pool) = t
task_of _ = 0

abbrev pub is_kind : Kind → Kind → Bool
is_kind user user = true
is_kind claimer claimer = true
is_kind deleter deleter = true
is_kind detacher detacher = true
is_kind releaser releaser = true
is_kind _ _ = false

-- Whether the thread has to do with task `t` in this way.
abbrev pub mark : Kind → ℕ → At → ℕ
mark c t p = if is_kind c (kind_of p) then one (task_of p == t) else 0

-- How many threads have.
abbrev pub marks : World → ℕ → Kind → ℕ
marks w t c = total (mark c t) w.active

-- A worker that has read a null pointer for the pool of its task.
abbrev pub nulls : At → ℕ
nulls (worker_free t had_pool) = one (not had_pool)
nulls (worker_drop had_pool) = one (not had_pool)
nulls _ = 0

abbrev pub finished_state : TaskState → ℕ
finished_state finished = 1
finished_state _ = 0

abbrev pub finished_in : Option Task → ℕ
finished_in none = 0
finished_in (some k) = finished_state k.state

abbrev pub idle_in : Option Task → ℕ
idle_in none = 0
idle_in (some k) = one (not (is_busy k.state))

abbrev pub detached_in : Option Task → ℕ
detached_in none = 0
detached_in (some k) = one k.detached

-- Those who own a task alone: the calls that delete or detach it, or nobody but its worker.
abbrev pub claims : Option Task → (Kind → ℕ) → ℕ
claims o n = n claimer + n deleter + n detacher + detached_in o

-- A task is used by calls or is claimed by one; a worker releases only a detached task that has
-- ended, and calls delete only tasks that nobody has to run.
pub record Fit (o : Option Task) (n : Kind → ℕ) : Type 0 where
  pub apart : (n user ≡ 0) ⊎ (claims o n ≡ 0)
  pub once : claims o n ≤ 1
  pub detached : n releaser ≤ detached_in o
  pub released : n releaser ≤ finished_in o
  pub dropped : n detacher ≤ finished_in o
  pub idle : n deleter ≤ idle_in o

pub record Claims (w : World) : Type 0 where
  pub fits : (t : ℕ) → Fit (task_at w t) (marks w t)
  pub known : total nulls w.active ≡ 0

-- The rules of the calls: a task is used by no function once it is detached, deleted or about to
-- be; and a call that deletes or detaches it begins when no other call on it is under way.
abbrev pub Usable : World → ℕ → Type 0
Usable w t = claims (task_at w t) (marks w t) ≡ 0

abbrev pub MayBegin : World → At → Type 0
MayBegin w (push_enter none) = Unit
MayBegin w (push_enter (some t)) = Usable w t
MayBegin w (join_enter none) = Unit
MayBegin w (join_enter (some t)) = Usable w t
MayBegin w (timed_join_enter none) = Unit
MayBegin w (timed_join_enter (some t)) = Usable w t
MayBegin w (delete_enter none) = Unit
MayBegin w (delete_enter (some t)) = Usable w t × (marks w t user ≡ 0)
MayBegin w (detach_enter none) = Unit
MayBegin w (detach_enter (some t)) = Usable w t × (marks w t user ≡ 0)
MayBegin w (pool_delete_enter given) = Unit
MayBegin w _ = ⊥

-- One more thread, of this kind.
abbrev pub more : Kind → (Kind → ℕ) → Kind → ℕ
more x n c = one (is_kind c x) + n c

pub Fit-cong : {o : Option Task} {n m : Kind → ℕ} → ((c : Kind) → n c ≡ m c) → Fit o n → Fit o m
Fit-cong {o} {n} {m} e h = subst (Fit o) (fun_ext e) h
