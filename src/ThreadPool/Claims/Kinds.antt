-- ===== src/ThreadPool/Claims/Kinds.antt =====
-- How a task and the threads that have to do with it change together.
use system_prog.Common.{ℕ, ◌≤◌, ◌≡◌, Option, none, arith}
use system_prog.ThreadPool.Claims.{
  Kind, user, claimer, deleter, detacher, releaser, other, finished_in, idle_in, detached_in,
  claims, Fit, more,
}
use system_prog.ThreadPool.{Task}

module _ (n : Kind → ℕ) where
  -- A thread has done with the task.
  pub less-Fit : {o : Option Task} (x : Kind) → Fit o (more x n) → Fit o n
  less-Fit user h = ground arith
  less-Fit _ h = ground arith

  pub other-Fit : {o : Option Task} → Fit o n → Fit o (more other n)
  other-Fit h = ground arith

  -- A call that uses the task may do with it what it likes, but detach it.
  pub user-Fit :
      {o o' : Option Task}
      → detached_in o' ≡ detached_in o
      → Fit o (more user n)
      → Fit o' (more user n)
  user-Fit e h = ground arith

  -- So may a worker that has a task which nobody may delete.
  pub worker-Fit :
      {o o' : Option Task}
      → detached_in o' ≡ detached_in o
      → finished_in o ≡ 0
      → idle_in o ≡ 0
      → Fit o n
      → Fit o' n
  worker-Fit e f g h = ground arith

  pub release-Fit :
      {o o' : Option Task}
      → detached_in o ≡ 1
      → detached_in o' ≡ 1
      → finished_in o ≡ 0
      → finished_in o' ≡ 1
      → idle_in o ≡ 0
      → Fit o n
      → Fit o' (more releaser n)
  release-Fit e d f g i h = ground arith

  -- A check lets the call go on to delete the task.
  pub delete-Fit :
      {o : Option Task} → idle_in o ≡ 1 → Fit o (more claimer n) → Fit o (more deleter n)
  delete-Fit i h = ground arith

  pub drop-Fit :
      {o : Option Task} → finished_in o ≡ 1 → Fit o (more claimer n) → Fit o (more detacher n)
  drop-Fit f h = ground arith

  pub detach-Fit :
      {o o' : Option Task}
      → finished_in o' ≡ finished_in o
      → idle_in o' ≡ idle_in o
      → detached_in o' ≡ 1
      → Fit o (more claimer n)
      → Fit o' n
  detach-Fit f i d h = ground arith

  -- The task is deleted.
  pub deleted-Fit : {o : Option Task} → Fit o (more deleter n) → Fit none n
  deleted-Fit h = ground arith

  pub dropped-Fit : {o : Option Task} → Fit o (more detacher n) → Fit none n
  dropped-Fit h = ground arith

  pub released-Fit : {o : Option Task} → detached_in o ≤ 1 → Fit o (more releaser n) → Fit none n
  released-Fit b h = ground arith

  -- A call begins.
  pub use-Fit : {o : Option Task} → claims o n ≡ 0 → Fit o n → Fit o (more user n)
  use-Fit e h = ground arith

  pub claim-Fit : {o : Option Task} → claims o n ≡ 0 → n user ≡ 0 → Fit o n → Fit o (more claimer n)
  claim-Fit e u h = ground arith
