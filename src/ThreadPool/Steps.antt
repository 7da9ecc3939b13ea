-- ===== src/ThreadPool/Steps.antt =====
-- Threads that use the pool, in any interleaving of the steps of their calls.
pub mod Reached
pub mod Workers
pub mod Delete
pub mod Sleepers
pub mod Bounds
use system_prog.Common.{true, some, List, ◌∷◌, ◌++◌, ◌≡◌, ℤ}
use system_prog.ThreadPool.Balance.Given.{Allowed}
use system_prog.ThreadPool.{
  Code, At, World, Answers, goes, returns, advance, thread_pool_new, thread_task_new,
}
use system_prog.ThreadPool.Claims.{MayBegin}

-- A thread calls a function, by the rules on the use of tasks (`MayBegin`); or one of the active
-- threads makes its next step, in a world where the others stay where they are, and goes on or
-- returns; or a task is made. A timed join comes to no task that is joined already (`Allowed`).
pub data Step (w : World) : World → Type 0 where
  begin : (p : At) → MayBegin w p → Step w (record w { active = p ∷ w.active })
  proceed :
      (before later : List At) (p q : At) (answers : Answers) (v : World)
      → w.active ≡ before ++ p ∷ later
      → Allowed w p
      → advance (record w { active = before ++ later }) p answers ≡ goes v q
      → Step w (record v { active = q ∷ v.active })
  finish :
      (before later : List At) (p : At) (answers : Answers) (v : World) (code : Code)
      → w.active ≡ before ++ p ∷ later
      → Allowed w p
      → advance (record w { active = before ++ later }) p answers ≡ returns v code
      → Step w v
  make_task : Step w (thread_task_new w).0

pub data Reach : World → Type 0 where
  start : {w : World} (thread_count : ℤ) → thread_pool_new thread_count true ≡ some w → Reach w
  step : {w v : World} → Reach w → Step w v → Reach v
