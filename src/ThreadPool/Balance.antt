-- ===== src/ThreadPool/Balance.antt =====
-- The counter against the tasks, and who has which task: the invariant of the pool, and how it
-- changes with one task.
pub mod Keeps
pub mod Wakes
pub mod Pushes
pub mod Given
pub mod Advance
use mathlib.Core.Path.{subst}
use native.Mathlib.Decide.{ℕ_discrete}
use system_prog.Common.{
  ℕ, ◌+◌, ◌≤◌, ◌≡◌, ◌≢◌, ◌∙◌, refl, sym, ap, Bool, true, false, Option, none, some, List, [], ◌∷◌,
  ◌++◌, ◌==◌, if◌then◌else◌, get_elem?, set, get_elem?-set_self, get_elem?-set_ne, total,
  total-append, total-set, arith,
}
use system_prog.ThreadPool.{
  TaskState, new, queued, running, finished, joined, Task, At, push_lock, push_queue, push_undo,
  worker_drop, join_drop, detach_free, worker_start, worker_run, World, flat, task_at, put_task,
  is_busy,
}

abbrev pub one : Bool → ℕ
one b = if b then 1 else 0

-- What a task counts for in the counter of the pool.
abbrev pub weight : Option Task → ℕ
weight none = 0
weight (some k) = one (is_busy k.state)

abbrev pub queued_state : TaskState → ℕ
queued_state queued = 1
queued_state _ = 0

abbrev pub running_state : TaskState → ℕ
running_state running = 1
running_state _ = 0

abbrev pub queued_in : Option Task → ℕ
queued_in none = 0
queued_in (some k) = queued_state k.state

abbrev pub running_in : Option Task → ℕ
running_in none = 0
running_in (some k) = running_state k.state

abbrev pub pool_in : Option Task → ℕ
pool_in none = 0
pool_in (some k) = one k.pool

-- Whether a thread has a step to make that subtracts, or adds the task that it has counted.
abbrev pub owes : At → ℕ
owes (push_lock t) = 1
owes push_undo = 1
owes (join_drop had_pool) = one had_pool
owes (worker_drop had_pool) = 1
owes _ = 0

-- Whether the thread has subtracted a task that it goes on to delete.
abbrev pub refunds : At → ℕ
refunds (detach_free t) = 1
refunds _ = 0

-- Whether the thread has task `t` to put into the queue, or has taken it out to run it.
abbrev pub brings : ℕ → At → ℕ
brings t (push_queue s) = one (s == t)
brings t (worker_start s) = one (s == t)
brings t _ = 0

abbrev pub runs : ℕ → At → ℕ
runs t (worker_run s) = one (s == t)
runs t _ = 0

abbrev pub named : ℕ → ℕ → ℕ
named t s = one (s == t)

abbrev pub holders : World → ℕ → ℕ
holders w t = total (named t) w.queue + total (brings t) w.active

abbrev pub runners : World → ℕ → ℕ
runners w t = total (runs t) w.active

-- The counter is the tasks between push and join and what threads still owe it, less what they have
-- subtracted before they delete a task; a queued task stands
-- once in the queue or in the hands of one thread, and any other not at all; a running task is run by
-- one worker; and the tasks that are counted know their pool.
pub record Inv (w : World) : Type 0 where
  pub counted :
      w.added + total refunds w.active ≡ w.subtracted + total weight w.tasks + total owes w.active
  pub queued_once : (t : ℕ) → queued_in (task_at w t) ≡ holders w t
  pub running_once : (t : ℕ) → running_in (task_at w t) ≡ runners w t
  pub pooled : (t : ℕ) → weight (task_at w t) ≤ pool_in (task_at w t)

flat-some : (o : Option (Option Task)) (k : Task) → flat o ≡ some k → o ≡ some (some k)
flat-some none k h = cc
flat-some (some o) k h = ap some h

pub task_at-put_self :
    (w : World) (t : ℕ) (o : Option Task) {k : Task}
    → task_at w t ≡ some k
    → task_at (put_task w t o) t ≡ o
task_at-put_self w t o {k} h =
    ap flat (get_elem?-set_self w.tasks t o (flat-some (get_elem? w.tasks t) k h))

pub task_at-put_ne :
    (w : World) (t s : ℕ) (o : Option Task) → t ≢ s → task_at (put_task w t o) s ≡ task_at w s
task_at-put_ne w t s o h = ap flat (get_elem?-set_ne w.tasks t s o h)

pub total-put :
    (w : World) (t : ℕ) (o : Option Task) {k : Task}
    → task_at w t ≡ some k
    → total weight (put_task w t o).tasks + weight (some k) ≡ total weight w.tasks + weight o
total-put w t o {k} h = total-set weight w.tasks t o (flat-some (get_elem? w.tasks t) k h)

-- What is enough when task `t` changes from `k` to `o` and the rest of the world to that of `v`.
pub record Changes (w : World) (t : ℕ) (k : Task) (o : Option Task) (v : World) : Type 0 where
  pub tasks : v.tasks ≡ set w.tasks t o
  pub counter :
      v.added + w.subtracted + weight (some k) + total owes w.active + total refunds v.active
      ≡ w.added + v.subtracted + weight o + total owes v.active + total refunds w.active
  pub held : queued_in o + holders w t ≡ queued_in (some k) + holders v t
  pub held_else : (s : ℕ) → t ≢ s → holders v s ≡ holders w s
  pub run : running_in o + runners w t ≡ running_in (some k) + runners v t
  pub run_else : (s : ℕ) → t ≢ s → runners v s ≡ runners w s
  pub knows : weight o ≤ pool_in o

module _ {w : World} {t : ℕ} {k : Task} {o : Option Task} {v : World} (c : Changes w t k o v)
    (at : task_at w t ≡ some k) (h : Inv w) where
  every :
      (P : ℕ → Option Task → Type 0)
      → P t o
      → ((s : ℕ) → t ≢ s → P s (task_at w s))
      → (s : ℕ) → P s (task_at v s)
  every P here others s =
      let moved : task_at v s ≡ task_at (put_task w t o) s =
        ap (λ ts. flat (get_elem? ts s)) c.tasks in
      subst (P s) (sym moved) (elim (ℕ_discrete t s) [
        | yes e ↦
            subst (λ r. P r (task_at (put_task w t o) r)) e
              (subst (P t) (sym (task_at-put_self w t o at)) here)
        | no ne ↦ subst (P s) (sym (task_at-put_ne w t s o ne)) (others s ne)
      ])

  pub Changes-Inv : Inv v
  Changes-Inv = record {
    counted = omega (arith, h.counted, c.counter, total-put w t o at, ap (total weight) c.tasks);
    queued_once =
        every (λ s r. queued_in r ≡ holders v s)
          (omega (arith, c.held, h.queued_once t, ap queued_in at))
          (λ s ne. h.queued_once s ∙ sym (c.held_else s ne));
    running_once =
        every (λ s r. running_in r ≡ runners v s)
          (omega (arith, c.run, h.running_once t, ap running_in at))
          (λ s ne. h.running_once s ∙ sym (c.run_else s ne));
    pooled = every (λ s r. weight r ≤ pool_in r) c.knows (λ s ne. h.pooled s);
  }
