-- ===== src/ThreadPool/Steps/Sleepers.antt =====
-- Nobody sleeps on a condition that a broadcast should have ended.
pub mod Calls
pub mod Advance
pub mod Reached
use mathlib.Core.Path.{subst}
use native.Mathlib.Decide.{ℕ_discrete}
use system_prog.Common.{
  ℕ, zero, suc, ◌+◌, ◌≤◌, ◌≡◌, ◌≢◌, ◌⊎◌, ◌∙◌, refl, sym, ap, Bool, true, false, Option, none, some,
  List, [], ◌∷◌, ◌++◌, ◌==◌, ◌||◌, leb, length, if◌then◌else◌, if_both, total, total-append, arith,
  Bool-cases, inl, inr,
}
use system_prog.ThreadPool.Balance.{one, task_at-put_self, task_at-put_ne}
use system_prog.ThreadPool.Balance.Keeps.{with_at, one_self, one-ne}
use system_prog.ThreadPool.{
  TaskState, new, queued, running, finished, joined, Task, At, push_enter, join_enter,
  timed_join_enter, delete_enter, detach_enter, push_lock, push_queue, join_wait, join_sleep,
  timed_join_wait, timed_join_sleep, delete_free, detach_drop, detach_free, push_undo, worker_wait,
  worker_sleep, join_drop, worker_drop, worker_start, worker_run, worker_free, pool_delete_enter,
  pool_stop, pool_join, World, task_at, put_task, is_busy, Answers, Outcome, goes, returns, waits,
  crashes, max_tasks, wake_worker, wake_join, each, workers, spawns, push_reserve, push_mark,
  push_append, join_loop, join_pushed, join_first, join_again, timed_join_end, timed_join_pushed,
  timed_join_first, timed_join_loop, timed_join_again, delete_task, free_task, detach_pushed,
  detach_task, detach_subtract, worker_take, worker_begin, worker_finish, worker_delete, advance,
  any_worker,
}

-- A worker that sleeps, and a join of task `t` that does.
abbrev pub sleeps : At → ℕ
sleeps worker_sleep = 1
sleeps _ = 0

abbrev pub dozes : ℕ → At → ℕ
dozes t (join_sleep s) = one (s == t)
dozes t (timed_join_sleep s) = one (s == t)
dozes t _ = 0

-- Whether a join of the task has no more to wait for.
abbrev pub over_state : TaskState → ℕ
over_state finished = 1
over_state joined = 1
over_state _ = 0

abbrev pub over_in : Option Task → ℕ
over_in none = 0
over_in (some k) = over_state k.state

pub record Awake (w : World) : Type 0 where
  pub workers_awake : (total sleeps w.active ≡ 0) ⊎ ((w.queue ≡ []) × (w.stopping ≡ false))
  pub joins_awake : (t : ℕ) → (total (dozes t) w.active ≡ 0) ⊎ (over_in (task_at w t) ≡ 0)

abbrev pub After : Outcome → Type 0
After (goes w q) = Awake (with_at w q)
After (returns w code) = Awake w
After waits = Unit
After crashes = Unit

pub either : (x y : Outcome) (b : Bool) → After x → After y → After (if b then x else y)
either x y b = if_both After b x y

fewer : (n m o o' : ℕ) → m ≤ n → o' ≤ o → (n ≡ 0) ⊎ (o ≡ 0) → (m ≡ 0) ⊎ (o' ≡ 0)
fewer n m o o' a b h = ground arith

over-put :
    (w : World) (t : ℕ) {k : Task} (o : Option Task)
    → task_at w t ≡ some k
    → over_in o ≤ over_in (some k)
    → (s : ℕ) → over_in (task_at (put_task w t o) s) ≤ over_in (task_at w s)
over-put w t {k} o at le s = elim (ℕ_discrete t s) [
  | yes e ↦
      subst (λ r. over_in (task_at (put_task w t o) r) ≤ over_in (task_at w r)) e
        (omega (arith, ap over_in (task_at-put_self w t o at), ap over_in at, le))
  | no ne ↦ omega (arith, ap over_in (task_at-put_ne w t s o ne))
]

module _ (w : World) {p : At} (h : Awake (with_at w p)) where
  -- Nobody lies down, no task ends, and the queue stays.
  pub keeps :
      (v : World)
      → ((s : ℕ) → over_in (task_at v s) ≤ over_in (task_at w s))
      → ((s : ℕ) → total (dozes s) v.active ≤ total (dozes s) w.active)
      → total sleeps v.active ≤ total sleeps w.active
      → v.queue ≡ w.queue
      → v.stopping ≡ w.stopping
      → Awake v
  keeps v over doze sleep queue stopping = record {
    workers_awake = elim h.workers_awake [
      | inl z ↦ inl (omega (arith, z, sleep))
      | inr (e, f) ↦ inr (queue ∙ e, stopping ∙ f)
    ];
    joins_awake = λ s.
        fewer (dozes s p + total (dozes s) w.active) (total (dozes s) v.active)
          (over_in (task_at w s)) (over_in (task_at v s)) (omega (arith, doze s)) (over s)
          (h.joins_awake s);
  }

  -- So where only the thread moves on, or ends, and perhaps a task changes.
  pub ends : Awake w
  ends = keeps w (λ s. omega arith) (λ s. omega arith) (omega arith) refl refl

  pub rises : (q : At) → sleeps q ≡ 0 → ((s : ℕ) → dozes s q ≡ 0) → Awake (with_at w q)
  rises q n d =
      keeps (with_at w q) (λ s. omega arith) (λ s. omega (arith, d s)) (omega (arith, n)) refl refl

  pub puts_end :
      (t : ℕ) (k : Task) (o : Option Task)
      → task_at w t ≡ some k
      → over_in o ≤ over_in (some k)
      → Awake (put_task w t o)
  puts_end t k o at le =
      keeps (put_task w t o) (over-put w t o at le) (λ s. omega arith) (omega arith) refl refl

  pub puts :
      (t : ℕ) (k : Task) (o : Option Task) (q : At)
      → task_at w t ≡ some k
      → over_in o ≤ over_in (some k)
      → sleeps q ≡ 0
      → ((s : ℕ) → dozes s q ≡ 0)
      → Awake (with_at (put_task w t o) q)
  puts t k o q at le n d =
      keeps (with_at (put_task w t o) q) (over-put w t o at le) (λ s. omega (arith, d s))
        (omega (arith, n)) refl refl

  -- A join lies down.
  pub lies_down :
      (t : ℕ) (q : At)
      → over_in (task_at w t) ≡ 0
      → sleeps q ≡ 0
      → ((s : ℕ) → dozes s q ≡ one (t == s))
      → Awake (with_at w q)
  lies_down t q z n d = record {
    workers_awake = elim h.workers_awake [ inl e ↦ inl (omega (arith, e, n)) | inr e ↦ inr e ];
    joins_awake = λ s. elim (ℕ_discrete t s) [
      | yes e ↦ inr (subst (λ r. over_in (task_at w r) ≡ 0) e z)
      | no ne ↦
          fewer (dozes s p + total (dozes s) w.active) (dozes s q + total (dozes s) w.active)
            (over_in (task_at w s)) (over_in (task_at w s)) (omega (arith, d s, one-ne t s ne))
            (omega arith) (h.joins_awake s)
    ];
  }

  -- All workers are woken up.
  pub wakes :
      (v : World)
      → ((s : ℕ) → task_at v s ≡ task_at w s)
      → ((s : ℕ) → total (dozes s) v.active ≡ total (dozes s) w.active)
      → total sleeps v.active ≡ 0
      → Awake v
  wakes v same doze none_asleep = record {
    workers_awake = inl none_asleep;
    joins_awake = λ s.
        fewer (dozes s p + total (dozes s) w.active) (total (dozes s) v.active)
          (over_in (task_at w s)) (over_in (task_at v s)) (omega (arith, doze s))
          (omega (arith, ap over_in (same s))) (h.joins_awake s);
  }
