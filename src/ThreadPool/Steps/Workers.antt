-- ===== src/ThreadPool/Steps/Workers.antt =====
-- Nobody who has a task to run or to delete finds it deleted.
use system_prog.Common.{
  ℕ, ◌≤◌, ◌⊎◌, inl, inr, not, ◌≡◌, ◌≢◌, refl, ap, Bool, true, false, Option, none, some, List, [],
  ◌∷◌, ◌++◌, if◌then◌else◌, arith,
}
use system_prog.ThreadPool.Balance.{one, weight, pool_in, queued_in, running_in, Inv}
use system_prog.ThreadPool.Balance.Keeps.{with_at, one_self}
use system_prog.ThreadPool.Steps.{Reach}
use system_prog.ThreadPool.{
  Task, At, push_enter, worker_wait, worker_drop, worker_start, worker_run, World, task_at, Outcome,
  Answers, crashes, advance, worker_begin, worker_finish, worker_take, worker_sleep, worker_free,
  delete_free, detach_drop, detach_free, is_worker, worker_delete, worker_subtract, free_task,
  detach_subtract, is_busy,
}
use system_prog.ThreadPool.Steps.Reached.{Good, taken-Good, Reach-Good}
use system_prog.ThreadPool.Claims.{finished_state, finished_in, idle_in}

-- The places in the loop of a worker, and those of a call behind the check that lets it delete.
abbrev pub has_task : At → Bool
has_task (delete_free t) = true
has_task (detach_drop t) = true
has_task (detach_free t) = true
has_task p = is_worker p

pub lives_queued :
    (w : World) (t : ℕ) (o : Option Task)
    → task_at w t ≡ o
    → Inv (with_at w (worker_start t))
    → o ≢ none
lives_queued w t none at h =
    λ e. absurd (omega (arith, h.queued_once t, ap queued_in at, one_self t))
lives_queued w t (some k) at h = λ e. cc

pub lives_running :
    (w : World) (t : ℕ) (o : Option Task)
    → task_at w t ≡ o
    → Inv (with_at w (worker_run t))
    → o ≢ none
lives_running w t none at h =
    λ e. absurd (omega (arith, h.running_once t, ap running_in at, one_self t))
lives_running w t (some k) at h = λ e. cc

begin-ne-crashes : (w : World) (t : ℕ) (o : Option Task) → o ≢ none → worker_begin w t o ≢ crashes
unfolding worker_begin
begin-ne-crashes w t none n = absurd (n refl)
begin-ne-crashes w t (some k) n = λ e. cc

if-ne-crashes :
    (b : Bool) (x y : Outcome) → x ≢ crashes → y ≢ crashes → (if b then x else y) ≢ crashes
if-ne-crashes true x y p q = p
if-ne-crashes false x y p q = q

finish-ne-crashes : (w : World) (t : ℕ) (o : Option Task) → o ≢ none → worker_finish w t o ≢ crashes
unfolding worker_finish
finish-ne-crashes w t none n = absurd (n refl)
finish-ne-crashes w t (some k) n = λ e. cc

delete-ne-crashes :
    (w : World) (t : ℕ) (b : Bool) (o : Option Task)
    → 1 ≤ finished_in o
    → worker_delete w t b o ≢ crashes
unfolding worker_delete
delete-ne-crashes w t b none n = absurd (omega arith)
delete-ne-crashes w t b (some k) n = λ e. cc

free-ne-crashes :
    (w : World) (t : ℕ) (o : Option Task)
    → (1 ≤ finished_in o) ⊎ (1 ≤ idle_in o)
    → free_task w t o ≢ crashes
unfolding free_task
free-ne-crashes w t none n = ground arith
free-ne-crashes w t (some k) n = λ e. cc

-- A task that has ended and was not joined knows its pool.
ended_pool :
    (k : Task) → 1 ≤ finished_state k.state → one (is_busy k.state) ≤ one k.pool → k.pool ≡ true
ended_pool k f b = ground arith

subtract-ne-crashes :
    (w : World) (t : ℕ) (o : Option Task)
    → 1 ≤ finished_in o
    → weight o ≤ pool_in o
    → detach_subtract w t o ≢ crashes
unfolding detach_subtract
subtract-ne-crashes w t none f b = absurd (omega arith)
subtract-ne-crashes w t (some k) f b = rw (ended_pool k f b) (λ e. cc)

drop-ne-crashes : (w : World) (b : Bool) → one (not b) ≡ 0 → worker_subtract w b ≢ crashes
drop-ne-crashes w true n = λ e. cc
drop-ne-crashes w false n = absurd (omega arith)

take-ne-crashes : (w : World) (queue : List ℕ) → worker_take w queue ≢ crashes
unfolding worker_take
take-ne-crashes w [] = if-ne-crashes w.stopping _ _ (λ e. cc) (λ e. cc)
take-ne-crashes w (t ∷ queue) = λ e. cc

step-ne-crashes :
    (w : World) (p : At) (a : Answers)
    → has_task p ≡ true
    → Good (with_at w p)
    → advance w p a ≢ crashes
unfolding advance
step-ne-crashes w worker_wait a e h = take-ne-crashes w w.queue
step-ne-crashes w worker_sleep a e h = if-ne-crashes a.spurious _ _ (λ c. cc) (λ c. cc)
step-ne-crashes w (worker_start t) a e h =
    begin-ne-crashes w t (task_at w t) (lives_queued w t (task_at w t) refl h.balance)
step-ne-crashes w (worker_run t) a e h =
    finish-ne-crashes w t (task_at w t) (lives_running w t (task_at w t) refl h.balance)
step-ne-crashes w (worker_free t b) a e h =
    delete-ne-crashes w t b (task_at w t) (omega (arith, (h.owned.fits t).released, one_self t))
step-ne-crashes w (worker_drop b) a e h = drop-ne-crashes w b (omega (arith, h.owned.known))
step-ne-crashes w (delete_free t) a e h =
    free-ne-crashes w t (task_at w t) (inr (omega (arith, (h.owned.fits t).idle, one_self t)))
step-ne-crashes w (detach_drop t) a e h =
    subtract-ne-crashes w t (task_at w t) (omega (arith, (h.owned.fits t).dropped, one_self t))
      (h.balance.pooled t)
step-ne-crashes w (detach_free t) a e h =
    free-ne-crashes w t (task_at w t) (inl (omega (arith, (h.owned.fits t).dropped, one_self t)))
step-ne-crashes w (push_enter task) a e h = cc
step-ne-crashes w _ a e h = cc

-- In every world that is reached by the steps of `Step`, the next step of a worker, of a call of
-- `thread_task_delete` behind its check and of a call of `thread_task_detach` behind its check uses
-- no task that was deleted and follows no null pointer, whatever the calls of the other threads
-- have been.
pub advance-ne-crashes :
    {w : World} (before later : List At) (p : At) (answers : Answers)
    → Reach w
    → w.active ≡ before ++ p ∷ later
    → has_task p ≡ true
    → advance (record w { active = before ++ later }) p answers ≢ crashes
advance-ne-crashes {w} before later p answers r e holds =
    step-ne-crashes (record w { active = before ++ later }) p answers holds
      (taken-Good w before later p e (Reach-Good r))
