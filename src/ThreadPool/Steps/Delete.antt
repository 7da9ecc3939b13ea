-- ===== src/ThreadPool/Steps/Delete.antt =====
-- The pool is deleted only when nothing is left to do.
use system_prog.Common.{
  ℕ, ◌+◌, ◌≤◌, ◌≡◌, ◌≢◌, ◌++◌, refl, ap, Bool, true, false, Option, none, some, List, [], ◌∷◌, ◌==◌,
  if◌then◌else◌, total, arith,
}
use system_prog.ThreadPool.Balance.{
  one, refunds, task_at-put_ne, total-put, weight, queued_in, running_in, owes, brings, named,
  holders,
}
use system_prog.ThreadPool.Balance.Keeps.{one_self}
use system_prog.ThreadPool.Steps.{Reach}
use system_prog.ThreadPool.{Task, World, task_at}
use system_prog.ThreadPool.Steps.Reached.{Good, Reach-Good}
use system_prog.ThreadPool.Claims.{detacher, mark, finished_in}
use system_prog.ThreadPool.{
  At, detach_free, push_undo, pool_delete_enter, pool_stop, goes, returns, has_tasks, put_task,
  advance, Answers,
}
use mathlib.Core.Path.{subst}
use native.Mathlib.Decide.{ℕ_discrete}
use system_prog.Common.{==_iff}

-- Whether the thread has subtracted task `t` and goes on to delete it.
abbrev pub settles : ℕ → At → ℕ
settles t (detach_free s) = one (s == t)
settles t _ = 0

settles-le-mark : (t : ℕ) (p : At) → settles t p ≤ mark detacher t p
settles-le-mark t (detach_free s) = omega arith
settles-le-mark t _ = omega arith

settles-le : (t : ℕ) (ps : List At) → total (settles t) ps ≤ total (mark detacher t) ps
settles-le t [] = omega arith
settles-le t (p ∷ ps) = omega (arith, settles-le-mark t p, settles-le t ps)

weight-le : (o : Option Task) → weight o ≤ 1
weight-le none = omega arith
weight-le (some k) = ground arith

finished-le-weight : (o : Option Task) → finished_in o ≤ weight o
finished-le-weight none = omega arith
finished-le-weight (some k) = ground arith

-- With one task deleted.
without :
    (w : World) (t : ℕ) (n : ℕ → ℕ)
    → n t ≡ 0
    → ((s : ℕ) → t ≢ s → n s ≤ weight (task_at w s))
    → (o : Option Task) → task_at w t ≡ o
    → (v : World) × ((s : ℕ) → n s ≤ weight (task_at v s))
      × (total weight v.tasks + weight o ≡ total weight w.tasks)
without w t n z le none at = (
  w,
  λ s. elim (ℕ_discrete t s) [
    | yes e ↦ subst (λ r. n r ≤ weight (task_at w r)) e (omega (arith, z))
    | no ne ↦ le s ne
  ],
  omega arith,
)
without w t n z le (some k) at = (
  put_task w t none,
  λ s. elim (ℕ_discrete t s) [
    | yes e ↦ subst (λ r. n r ≤ weight (task_at (put_task w t none) r)) e (omega (arith, z))
    | no ne ↦ omega (arith, le s ne, ap weight (task_at-put_ne w t s none ne))
  ],
  omega (arith, total-put w t none at),
)

-- No more is subtracted ahead than there are tasks for it.
refunds-le :
    (ps : List At) (w : World)
    → ((t : ℕ) → total (settles t) ps ≤ weight (task_at w t))
    → total refunds ps ≤ total weight w.tasks
refunds-le [] w h = omega arith
refunds-le (detach_free t ∷ ps) w h =
    let (v, le, e) =
      without w t (λ s. total (settles s) ps)
        (omega (arith, h t, weight-le (task_at w t), one_self t)) (λ s ne. omega (arith, h s))
        (task_at w t) refl in
    omega (arith, refunds-le ps v le, e, h t, one_self t)
refunds-le (push_undo ∷ ps) w h = omega (arith, refunds-le ps w (λ t. omega (arith, h t)))
refunds-le (_ ∷ ps) w h = omega (arith, refunds-le ps w (λ t. omega (arith, h t)))

no_holders :
    (w : World) (queue : List ℕ) → w.queue ≡ queue → ((t : ℕ) → holders w t ≡ 0) → queue ≡ []
no_holders w [] e h = refl
no_holders w (t ∷ queue) e h = absurd (omega (arith, h t, ap (total (named t)) e, one_self t))

load_if :
    (w v : World) (b : Bool)
    → (if b then goes w pool_stop else returns w has_tasks) ≡ goes v pool_stop
    → b ≡ true
load_if w v true e = refl
load_if w v false e = cc

module _ {w : World} (h : Good w) (even : w.added ≡ w.subtracted) where
  settles-le-weight : (t : ℕ) → total (settles t) w.active ≤ weight (task_at w t)
  settles-le-weight t =
      omega
        (arith, settles-le t w.active, (h.owned.fits t).dropped, finished-le-weight (task_at w t))

  owes_nothing : total owes w.active ≡ 0
  owes_nothing = omega (arith, h.balance.counted, even, refunds-le w.active w settles-le-weight)

  settled : (t : ℕ) → weight (task_at w t) ≡ total (settles t) w.active
  settled t = elim (ℕ_discrete (total (settles t) w.active) 0) [
    | yes z ↦
        let (v, le, e) =
          without w t (λ s. total (settles s) w.active) z (λ s ne. settles-le-weight s)
            (task_at w t) refl in
        omega (arith, z, h.balance.counted, even, refunds-le w.active v le, e)
    | no ne ↦ omega (arith, ne, settles-le-weight t, weight-le (task_at w t))
  ]

  not_waiting : (t : ℕ) → queued_in (task_at w t) + running_in (task_at w t) ≡ 0
  not_waiting t =
      by_fit (task_at w t)
        (omega (arith, settled t, settles-le t w.active, (h.owned.fits t).dropped))
    where
      by_fit : (o : Option Task) → weight o ≤ finished_in o → queued_in o + running_in o ≡ 0
      by_fit none l = omega arith
      by_fit (some k) l = ground arith

-- Where the load of the counter by `thread_pool_delete` lets it go on to delete the pool, in a world
-- that is reached by the steps of `Step`, then at the time of that load the queue is empty, no
-- thread is on its way to put a task in or to run it, none owes the counter a step, and no task is
-- queued, running, or finished and not joined, but finished ones that calls of `thread_task_detach`
-- have subtracted and go on to delete.
pub thread_pool_delete_lem :
    {w v : World} (t : ℕ) (before later : List At) (answers : Answers)
    → Reach w
    → w.active ≡ before ++ pool_delete_enter true ∷ later
    → advance (record w { active = before ++ later }) (pool_delete_enter true) answers
      ≡ goes v pool_stop
    → (w.queue ≡ [])
      × (total (brings t) w.active ≡ 0)
      × (total owes w.active ≡ 0)
      × (queued_in (task_at w t) + running_in (task_at w t) ≡ 0)
      × (weight (task_at w t) ≡ total (settles t) w.active)
unfolding advance
thread_pool_delete_lem {w} {v} t before later a r e g =
    let h = Reach-Good r in
    let even =
      (==_iff w.added w.subtracted).0
        (load_if (record w { active = before ++ later }) v (w.added == w.subtracted) g) in
    let idle : (s : ℕ) → holders w s ≡ 0 =
      λ s. omega (arith, h.balance.queued_once s, not_waiting h even s) in
    (
      no_holders w w.queue refl idle,
      omega (arith, idle t),
      owes_nothing h even,
      not_waiting h even t,
      settled h even t,
    )
