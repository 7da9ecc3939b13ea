-- ===== src/ThreadPool/Steps/Reached.antt =====
-- What holds in every world that is reached.
use mathlib.Core.Path.{subst}
use system_prog.Common.{
  ℕ, ◌+◌, ◌≡◌, ◌∙◌, refl, sym, ap, true, Option, none, some, List, [], ◌∷◌, ◌++◌, ◌==◌, total,
  total-append, arith, ltb, inl, inr, Bool-cases, ℤ, pos, negsuc,
}
use system_prog.ThreadPool.Balance.{
  weight, queued_in, running_in, pool_in, owes, brings, refunds, runs, named, Inv,
}
use system_prog.ThreadPool.Balance.Advance.{advance-Inv}
use system_prog.ThreadPool.Balance.Keeps.{with_at, After, Same-Inv, Free, free}
use system_prog.ThreadPool.Balance.Given.{Allowed}
use system_prog.ThreadPool.Claims.{Claims, MayBegin}
use system_prog.ThreadPool.Claims.Advance.{advance-Claims}
use system_prog.ThreadPool.Claims.Moves
use system_prog.ThreadPool.Claims.Entries.{
  begin-Claims, taken-Claims, flat-append, make_task-Claims, new_world-Claims,
}
use system_prog.ThreadPool.Steps.{Step, Reach, begin, proceed, finish, make_task, start, step}
use system_prog.ThreadPool.{
  Task, Code, At, push_enter, join_enter, timed_join_enter, delete_enter, detach_enter,
  pool_delete_enter, push_lock, advance, Answers, World, task_at, Outcome, goes, returns, new_world,
  new_task, thread_pool_new, thread_task_new, max_threads_limit,
}

-- A thread is taken out of the others to make a step.
pub taken-Inv :
    (w : World) (before later : List At) (p : At)
    → w.active ≡ before ++ p ∷ later
    → Inv w
    → Inv (with_at (record w { active = before ++ later }) p)
taken-Inv w before later p e h =
    let moved : (g : At → ℕ) → total g w.active ≡ g p + total g (before ++ later) = λ g.
      omega
        (arith, ap (total g) e, total-append g before (p ∷ later), total-append g before later) in
    Same-Inv
      (record {
        tasks = refl;
        counter = omega (arith, moved owes, moved refunds);
        held = λ s. omega (arith, moved (brings s));
        run = λ s. sym (moved (runs s));
      })
      h

-- A call that begins has counted nothing and holds nothing.
MayBegin-Free : (w : World) (p : At) → MayBegin w p → Free p
MayBegin-Free w (push_enter none) e = free refl refl (λ s. refl) (λ s. refl)
MayBegin-Free w (push_enter (some t)) e = free refl refl (λ s. refl) (λ s. refl)
MayBegin-Free w (join_enter none) e = free refl refl (λ s. refl) (λ s. refl)
MayBegin-Free w (join_enter (some t)) e = free refl refl (λ s. refl) (λ s. refl)
MayBegin-Free w (timed_join_enter none) e = free refl refl (λ s. refl) (λ s. refl)
MayBegin-Free w (timed_join_enter (some t)) e = free refl refl (λ s. refl) (λ s. refl)
MayBegin-Free w (delete_enter none) e = free refl refl (λ s. refl) (λ s. refl)
MayBegin-Free w (delete_enter (some t)) e = free refl refl (λ s. refl) (λ s. refl)
MayBegin-Free w (detach_enter none) e = free refl refl (λ s. refl) (λ s. refl)
MayBegin-Free w (detach_enter (some t)) e = free refl refl (λ s. refl) (λ s. refl)
MayBegin-Free w (pool_delete_enter given) e = free refl refl (λ s. refl) (λ s. refl)
MayBegin-Free w (push_lock t) e = absurd e
MayBegin-Free w _ e = absurd e

begin-Inv : (w : World) (p : At) → MayBegin w p → Inv w → Inv (with_at w p)
begin-Inv w p e h =
    let f = MayBegin-Free w p e in
    Same-Inv
      (record {
        tasks = refl;
        counter = omega (arith, f.owed, f.refunded);
        held = λ s. omega (arith, f.brought s);
        run = λ s. omega (arith, f.ran s);
      })
      h

same_at :
    (P : Option Task → ℕ) (w : World) (s : ℕ)
    → P (some new_task) ≡ P none
    → P (task_at (thread_task_new w).0 s) ≡ P (task_at w s)
unfolding thread_task_new
same_at P w s e = elim (flat-append w.tasks (some new_task) s) [
  | inl old ↦ ap P old
  | inr (fresh, absent) ↦ ap P fresh ∙ e ∙ sym (ap P absent)
]

make_task-Inv : (w : World) → Inv w → Inv (thread_task_new w).0
unfolding thread_task_new
make_task-Inv w h = record {
  counted = omega (arith, h.counted, total-append weight w.tasks (some new_task ∷ []));
  queued_once = λ s. same_at queued_in w s refl ∙ h.queued_once s;
  running_once = λ s. same_at running_in w s refl ∙ h.running_once s;
  pooled = λ s. omega (arith, same_at weight w s refl, same_at pool_in w s refl, h.pooled s);
}

-- The invariant, and the claims on the tasks.
pub record Good (w : World) : Type 0 where
  pub balance : Inv w
  pub owned : Claims w

pub taken-Good :
    (w : World) (before later : List At) (p : At)
    → w.active ≡ before ++ p ∷ later
    → Good w
    → Good (with_at (record w { active = before ++ later }) p)
taken-Good w before later p e h = record {
  balance = taken-Inv w before later p e h.balance;
  owned = taken-Claims w before later p e h.owned;
}

both-goes :
    (o : Outcome) (v : World) (q : At) → o ≡ goes v q → After o → Moves.After o → Good (with_at v q)
both-goes o v q e h c = record { balance = subst After e h; owned = subst Moves.After e c }

both-returns :
    (o : Outcome) (v : World) (code : Code) → o ≡ returns v code → After o → Moves.After o → Good v
both-returns o v code e h c = record { balance = subst After e h; owned = subst Moves.After e c }

module _ (w : World) (before later : List At) (p : At) (a : Answers)
    (e : w.active ≡ before ++ p ∷ later) (g : Allowed w p) (h : Good w) where
  abbrev rest : World
  rest = record w { active = before ++ later }

  balanced : After (advance rest p a)
  balanced =
      advance-Inv rest p a g (taken-Claims w before later p e h.owned)
        (taken-Inv w before later p e h.balance)

  claimed : Moves.After (advance rest p a)
  claimed =
      advance-Claims rest p a (taken-Inv w before later p e h.balance)
        (taken-Claims w before later p e h.owned)

Step-Good : {w v : World} → Step w v → Good w → Good v
Step-Good {w} (begin p e) h = record {
  balance = begin-Inv w p e h.balance;
  owned = begin-Claims w p e h.owned;
}
Step-Good {w} (proceed before later p q a v e g o) h =
    both-goes _ v q o (balanced w before later p a e g h) (claimed w before later p a e g h)
Step-Good {w} (finish before later p a v code e g o) h =
    both-returns _ v code o (balanced w before later p a e g h) (claimed w before later p a e g h)
Step-Good {w} make_task h = record {
  balance = make_task-Inv w h.balance;
  owned = make_task-Claims w h.owned;
}

new_world-Inv : (n : ℕ) → Inv (new_world n)
new_world-Inv n = record {
  counted = refl;
  queued_once = λ s. refl;
  running_once = λ s. refl;
  pooled = λ s. omega arith;
}

start-Good : (thread_count : ℤ) {w : World} → thread_pool_new thread_count true ≡ some w → Good w
unfolding thread_pool_new
start-Good (negsuc k) e = cc
start-Good (pos n) {w} e = elim (Bool-cases (n == 0)) [
  | inl z ↦ cc
  | inr z ↦ elim (Bool-cases (ltb max_threads_limit n)) [
    | inl l ↦ cc
    | inr l ↦
        let same : new_world n ≡ w = ground arith in
        subst Good same (record { balance = new_world-Inv n; owned = new_world-Claims n })
  ]
]

pub Reach-Good : {w : World} → Reach w → Good w
Reach-Good (start n e) = start-Good n e
Reach-Good (step r s) = Step-Good s (Reach-Good r)

pub Reach-Inv : {w : World} → Reach w → Inv w
Reach-Inv r = (Reach-Good r).balance

-- In every world that is reached by the steps of `Step`, the counter of the pool is the number of
-- tasks that are queued, running, or finished and not joined, and of the steps that threads owe it
-- (pushes that have counted a task and not marked it yet, or have to take it back, and joins and
-- workers that have to subtract), less the tasks that calls of `thread_task_detach` have subtracted
-- and go on to delete.
pub counter_lem :
    {w : World}
    → Reach w
    → w.added + total refunds w.active ≡ w.subtracted + total weight w.tasks + total owes w.active
counter_lem r = (Reach-Inv r).counted

-- In every world that is reached by the steps of `Step`, a queued task stands in the queue once and
-- no thread has it, or it does not and just one thread has it, to put it in or to run it; a task
-- that is not queued, or was deleted, is at neither place; and a running task is run by just one
-- worker, and any other by none.
pub one_owner :
    {w : World} (t : ℕ)
    → Reach w
    → (queued_in (task_at w t) ≡ total (named t) w.queue + total (brings t) w.active)
      × (running_in (task_at w t) ≡ total (runs t) w.active)
one_owner t r = ((Reach-Inv r).queued_once t, (Reach-Inv r).running_once t)
