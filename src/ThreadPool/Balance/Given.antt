-- ===== src/ThreadPool/Balance/Given.antt =====
-- The steps of `advance` on a task that lives keep the invariant of the pool.
use system_prog.Common.{
  ℕ, set, ◌∷◌, if◌then◌else◌, ◌+◌, ◌≤◌, ◌≡◌, ◌∙◌, refl, ap, Bool, true, false, Option, none, some,
  total, arith,
}
use system_prog.ThreadPool.Balance.Wakes.{total-wake_join}
use system_prog.ThreadPool.Balance.{
  one, weight, queued_state, running_state, queued_in, running_in, pool_in, owes, refunds, brings,
  runs, named, Inv, Changes-Inv,
}
use system_prog.ThreadPool.{
  TaskState, new, queued, running, finished, joined, Task, At, join_enter, timed_join_enter,
  join_wait, join_sleep, timed_join_wait, timed_join_sleep, worker_wait, worker_free, wake_join,
  each, worker_start, worker_run, World, task_at, put_task, is_busy,
}
use system_prog.ThreadPool.Balance.Keeps.{
  with_at, After, goes-Inv, returns-Inv, one_self, one-ne, free, under_if, join_loop-Inv,
  timed_join_end-Inv,
}
use system_prog.ThreadPool.{join_pushed, timed_join_pushed, timed_join_loop, worker_finish}

-- The calls of `thread_task_timed_join` are on tasks that are not joined yet.
abbrev pub joined_state : TaskState → Bool
joined_state joined = true
joined_state _ = false

abbrev pub joined_in : Option Task → Bool
joined_in none = false
joined_in (some k) = joined_state k.state

abbrev pub Allowed : World → At → Type 0
Allowed w (timed_join_enter (some t)) = joined_in (task_at w t) ≡ false
Allowed w _ = Unit

state_queued : (s : TaskState) (n : ℕ) → queued_state s ≡ 1 + n → s ≡ queued
state_queued queued n e = refl
state_queued new n e = absurd (omega arith)
state_queued running n e = absurd (omega arith)
state_queued finished n e = absurd (omega arith)
state_queued joined n e = absurd (omega arith)

state_running : (s : TaskState) (n : ℕ) → running_state s ≡ 1 + n → s ≡ running
state_running running n e = refl
state_running new n e = absurd (omega arith)
state_running queued n e = absurd (omega arith)
state_running finished n e = absurd (omega arith)
state_running joined n e = absurd (omega arith)

module _ (w : World) (t : ℕ) (k : Task) (at : task_at w t ≡ some k) where
  pub join_first-Inv :
      Inv (with_at w (join_enter (some t)))
      → (s : TaskState) → k.state ≡ s
      → After (join_pushed w t k s)
  unfolding join_pushed
  join_first-Inv h new e = returns-Inv w (free refl refl (λ s. refl) (λ s. refl)) h
  join_first-Inv h queued e =
      join_loop-Inv w t k at _ (free refl refl (λ s. refl) (λ s. refl)) h queued e
  join_first-Inv h running e =
      join_loop-Inv w t k at _ (free refl refl (λ s. refl) (λ s. refl)) h running e
  join_first-Inv h finished e =
      join_loop-Inv w t k at _ (free refl refl (λ s. refl) (λ s. refl)) h finished e
  join_first-Inv h joined e =
      join_loop-Inv w t k at _ (free refl refl (λ s. refl) (λ s. refl)) h joined e

  pub timed_join_first-Inv :
      Inv (with_at w (timed_join_enter (some t)))
      → (s : TaskState) → k.state ≡ s
      → joined_state s ≡ false
      → After (timed_join_pushed w t k s)
  unfolding timed_join_pushed
  timed_join_first-Inv h new e g = returns-Inv w (free refl refl (λ s. refl) (λ s. refl)) h
  timed_join_first-Inv h queued e g =
      goes-Inv w (record { owed = refl; refunded = refl; brought = λ s. refl; ran = λ s. refl }) h
  timed_join_first-Inv h running e g =
      goes-Inv w (record { owed = refl; refunded = refl; brought = λ s. refl; ran = λ s. refl }) h
  timed_join_first-Inv h finished e g =
      timed_join_end-Inv w t k at _ (free refl refl (λ s. refl) (λ s. refl)) h e
  timed_join_first-Inv h joined e g = cc

  pub timed_join_loop-Inv :
      Inv (with_at w (timed_join_wait t))
      → (b : Bool) (s : TaskState) → k.state ≡ s
      → After (timed_join_loop w t b k s)
  unfolding timed_join_loop
  timed_join_loop-Inv h b finished e =
      under_if _ _ b (returns-Inv w (free refl refl (λ s. refl) (λ s. refl)) h)
        (timed_join_end-Inv w t k at _ (free refl refl (λ s. refl) (λ s. refl)) h e)
  timed_join_loop-Inv h b joined e =
      under_if _ _ b (returns-Inv w (free refl refl (λ s. refl) (λ s. refl)) h)
        (returns-Inv w (free refl refl (λ s. refl) (λ s. refl)) h)
  timed_join_loop-Inv h b new e =
      under_if _ _ b (returns-Inv w (free refl refl (λ s. refl) (λ s. refl)) h) (
        goes-Inv w (record { owed = refl; refunded = refl; brought = λ s. refl; ran = λ s. refl })
          h)
  timed_join_loop-Inv h b queued e =
      under_if _ _ b (returns-Inv w (free refl refl (λ s. refl) (λ s. refl)) h) (
        goes-Inv w (record { owed = refl; refunded = refl; brought = λ s. refl; ran = λ s. refl })
          h)
  timed_join_loop-Inv h b running e =
      under_if _ _ b (returns-Inv w (free refl refl (λ s. refl) (λ s. refl)) h) (
        goes-Inv w (record { owed = refl; refunded = refl; brought = λ s. refl; ran = λ s. refl })
          h)

  -- A worker has the task: nobody else has.
  module _ (h : Inv (with_at w (worker_start t))) where
    pub started : k.state ≡ queued
    started =
        state_queued k.state (total (named t) w.queue + total (brings t) w.active)
          (omega (arith, h.queued_once t, ap queued_in at, one_self t))

    pub worker_begin-Inv :
        Inv (with_at (put_task w t (some (record k { state = running }))) (worker_run t))
    worker_begin-Inv =
        Changes-Inv {w = with_at w (worker_start t)} {t = t} {k = k}
          {o = some (record k { state = running })}
          (record {
            tasks = refl;
            counter = omega (arith, ap (λ s. one (is_busy s)) started);
            held = omega (arith, ap queued_state started, one_self t);
            held_else = λ s ne. omega (arith, one-ne t s ne);
            run = omega (arith, ap running_state started, one_self t);
            run_else = λ s ne. omega (arith, one-ne t s ne);
            knows =
                omega (
                  arith,
                  h.pooled t,
                  ap weight at,
                  ap pool_in at,
                  ap (λ s. one (is_busy s)) started,
                );
          })
          at h

  module _ (h : Inv (with_at w (worker_run t))) where
    pub ran : k.state ≡ running
    ran =
        state_running k.state (total (runs t) w.active)
          (omega (arith, h.running_once t, ap running_in at, one_self t))

    ends :
        (o : Option Task) (q : At) (v : World)
        → v.tasks ≡ set w.tasks t o
        → (v.added ≡ w.added) × (v.subtracted ≡ w.subtracted) × (v.queue ≡ w.queue)
        → v.active ≡ q ∷ each (wake_join t) w.active
        → weight o ≡ 1
        → (owes q ≡ 0) × (refunds q ≡ 0)
        → (queued_in o ≡ 0) × (running_in o ≡ 0)
        → ((s : ℕ) → brings s q ≡ 0)
        → ((s : ℕ) → runs s q ≡ 0)
        → weight o ≤ pool_in o
        → Inv v
    ends o q v ts (add, sub, queue) act c (owed, refunded) (no_queue, no_run) b r knows =
        let moved : (f : At → ℕ)
            → ((s : ℕ) → f (join_wait s) ≡ f (join_sleep s))
            → ((s : ℕ) → f (timed_join_wait s) ≡ f (timed_join_sleep s))
            → total f v.active ≡ f q + total f w.active =
          λ f j tj. ap (total f) act ∙ ap (λ n. f q + n) (total-wake_join f t w.active j tj) in
        let held = λ (s : ℕ). moved (brings s) (λ _. refl) (λ _. refl) in
        let run = λ (s : ℕ). moved (runs s) (λ _. refl) (λ _. refl) in
        let waiting = λ (s : ℕ). ap (total (named s)) queue in
        Changes-Inv {w = with_at w (worker_run t)} {t = t} {k = k} {o = o} {v = v}
          (record {
            tasks = ts;
            counter = omega (
              arith,
              ap (λ s. one (is_busy s)) ran,
              c,
              owed,
              refunded,
              add,
              sub,
              moved owes (λ _. refl) (λ _. refl),
              moved refunds (λ _. refl) (λ _. refl),
            );
            held = omega (arith, ap queued_state ran, no_queue, b t, held t, waiting t);
            held_else = λ s ne. omega (arith, b s, held s, waiting s);
            run = omega (arith, ap running_state ran, no_run, one_self t, r t, run t);
            run_else = λ s ne. omega (arith, one-ne t s ne, r s, run s);
            knows = knows;
          })
          at h

    pub worker_finish-Inv : After (worker_finish w t (some k))
    unfolding worker_finish
    worker_finish-Inv = by_if k.detached
      where
        by_if :
            (b : Bool)
            → Inv (
                with_at
                  (record (put_task w t (some (record k { state = finished }))) {
                    active = each (wake_join t) w.active;
                  })
                  (if b then worker_free t k.pool else worker_wait))
        by_if true =
            ends (some (record k { state = finished })) (worker_free t k.pool) _ refl
              (refl, refl, refl) refl refl (refl, refl) (refl, refl) (λ s. refl) (λ s. refl)
              (omega
                (arith, h.pooled t, ap weight at, ap pool_in at, ap (λ s. one (is_busy s)) ran))
        by_if false =
            ends (some (record k { state = finished })) worker_wait _ refl (refl, refl, refl) refl
              refl (refl, refl) (refl, refl) (λ s. refl) (λ s. refl)
              (omega
                (arith, h.pooled t, ap weight at, ap pool_in at, ap (λ s. one (is_busy s)) ran))
