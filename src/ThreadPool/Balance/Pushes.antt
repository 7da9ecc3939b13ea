-- ===== src/ThreadPool/Balance/Pushes.antt =====
-- The steps of a push keep the invariant of the pool.
use system_prog.Common.{
  ℕ, zero, suc, ◌+◌, ◌≡◌, ◌∙◌, refl, sym, ap, true, false, Option, none, some, List, [], ◌∷◌, ◌++◌,
  ◌||◌, length, total, total-append, arith, leb, inl, inr, Bool-cases,
}
use system_prog.ThreadPool.Balance.Wakes.{total-wake_worker}
use system_prog.ThreadPool.Balance.{one, owes, refunds, brings, runs, named, Inv, Changes-Inv}
use system_prog.ThreadPool.{
  queued, Task, At, push_enter, push_lock, push_queue, worker_wait, worker_sleep, wake_worker, each,
  World, task_at, is_busy, Answers, max_tasks, push_reserve, push_mark, push_append, spawns,
  workers,
}
use system_prog.ThreadPool.Balance.Keeps.{
  with_at, After, Same-Inv, goes-Inv, returns-Inv, one_self, one-ne, idle, free,
}

pub push_reserve-Inv :
    (w : World) (task : Option ℕ) → Inv (with_at w (push_enter task)) → After (push_reserve w task)
unfolding push_reserve
push_reserve-Inv w none h = returns-Inv w (free refl refl (λ s. refl) (λ s. refl)) h
push_reserve-Inv w (some t) h = elim (Bool-cases (leb (w.subtracted + max_tasks) w.added)) [
  | inl e ↦ rw e (returns-Inv w (free refl refl (λ s. refl) (λ s. refl)) h)
  | inr e ↦ rw e (
      Same-Inv
        (record {
          tasks = refl;
          counter = omega arith;
          held = λ s. omega arith;
          run = λ s. omega arith;
        })
        h)
]

pub push_mark-Inv :
    (w : World) (t : ℕ) (o : Option Task)
    → task_at w t ≡ o
    → Inv (with_at w (push_lock t))
    → After (push_mark w t o)
unfolding push_mark
push_mark-Inv w t none at h = tt
push_mark-Inv w t (some k) at h = elim (Bool-cases (k.pool || is_busy k.state)) [
  | inl e ↦
      rw e (
        goes-Inv w (record { owed = refl; refunded = refl; brought = λ s. refl; ran = λ s. refl })
          h)
  | inr e ↦
      let busy : is_busy k.state ≡ false = ground arith in
      let out : Option Task = some (record k { pool = true; state = queued }) in
      rw e (
        Changes-Inv {w = with_at w (push_lock t)} {t = t} {k = k} {o = out}
          (record {
            tasks = refl;
            counter = omega (arith, ap one busy);
            held = omega (arith, (idle k busy).0, one_self t);
            held_else = λ s ne. omega (arith, one-ne t s ne);
            run = omega (arith, (idle k busy).1);
            run_else = λ s ne. omega arith;
            knows = omega arith;
          })
          at h)
]

pub total-workers : (f : At → ℕ) (n : ℕ) → f worker_wait ≡ 0 → total f (workers n) ≡ 0
total-workers f zero e = refl
total-workers f (suc n) e = omega (arith, e, total-workers f n e)

-- The workers are woken up, and others are made.
pub more_workers :
    (f : At → ℕ) (xs : List At) (n : ℕ)
    → f worker_wait ≡ 0
    → f worker_sleep ≡ 0
    → total f (each wake_worker xs ++ workers n) ≡ total f xs
more_workers f xs n e g = omega (
  arith,
  total-append f (each wake_worker xs) (workers n),
  total-workers f n e,
  total-wake_worker f xs (e ∙ sym g),
)

pub push_append-Inv :
    (w : World) (t : ℕ) (a : Answers) → Inv (with_at w (push_queue t)) → After (push_append w t a)
unfolding push_append
push_append-Inv w t a h =
    let made = spawns a.creates w.max_threads (length (w.queue ++ t ∷ [])) w.threads in
    Same-Inv
      (record {
        tasks = refl;
        counter = omega (
          arith,
          more_workers owes w.active made refl refl,
          more_workers refunds w.active made refl refl,
        );
        held = λ s. omega (
          arith,
          more_workers (brings s) w.active made refl refl,
          total-append (named s) w.queue (t ∷ []),
        );
        run = λ s. omega (arith, more_workers (runs s) w.active made refl refl);
      })
      h
