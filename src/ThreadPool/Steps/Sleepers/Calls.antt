-- ===== src/ThreadPool/Steps/Sleepers/Calls.antt =====
-- The steps of a call, and of a worker that ends a task, leave nobody asleep for nothing.
use mathlib.Core.Path.{subst}
use native.Mathlib.Decide.{ℕ_discrete}
use system_prog.Common.{
  ℕ, ◌≤◌, ◌≡◌, ◌≢◌, ◌∙◌, refl, ap, Bool, true, false, some, List, [], ◌∷◌, ◌==◌, if◌then◌else◌,
  total, arith, inl, inr,
}
use system_prog.ThreadPool.Balance.{one, task_at-put_ne}
use system_prog.ThreadPool.Balance.Keeps.{with_at}
use system_prog.ThreadPool.{
  TaskState, new, queued, running, finished, joined, Task, At, join_sleep, timed_join_sleep,
  detach_drop, push_undo, worker_wait, worker_sleep, join_drop, worker_free, World, task_at,
  put_task, wake_worker, wake_join, each, join_loop, join_pushed, timed_join_end, timed_join_pushed,
  timed_join_loop, detach_pushed, worker_finish,
}
use system_prog.ThreadPool.Balance.Wakes.{total-wake_join}
use system_prog.ThreadPool.Steps.Sleepers.{
  sleeps, dozes, over_state, over_in, Awake, After, either, ends, rises, puts_end, puts, lies_down,
}

pub none_asleep : (ps : List At) → total sleeps (each wake_worker ps) ≡ 0
none_asleep [] = refl
none_asleep (worker_sleep ∷ ps) = omega (arith, none_asleep ps)
none_asleep (push_undo ∷ ps) = omega (arith, none_asleep ps)
none_asleep (_ ∷ ps) = omega (arith, none_asleep ps)

none_dozes : (t : ℕ) (ps : List At) → total (dozes t) (each (wake_join t) ps) ≡ 0
none_dozes t [] = refl
none_dozes t (join_sleep s ∷ ps) = ground (arith, none_dozes t ps)
none_dozes t (timed_join_sleep s ∷ ps) = ground (arith, none_dozes t ps)
none_dozes t (push_undo ∷ ps) = omega (arith, none_dozes t ps)
none_dozes t (_ ∷ ps) = omega (arith, none_dozes t ps)

other_dozes :
    (t s : ℕ)
    → t ≢ s
    → (ps : List At) → total (dozes s) (each (wake_join t) ps) ≤ total (dozes s) ps
other_dozes t s ne [] = omega arith
other_dozes t s ne (join_sleep r ∷ ps) = ground (arith, other_dozes t s ne ps)
other_dozes t s ne (timed_join_sleep r ∷ ps) = ground (arith, other_dozes t s ne ps)
other_dozes t s ne (push_undo ∷ ps) = omega (arith, other_dozes t s ne ps)
other_dozes t s ne (_ ∷ ps) = omega (arith, other_dozes t s ne ps)

module _ (w : World) (t : ℕ) (k : Task) (at : task_at w t ≡ some k) {p : At}
    (h : Awake (with_at w p)) where
  dozes_off :
      (q : At)
      → over_state k.state ≡ 0
      → sleeps q ≡ 0
      → ((s : ℕ) → dozes s q ≡ one (t == s))
      → Awake (with_at w q)
  dozes_off q e = lies_down w h t q (ap over_in at ∙ e)

  pub join_loop-Awake : (s : TaskState) → k.state ≡ s → After (join_loop w t k s)
  unfolding join_loop
  join_loop-Awake finished e =
      puts w h t k (some (record k { pool = false; state = joined })) (join_drop k.pool) at
        (omega (arith, ap over_state e)) refl (λ s. refl)
  join_loop-Awake joined e = ends w h
  join_loop-Awake new e = dozes_off (join_sleep t) (ap over_state e) refl (λ s. refl)
  join_loop-Awake queued e = dozes_off (join_sleep t) (ap over_state e) refl (λ s. refl)
  join_loop-Awake running e = dozes_off (join_sleep t) (ap over_state e) refl (λ s. refl)

  pub join_pushed-Awake : (s : TaskState) → k.state ≡ s → After (join_pushed w t k s)
  unfolding join_pushed
  join_pushed-Awake new e = ends w h
  join_pushed-Awake queued e = join_loop-Awake queued e
  join_pushed-Awake running e = join_loop-Awake running e
  join_pushed-Awake finished e = join_loop-Awake finished e
  join_pushed-Awake joined e = join_loop-Awake joined e

  timed_join_end-Awake : over_state k.state ≡ 1 → After (timed_join_end w t k)
  unfolding timed_join_end
  timed_join_end-Awake e =
      let b : World = put_task w t (some (record k { state = joined })) in
      let f = puts_end w h t k (some (record k { state = joined })) at (omega (arith, e)) in
      either _ _ k.pool (record { workers_awake = f.workers_awake; joins_awake = f.joins_awake }) tt

  pub timed_join_pushed-Awake : (s : TaskState) → k.state ≡ s → After (timed_join_pushed w t k s)
  unfolding timed_join_pushed
  timed_join_pushed-Awake new e = ends w h
  timed_join_pushed-Awake finished e = timed_join_end-Awake (ap over_state e)
  timed_join_pushed-Awake joined e = timed_join_end-Awake (ap over_state e)
  timed_join_pushed-Awake queued e =
      dozes_off (timed_join_sleep t) (ap over_state e) refl (λ s. refl)
  timed_join_pushed-Awake running e =
      dozes_off (timed_join_sleep t) (ap over_state e) refl (λ s. refl)

  pub timed_join_loop-Awake :
      (b : Bool) (s : TaskState) → k.state ≡ s → After (timed_join_loop w t b k s)
  unfolding timed_join_loop
  timed_join_loop-Awake b finished e =
      either _ _ b (ends w h) (timed_join_end-Awake (ap over_state e))
  timed_join_loop-Awake b joined e = either _ _ b (ends w h) (ends w h)
  timed_join_loop-Awake b new e =
      either _ _ b (ends w h) (dozes_off (timed_join_sleep t) (ap over_state e) refl (λ s. refl))
  timed_join_loop-Awake b queued e =
      either _ _ b (ends w h) (dozes_off (timed_join_sleep t) (ap over_state e) refl (λ s. refl))
  timed_join_loop-Awake b running e =
      either _ _ b (ends w h) (dozes_off (timed_join_sleep t) (ap over_state e) refl (λ s. refl))

  detach_mark : Awake (put_task w t (some (record k { detached = true })))
  detach_mark = puts_end w h t k (some (record k { detached = true })) at (omega arith)

  pub detach_pushed-Awake : (s : TaskState) → After (detach_pushed w t k s)
  unfolding detach_pushed
  detach_pushed-Awake finished = rises w h (detach_drop t) refl (λ s. refl)
  detach_pushed-Awake new = detach_mark
  detach_pushed-Awake queued = detach_mark
  detach_pushed-Awake running = detach_mark
  detach_pushed-Awake joined = detach_mark

  pub worker_finish-Awake : After (worker_finish w t (some k))
  unfolding worker_finish
  worker_finish-Awake = by_if k.detached
    where
      woken :
          (q : At)
          → sleeps q ≡ 0
          → ((s : ℕ) → dozes s q ≡ 0)
          → Awake (record (put_task w t (some (record k { state = finished }))) {
            active = q ∷ each (wake_join t) w.active;
          })
      woken q n d = record {
        workers_awake = elim h.workers_awake [
          | inl e ↦
              inl (omega (arith, e, n, total-wake_join sleeps t w.active (λ s. refl) (λ s. refl)))
          | inr e ↦ inr e
        ];
        joins_awake = λ s. elim (ℕ_discrete t s) [
          | yes e ↦ inl (
              omega (
                arith,
                d s,
                subst (λ r. total (dozes r) (each (wake_join t) w.active) ≡ 0) e
                    (none_dozes t w.active),
              ))
          | no ne ↦ elim (h.joins_awake s) [
            | inl z ↦ inl (omega (arith, z, d s, other_dozes t s ne w.active))
            | inr z ↦
                inr
                  (ap over_in (task_at-put_ne w t s (some (record k { state = finished })) ne) ∙ z)
          ]
        ];
      }

      by_if :
          (b : Bool)
          → Awake (record (put_task w t (some (record k { state = finished }))) {
            active =
                (if b then worker_free t k.pool else worker_wait) ∷ each (wake_join t) w.active;
          })
      by_if true = woken (worker_free t k.pool) refl (λ s. refl)
      by_if false = woken worker_wait refl (λ s. refl)
