-- ===== src/ThreadPool/Steps/Sleepers/Reached.antt =====
-- In no world that is reached does anybody sleep for nothing.
use mathlib.Core.Path.{subst}
use system_prog.Common.{
  ℕ, ◌+◌, ◌≡◌, ◌⊎◌, ◌∙◌, refl, ap, true, false, some, none, List, [], ◌∷◌, ◌++◌, total,
  total-append, arith, ltb, ◌==◌, Bool-cases, inl, inr, ℤ, pos, negsuc,
}
use system_prog.ThreadPool.Balance.Keeps.{with_at}
use system_prog.ThreadPool.Claims.Entries.{flat-append}
use system_prog.ThreadPool.Claims.{MayBegin}
use system_prog.ThreadPool.Steps.Sleepers.Advance.{advance-Awake}
use system_prog.ThreadPool.Steps.Sleepers.{sleeps, dozes, over_in, Awake, After}
use system_prog.ThreadPool.Steps.{Step, Reach, begin, proceed, finish, make_task, start, step}
use system_prog.ThreadPool.{
  At, push_enter, join_enter, timed_join_enter, delete_enter, detach_enter, pool_delete_enter,
  push_lock, World, task_at, max_threads_limit, new_task, new_world, thread_pool_new,
  thread_task_new,
}

enters :
    (w : World)
    → Awake w
    → (p : At) → sleeps p ≡ 0
    → ((s : ℕ) → dozes s p ≡ 0)
    → Awake (with_at w p)
enters w h p n d = record {
  workers_awake = elim h.workers_awake [ inl z ↦ inl (omega (arith, z, n)) | inr e ↦ inr e ];
  joins_awake = λ s. elim (h.joins_awake s) [ inl z ↦ inl (omega (arith, z, d s)) | inr e ↦ inr e ];
}

enters-Awake : (w : World) (p : At) → MayBegin w p → Awake w → Awake (with_at w p)
enters-Awake w (push_enter none) m h = enters w h (push_enter none) refl (λ s. refl)
enters-Awake w (push_enter (some t)) m h = enters w h (push_enter (some t)) refl (λ s. refl)
enters-Awake w (join_enter none) m h = enters w h (join_enter none) refl (λ s. refl)
enters-Awake w (join_enter (some t)) m h = enters w h (join_enter (some t)) refl (λ s. refl)
enters-Awake w (timed_join_enter none) m h = enters w h (timed_join_enter none) refl (λ s. refl)
enters-Awake w (timed_join_enter (some t)) m h =
    enters w h (timed_join_enter (some t)) refl (λ s. refl)
enters-Awake w (delete_enter none) m h = enters w h (delete_enter none) refl (λ s. refl)
enters-Awake w (delete_enter (some t)) m h = enters w h (delete_enter (some t)) refl (λ s. refl)
enters-Awake w (detach_enter none) m h = enters w h (detach_enter none) refl (λ s. refl)
enters-Awake w (detach_enter (some t)) m h = enters w h (detach_enter (some t)) refl (λ s. refl)
enters-Awake w (pool_delete_enter given) m h = enters w h (pool_delete_enter given) refl (λ s. refl)
enters-Awake w (push_lock t) m h = absurd m
enters-Awake w _ m h = absurd m

taken-Awake :
    (w : World) (before later : List At) (p : At)
    → w.active ≡ before ++ p ∷ later
    → Awake w
    → Awake (with_at (record w { active = before ++ later }) p)
taken-Awake w before later p e h =
    let moved : (g : At → ℕ) → total g w.active ≡ g p + total g (before ++ later) = λ g.
      omega
        (arith, ap (total g) e, total-append g before (p ∷ later), total-append g before later) in
    record {
      workers_awake = elim h.workers_awake [
        | inl z ↦ inl (omega (arith, z, moved sleeps))
        | inr f ↦ inr f
      ];
      joins_awake = λ s. elim (h.joins_awake s) [
        | inl z ↦ inl (omega (arith, z, moved (dozes s)))
        | inr f ↦ inr f
      ];
    }

make_task-Awake : (w : World) → Awake w → Awake (thread_task_new w).0
unfolding thread_task_new
make_task-Awake w h = record {
  workers_awake = h.workers_awake;
  joins_awake = λ s. elim (h.joins_awake s) [
    | inl z ↦ inl z
    | inr z ↦ elim (flat-append w.tasks (some new_task) s) [
      | inl old ↦ inr (ap over_in old ∙ z)
      | inr (fresh, absent) ↦ inr (ap over_in fresh)
    ]
  ];
}

Step-Awake : {w v : World} → Step w v → Awake w → Awake v
Step-Awake {w} (begin p e) h = enters-Awake w p e h
Step-Awake {w} (proceed before later p q a v e g o) h =
    subst After o
      (advance-Awake (record w { active = before ++ later }) p a (taken-Awake w before later p e h))
Step-Awake {w} (finish before later p a v code e g o) h =
    subst After o
      (advance-Awake (record w { active = before ++ later }) p a (taken-Awake w before later p e h))
Step-Awake {w} make_task h = make_task-Awake w h

new_world-Awake : (n : ℕ) → Awake (new_world n)
new_world-Awake n = record { workers_awake = inl refl; joins_awake = λ s. inl refl }

start-Awake : (thread_count : ℤ) {w : World} → thread_pool_new thread_count true ≡ some w → Awake w
unfolding thread_pool_new
start-Awake (negsuc k) e = cc
start-Awake (pos n) {w} e = elim (Bool-cases (n == 0)) [
  | inl z ↦ cc
  | inr z ↦ elim (Bool-cases (ltb max_threads_limit n)) [
    | inl l ↦ cc
    | inr l ↦ let same : new_world n ≡ w = ground arith in subst Awake same (new_world-Awake n)
  ]
]

awake : {w : World} → Reach w → Awake w
awake (start n e) = start-Awake n e
awake (step r s) = Step-Awake s (awake r)

-- In every world that is reached by the steps of `Step`, a worker sleeps on the condition of the
-- pool only while the queue is empty and the pool is not stopping, and a join or a timed join of
-- task `t` sleeps only while the task is neither finished nor joined: no broadcast is missing.
pub no_lost_broadcast :
    {w : World} (t : ℕ)
    → Reach w
    → ((total sleeps w.active ≡ 0) ⊎ ((w.queue ≡ []) × (w.stopping ≡ false)))
      × ((total (dozes t) w.active ≡ 0) ⊎ (over_in (task_at w t) ≡ 0))
no_lost_broadcast t r = ((awake r).workers_awake, (awake r).joins_awake t)
