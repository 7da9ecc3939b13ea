-- ===== src/ThreadPool/Balance/Wakes.antt =====
-- A broadcast moves threads, and changes nothing of what they have or owe.
use system_prog.Common.{ℕ, ◌≡◌, refl, List, [], ◌∷◌, ◌==◌, total, arith, Bool-cases, inl, inr}
use system_prog.ThreadPool.{
  At, join_wait, join_sleep, timed_join_wait, timed_join_sleep, worker_wait, worker_sleep,
  wake_worker, wake_join, each,
}

pub total-each :
    (f : At → ℕ) (g : At → At) (ps : List At)
    → ((p : At) → f (g p) ≡ f p)
    → total f (each g ps) ≡ total f ps
total-each f g [] e = refl
total-each f g (p ∷ ps) e = omega (arith, e p, total-each f g ps e)

-- A function of the place of a thread that does not tell a wait on a condition from its end.
pub wake_worker-eq :
    (f : At → ℕ) → f worker_wait ≡ f worker_sleep → (p : At) → f (wake_worker p) ≡ f p
wake_worker-eq f e worker_sleep = e
wake_worker-eq f e _ = refl

pub wake_join-eq :
    (f : At → ℕ)
    → ((t : ℕ) → f (join_wait t) ≡ f (join_sleep t))
    → ((t : ℕ) → f (timed_join_wait t) ≡ f (timed_join_sleep t))
    → (t : ℕ) (p : At) → f (wake_join t p) ≡ f p
wake_join-eq f e g t (join_sleep s) = elim (Bool-cases (s == t)) [
  | inl h ↦ rw h (e s)
  | inr h ↦ rw h refl
]
wake_join-eq f e g t (timed_join_sleep s) = elim (Bool-cases (s == t)) [
  | inl h ↦ rw h (g s)
  | inr h ↦ rw h refl
]
wake_join-eq f e g t _ = refl

pub total-wake_worker :
    (f : At → ℕ) (ps : List At)
    → f worker_wait ≡ f worker_sleep
    → total f (each wake_worker ps) ≡ total f ps
total-wake_worker f ps e = total-each f wake_worker ps (wake_worker-eq f e)

pub total-wake_join :
    (f : At → ℕ) (t : ℕ) (ps : List At)
    → ((s : ℕ) → f (join_wait s) ≡ f (join_sleep s))
    → ((s : ℕ) → f (timed_join_wait s) ≡ f (timed_join_sleep s))
    → total f (each (wake_join t) ps) ≡ total f ps
total-wake_join f t ps e g = total-each f (wake_join t) ps (wake_join-eq f e g t)
