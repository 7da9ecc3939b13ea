-- ===== src/ThreadPool/Claims/Entries.antt =====
-- A call that begins by the rules, a new task and a new pool keep the claims on the tasks.
use mathlib.Core.Path.{subst}
use system_prog.Common.{
  ℕ, ◌+◌, ◌≡◌, ◌⊎◌, zero, suc, refl, sym, ap, Option, none, some, List, [], ◌∷◌, ◌++◌, get_elem?,
  total, total-append, arith, inl, inr,
}
use system_prog.ThreadPool.Balance.Keeps.{with_at}
use system_prog.ThreadPool.Claims.Kinds.{less-Fit, use-Fit, claim-Fit, worker-Fit}
use system_prog.ThreadPool.Claims.Moves.{Stands, Stands-other, other-mark, goes-Claims}
use system_prog.ThreadPool.Claims.{
  Kind, user, claimer, other, mark, marks, nulls, kind_of, Fit, Fit-cong, Claims, Usable, MayBegin,
  more,
}
use system_prog.ThreadPool.{
  Task, At, push_enter, join_enter, timed_join_enter, delete_enter, detach_enter, push_lock,
  worker_wait, pool_delete_enter, World, flat, task_at, new_task, new_world, thread_task_new,
}

-- One more thread that has to do with no task.
aside-Claims :
    (w : World) (q : At) → kind_of q ≡ other → nulls q ≡ 0 → Claims w → Claims (with_at w q)
aside-Claims w q e n h = record {
  fits = λ s. Fit-cong (λ c. omega (arith, other-mark c s q e)) (h.fits s);
  known = omega (arith, n, h.known);
}

module _ (w : World) (t : ℕ) (h : Claims w) where
  enters-Claims :
      (q : At) (y : Kind)
      → Stands t y q
      → nulls q ≡ 0
      → (Fit (task_at w t) (marks w t) → Fit (task_at w t) (more y (marks w t)))
      → Claims (with_at w q)
  enters-Claims q y there n fit =
      goes-Claims {w = w} {v = w} t other (Stands-other t worker_wait refl) refl refl y there n
        (λ f. fit (less-Fit (marks w t) other f)) (aside-Claims w worker_wait refl refl h)

  uses-Claims : (q : At) → Stands t user q → nulls q ≡ 0 → Usable w t → Claims (with_at w q)
  uses-Claims q there n u = enters-Claims q user there n (use-Fit (marks w t) u)

  owns-Claims :
      (q : At)
      → Stands t claimer q
      → nulls q ≡ 0
      → Usable w t
      → marks w t user ≡ 0
      → Claims (with_at w q)
  owns-Claims q there n u alone = enters-Claims q claimer there n (claim-Fit (marks w t) u alone)

pub begin-Claims : (w : World) (p : At) → MayBegin w p → Claims w → Claims (with_at w p)
begin-Claims w (push_enter none) m h = aside-Claims w (push_enter none) refl refl h
begin-Claims w (push_enter (some t)) m h =
    uses-Claims w t h (push_enter (some t)) (λ c s. refl) refl m
begin-Claims w (join_enter none) m h = aside-Claims w (join_enter none) refl refl h
begin-Claims w (join_enter (some t)) m h =
    uses-Claims w t h (join_enter (some t)) (λ c s. refl) refl m
begin-Claims w (timed_join_enter none) m h = aside-Claims w (timed_join_enter none) refl refl h
begin-Claims w (timed_join_enter (some t)) m h =
    uses-Claims w t h (timed_join_enter (some t)) (λ c s. refl) refl m
begin-Claims w (delete_enter none) m h = aside-Claims w (delete_enter none) refl refl h
begin-Claims w (delete_enter (some t)) (u, alone) h =
    owns-Claims w t h (delete_enter (some t)) (λ c s. refl) refl u alone
begin-Claims w (detach_enter none) m h = aside-Claims w (detach_enter none) refl refl h
begin-Claims w (detach_enter (some t)) (u, alone) h =
    owns-Claims w t h (detach_enter (some t)) (λ c s. refl) refl u alone
begin-Claims w (pool_delete_enter given) m h = aside-Claims w (pool_delete_enter given) refl refl h
begin-Claims w (push_lock t) m h = absurd m
begin-Claims w _ m h = absurd m

-- A thread is taken out of the others to make a step.
pub taken-Claims :
    (w : World) (before later : List At) (p : At)
    → w.active ≡ before ++ p ∷ later
    → Claims w
    → Claims (with_at (record w { active = before ++ later }) p)
taken-Claims w before later p e h =
    let moved : (g : At → ℕ) → total g w.active ≡ g p + total g (before ++ later) = λ g.
      omega
        (arith, ap (total g) e, total-append g before (p ∷ later), total-append g before later) in
    record {
      fits = λ s. Fit-cong (λ c. moved (mark c s)) (h.fits s);
      known = omega (arith, moved nulls, h.known);
    }

-- One more task at the end of the table.
pub flat-append :
    (ts : List (Option Task)) (o : Option Task) (s : ℕ)
    → (flat (get_elem? (ts ++ o ∷ []) s) ≡ flat (get_elem? ts s))
      ⊎ ((flat (get_elem? (ts ++ o ∷ []) s) ≡ o) × (flat (get_elem? ts s) ≡ none))
flat-append [] o zero = inr (refl, refl)
flat-append [] o (suc s) = inl refl
flat-append (x ∷ ts) o zero = inl refl
flat-append (x ∷ ts) o (suc s) = flat-append ts o s

pub make_task-Claims : (w : World) → Claims w → Claims (thread_task_new w).0
unfolding thread_task_new
make_task-Claims w h = record {
  fits = λ s. elim (flat-append w.tasks (some new_task) s) [
    | inl old ↦ subst (λ o. Fit o (marks w s)) (sym old) (h.fits s)
    | inr (fresh, absent) ↦
        subst (λ o. Fit o (marks w s)) (sym fresh)
          (worker-Fit (marks w s) refl refl refl (subst (λ o. Fit o (marks w s)) absent (h.fits s)))
  ];
  known = h.known;
}

pub new_world-Claims : (n : ℕ) → Claims (new_world n)
new_world-Claims n = record { fits = λ s. ground arith; known = refl }
