-- ===== src/ThreadPool/Claims/Moves.antt =====
-- One thread makes a step at one task.
use mathlib.Core.Path.{subst}
use native.Mathlib.Decide.{ℕ_discrete}
use system_prog.Common.{
  ℕ, ◌+◌, ◌≡◌, ◌≢◌, ◌∙◌, refl, sym, ap, true, false, Bool, Option, some, ◌==◌, if◌then◌else◌,
  get_elem?, set, total, arith,
}
use system_prog.ThreadPool.Balance.{one, task_at-put_self, task_at-put_ne}
use system_prog.ThreadPool.Balance.Keeps.{with_at, one_self, one-ne}
use system_prog.ThreadPool.Claims.{
  Kind, user, other, kind_of, task_of, is_kind, mark, marks, nulls, Fit, Fit-cong, Claims, more,
}
use system_prog.ThreadPool.{
  Task, At, worker_wait, World, flat, task_at, put_task, Outcome, goes, returns, waits, crashes,
}

abbrev pub After : Outcome → Type 0
After (goes w q) = Claims (with_at w q)
After (returns w code) = Claims w
After waits = Unit
After crashes = Unit

-- The thread has to do with task `t` in this way, and with no other.
abbrev pub Stands : ℕ → Kind → At → Type 0
Stands t x p = (c : Kind) (s : ℕ) → mark c s p ≡ (if is_kind c x then one (t == s) else 0)

pub is_kind-other : (c : Kind) → is_kind c other ≡ false
is_kind-other user = refl
is_kind-other _ = refl

pub Stands-other : (t : ℕ) (p : At) → kind_of p ≡ other → Stands t other p
Stands-other t p e =
    λ c s. ap (λ x. if is_kind c x then one (task_of p == s) else 0) e ∙ rw (is_kind-other c) refl

pub other-mark : (c : Kind) (s : ℕ) (p : At) → kind_of p ≡ other → mark c s p ≡ 0
other-mark c s p e = Stands-other s p e c s ∙ rw (is_kind-other c) refl

if_self : (b : Bool) (n : ℕ) → n ≡ 1 → (if b then n else 0) ≡ one b
if_self true n e = e
if_self false n e = refl

if_zero : (b : Bool) (n : ℕ) → n ≡ 0 → (if b then n else 0) ≡ 0
if_zero true n e = e
if_zero false n e = refl

module _ {w v : World} {p : At} (q : At) (t : ℕ) (x y : Kind) (here : Stands t x p)
    (there : Stands t y q) where
  pub moves-Claims :
      ((s : ℕ) → t ≢ s → task_at v s ≡ task_at w s)
      → ((c : Kind) (s : ℕ) → total (mark c s) v.active ≡ mark c s q + total (mark c s) w.active)
      → total nulls v.active ≡ nulls q + total nulls w.active
      → nulls q ≡ 0
      → (Fit (task_at w t) (more x (marks w t)) → Fit (task_at v t) (more y (marks w t)))
      → Claims (with_at w p)
      → Claims v
  moves-Claims others counts null known fit h = record {
    fits = λ s. elim (ℕ_discrete t s) [
      | yes e ↦
          subst (λ r. Fit (task_at v r) (marks v r)) e
            (Fit-cong (λ c. sym (counts c t ∙ ap (λ n. n + marks w t c) (self q y there c)))
              (fit (Fit-cong (λ c. ap (λ n. n + marks w t c) (self p x here c)) (h.fits t))))
      | no ne ↦
          Fit-cong (λ c. sym (counts c s ∙ away c s ne))
            (subst (λ o. Fit o (marks (with_at w p) s)) (sym (others s ne)) (h.fits s))
    ];
    known = omega (arith, null, known, h.known);
  }
    where
      self : (r : At) (z : Kind) → Stands t z r → (c : Kind) → mark c t r ≡ one (is_kind c z)
      self r z e c = e c t ∙ if_self (is_kind c z) (one (t == t)) (one_self t)

      away :
          (c : Kind) (s : ℕ)
          → t ≢ s
          → mark c s q + total (mark c s) w.active ≡ mark c s p + total (mark c s) w.active
      away c s ne =
          ap (λ n. n + total (mark c s) w.active)
            (there c s
              ∙ if_zero (is_kind c y) (one (t == s)) (one-ne t s ne)
              ∙ sym (here c s ∙ if_zero (is_kind c x) (one (t == s)) (one-ne t s ne)))

same_at : (w v : World) → v.tasks ≡ w.tasks → (s : ℕ) → task_at v s ≡ task_at w s
same_at w v tasks s = ap (λ ts. flat (get_elem? ts s)) tasks

put_at :
    (w v : World) (t : ℕ) (o : Option Task)
    → v.tasks ≡ set w.tasks t o
    → (s : ℕ) → task_at v s ≡ task_at (put_task w t o) s
put_at w v t o tasks s = ap (λ ts. flat (get_elem? ts s)) tasks

-- The tasks stay.
module _ {w v : World} {p : At} (t : ℕ) (x : Kind) (here : Stands t x p) (tasks : v.tasks ≡ w.tasks)
    (active : v.active ≡ w.active) where
  pub goes-Claims :
      {q : At} (y : Kind)
      → Stands t y q
      → nulls q ≡ 0
      → (Fit (task_at w t) (more x (marks w t)) → Fit (task_at w t) (more y (marks w t)))
      → Claims (with_at w p)
      → Claims (with_at v q)
  goes-Claims {q} y there known fit =
      moves-Claims {w = w} {v = with_at v q} q t x y here there (λ s ne. same_at w v tasks s)
        (λ c s. ap (λ a. mark c s q + total (mark c s) a) active)
        (ap (λ a. nulls q + total nulls a) active) known
        (λ f. subst (λ o. Fit o (more y (marks w t))) (sym (same_at w v tasks t)) (fit f))

  pub returns-Claims :
      (Fit (task_at w t) (more x (marks w t)) → Fit (task_at w t) (more other (marks w t)))
      → Claims (with_at w p)
      → Claims v
  returns-Claims fit =
      moves-Claims {w = w} {v = v} worker_wait t x other here (Stands-other t worker_wait refl)
        (λ s ne. same_at w v tasks s)
        (λ c s. omega (arith, ap (total (mark c s)) active, other-mark c s worker_wait refl))
        (omega (arith, ap (total nulls) active)) refl
        (λ f. subst (λ o. Fit o (more other (marks w t))) (sym (same_at w v tasks t)) (fit f))

-- Task `t` changes.
module _ {w v : World} {p : At} {k : Task} {o : Option Task} (t : ℕ) (at : task_at w t ≡ some k)
    (x : Kind) (here : Stands t x p) (tasks : v.tasks ≡ set w.tasks t o) where
  pub put_moves-Claims :
      (q : At) (y : Kind)
      → Stands t y q
      → ((c : Kind) (s : ℕ) → total (mark c s) v.active ≡ mark c s q + total (mark c s) w.active)
      → total nulls v.active ≡ nulls q + total nulls w.active
      → nulls q ≡ 0
      → (Fit (some k) (more x (marks w t)) → Fit o (more y (marks w t)))
      → Claims (with_at w p)
      → Claims v
  put_moves-Claims q y there counts null known fit =
      moves-Claims {w = w} {v = v} q t x y here there
        (λ s ne. put_at w v t o tasks s ∙ task_at-put_ne w t s o ne) counts null known
        (λ f.
          subst (λ r. Fit r (more y (marks w t)))
            (sym (put_at w v t o tasks t ∙ task_at-put_self w t o at))
            (fit (subst (λ r. Fit r (more x (marks w t))) at f)))

module _ {w v : World} {p : At} {k : Task} {o : Option Task} (t : ℕ) (at : task_at w t ≡ some k)
    (x : Kind) (here : Stands t x p) (tasks : v.tasks ≡ set w.tasks t o)
    (active : v.active ≡ w.active) where
  pub put_goes-Claims :
      {q : At} (y : Kind)
      → Stands t y q
      → nulls q ≡ 0
      → (Fit (some k) (more x (marks w t)) → Fit o (more y (marks w t)))
      → Claims (with_at w p)
      → Claims (with_at v q)
  put_goes-Claims {q} y there known fit =
      put_moves-Claims {v = with_at v q} t at x here tasks q y there
        (λ c s. ap (λ a. mark c s q + total (mark c s) a) active)
        (ap (λ a. nulls q + total nulls a) active) known fit

  pub put_returns-Claims :
      (Fit (some k) (more x (marks w t)) → Fit o (more other (marks w t)))
      → Claims (with_at w p)
      → Claims v
  put_returns-Claims fit =
      put_moves-Claims {v = v} t at x here tasks worker_wait other (Stands-other t worker_wait refl)
        (λ c s. omega (arith, ap (total (mark c s)) active, other-mark c s worker_wait refl))
        (omega (arith, ap (total nulls) active)) refl fit
