-- ===== src/ThreadPool/Balance/Keeps.antt =====
-- Every step of a call and of a worker keeps the invariant of the pool.
use system_prog.Common.{
  ℕ, ◌+◌, ◌≤◌, ◌≡◌, ◌≢◌, ◌∙◌, refl, sym, ap, Bool, true, false, Option, none, some, List, [], ◌∷◌,
  ◌++◌, ◌==◌, if◌then◌else◌, get_elem?, set, total, total-append, arith,
}
use system_prog.ThreadPool.Balance.{
  one, weight, queued_state, running_state, queued_in, running_in, pool_in, owes, refunds, brings,
  runs, named, holders, runners, Inv, Changes-Inv,
}
use system_prog.ThreadPool.{
  TaskState, new, queued, running, finished, joined, Task, At, join_drop, World, flat, task_at,
  put_task, is_busy, Outcome, goes, returns, waits, crashes, drop_one, join_loop, timed_join_end,
  delete_task, detach_pushed, delete_free, detach_drop,
}

-- The world with one more thread in it.
abbrev pub with_at : World → At → World
with_at w p = record w { active = p ∷ w.active }

abbrev pub After : Outcome → Type 0
After (goes w q) = Inv (with_at w q)
After (returns w c) = Inv w
After waits = Unit
After crashes = Unit

-- A change that leaves the tasks as they are.
pub record Same (w v : World) : Type 0 where
  pub tasks : v.tasks ≡ w.tasks
  pub counter :
      v.added + w.subtracted + total owes w.active + total refunds v.active
      ≡ w.added + v.subtracted + total owes v.active + total refunds w.active
  pub held : (s : ℕ) → holders v s ≡ holders w s
  pub run : (s : ℕ) → runners v s ≡ runners w s

pub Same-Inv : {w v : World} → Same w v → Inv w → Inv v
Same-Inv {w} {v} c h =
    let at : (s : ℕ) → task_at v s ≡ task_at w s = λ s. ap (λ ts. flat (get_elem? ts s)) c.tasks in
    record {
      counted = omega (arith, h.counted, c.counter, ap (total weight) c.tasks);
      queued_once = λ s. ap queued_in (at s) ∙ h.queued_once s ∙ sym (c.held s);
      running_once = λ s. ap running_in (at s) ∙ h.running_once s ∙ sym (c.run s);
      pooled = λ s. omega (arith, ap weight (at s), ap pool_in (at s), h.pooled s);
    }

-- The thread `p` goes on as `q`, ends, or ends with a subtraction; the tasks stay as they are.
pub record Alike (p q : At) : Type 0 where
  pub owed : owes p ≡ owes q
  pub refunded : refunds p ≡ refunds q
  pub brought : (s : ℕ) → brings s p ≡ brings s q
  pub ran : (s : ℕ) → runs s p ≡ runs s q

pub record Free (p : At) : Type 0 where
  pub owed : owes p ≡ 0
  pub refunded : refunds p ≡ 0
  pub brought : (s : ℕ) → brings s p ≡ 0
  pub ran : (s : ℕ) → runs s p ≡ 0

pub goes-Inv : (w : World) {p q : At} → Alike p q → Inv (with_at w p) → Inv (with_at w q)
goes-Inv w f h =
    Same-Inv
      (record {
        tasks = refl;
        counter = omega (arith, f.owed, f.refunded);
        held = λ s. omega (arith, f.brought s);
        run = λ s. omega (arith, f.ran s);
      })
      h

pub returns-Inv : (w : World) {p : At} → Free p → Inv (with_at w p) → Inv w
returns-Inv w f h =
    Same-Inv
      (record {
        tasks = refl;
        counter = omega (arith, f.owed, f.refunded);
        held = λ s. omega (arith, f.brought s);
        run = λ s. omega (arith, f.ran s);
      })
      h

pub under_if : (x y : Outcome) (b : Bool) → After x → After y → After (if b then x else y)
under_if x y true p q = p
under_if x y false p q = q

pub one_self : (t : ℕ) → one (t == t) ≡ 1
one_self t = ground arith

pub one-ne : (t s : ℕ) → t ≢ s → one (t == s) ≡ 0
one-ne t s h = ground arith

pub one-le : (b : Bool) → one b ≤ 1
one-le b = ground arith

pub idle :
    (k : Task) → is_busy k.state ≡ false → (queued_in (some k) ≡ 0) × (running_in (some k) ≡ 0)
idle k h = ground arith

pub free :
    {p : At}
    → owes p ≡ 0
    → refunds p ≡ 0
    → ((s : ℕ) → brings s p ≡ 0)
    → ((s : ℕ) → runs s p ≡ 0)
    → Free p
free a r b c = record { owed = a; refunded = r; brought = b; ran = c }

-- The task `t` is `k`, and the thread `p` has it in no way.
module _ (w : World) (t : ℕ) (k : Task) (at : task_at w t ≡ some k) (p : At) (f : Free p)
    (h : Inv (with_at w p)) where
  -- What a task that is neither queued nor running becomes.
  becomes :
      (o : Option Task) (v : World) (q : List At)
      → v.tasks ≡ set w.tasks t o
      → v.active ≡ q ++ w.active
      → v.queue ≡ w.queue
      → v.added + w.subtracted + weight (some k) ≡ w.added + v.subtracted + weight o + total owes q
      → total refunds q ≡ 0
      → ((s : ℕ) → total (brings s) q ≡ 0)
      → ((s : ℕ) → total (runs s) q ≡ 0)
      → queued_in o ≡ queued_in (some k)
      → running_in o ≡ running_in (some k)
      → weight o ≤ pool_in o
      → Inv v
  becomes o v q ts as' qs counter back b r same_queued same_running knows =
      let act : (g : At → ℕ) → total g v.active ≡ total g q + total g w.active =
        λ g. ap (total g) as' ∙ total-append g q w.active in
      let queue : (s : ℕ) → total (named s) v.queue ≡ total (named s) w.queue =
        λ s. ap (total (named s)) qs in
      Changes-Inv {w = with_at w p} {t = t} {k = k} {o = o}
        (record {
          tasks = ts;
          counter = omega (arith, counter, back, f.owed, f.refunded, act owes, act refunds);
          held = omega (arith, same_queued, f.brought t, b t, act (brings t), queue t);
          held_else = λ s ne. omega (arith, f.brought s, b s, act (brings s), queue s);
          run = omega (arith, same_running, f.ran t, r t, act (runs t));
          run_else = λ s ne. omega (arith, f.ran s, r s, act (runs s));
          knows = knows;
        })
        at h

  knows_pool : is_busy k.state ≡ true → k.pool ≡ true
  knows_pool busy =
      let b : 1 ≤ one k.pool =
        omega (arith, h.pooled t, ap weight at, ap pool_in at, ap one busy) in
      ground arith

  pub join_loop-Inv : (s : TaskState) → k.state ≡ s → After (join_loop w t k s)
  unfolding join_loop
  join_loop-Inv new e =
      goes-Inv w (record { owed = f.owed; refunded = f.refunded; brought = f.brought; ran = f.ran })
        h
  join_loop-Inv queued e =
      goes-Inv w (record { owed = f.owed; refunded = f.refunded; brought = f.brought; ran = f.ran })
        h
  join_loop-Inv running e =
      goes-Inv w (record { owed = f.owed; refunded = f.refunded; brought = f.brought; ran = f.ran })
        h
  join_loop-Inv finished e =
      let pool = knows_pool (ap is_busy e) in
      becomes (some (record k { pool = false; state = joined })) _ (join_drop k.pool ∷ []) refl refl
        refl (omega (arith, ap one pool, ap (λ s. one (is_busy s)) e)) refl (λ s. refl) (λ s. refl)
        (sym (ap queued_state e)) (sym (ap running_state e)) (omega arith)
  join_loop-Inv joined e = returns-Inv w f h

  pub timed_join_end-Inv : k.state ≡ finished → After (timed_join_end w t k)
  unfolding timed_join_end
  timed_join_end-Inv e =
      under_if _ _ k.pool
        (becomes (some (record k { state = joined }))
          (drop_one (put_task w t (some (record k { state = joined })))) [] refl refl refl
          (omega (arith, ap (λ s. one (is_busy s)) e)) refl (λ s. refl) (λ s. refl)
          (sym (ap queued_state e)) (sym (ap running_state e)) (omega arith))
        tt

  -- The task is deleted.
  pub freed-Inv :
      (q : List At)
      → weight (some k) ≡ total owes q
      → total refunds q ≡ 0
      → ((s : ℕ) → total (brings s) q ≡ 0)
      → ((s : ℕ) → total (runs s) q ≡ 0)
      → queued_in (some k) ≡ 0
      → running_in (some k) ≡ 0
      → Inv (record (put_task w t none) { active = q ++ w.active })
  freed-Inv q counter back b r not_queued not_running =
      becomes none _ q refl refl refl (omega (arith, counter)) back b r (sym not_queued)
        (sym not_running) (omega arith)

  pub delete_task-Inv : Alike p (delete_free t) → After (delete_task w t (some k))
  unfolding delete_task
  delete_task-Inv alike = under_if _ _ (is_busy k.state) (returns-Inv w f h) (goes-Inv w alike h)

  detach_mark : Inv (put_task w t (some (record k { detached = true })))
  detach_mark =
      becomes (some (record k { detached = true }))
        (put_task w t (some (record k { detached = true }))) [] refl refl refl (omega arith) refl
        (λ s. refl) (λ s. refl) refl refl (omega (arith, h.pooled t, ap weight at, ap pool_in at))

  pub detach_pushed-Inv :
      Alike p (detach_drop t) → (s : TaskState) → k.state ≡ s → After (detach_pushed w t k s)
  unfolding detach_pushed
  detach_pushed-Inv alike finished e = goes-Inv w alike h
  detach_pushed-Inv alike new e = detach_mark
  detach_pushed-Inv alike queued e = detach_mark
  detach_pushed-Inv alike running e = detach_mark
  detach_pushed-Inv alike joined e = detach_mark
