-- ===== src/Libcoro/Returns.antt =====
-- The value that a coroutine returned: it stays until a join of it gives it.
use mathlib.Core.Path.{subst}
use native.Mathlib.Decide.{ℕ_discrete}
use system_prog.Common.{
  ◌≤◌, ℕ, ◌≡◌, ◌⊎◌, ◌∙◌, refl, sym, ap, Bool, true, false, not, Option, none, some, List, [], ◌∷◌,
  ◌++◌, is_empty, get_elem?, get_elem?-set_self, get_elem?-set_ne, set, total, arith, inl, inr,
}
use system_prog.Libcoro.Places.{end_state, ended}
use system_prog.Libcoro.{
  Context, begins, restarts, returns, joins, Coro, Who, sched, coroutine, Engine, Assertion,
  still_linked, this_left, not_running, no_func, coros_left, Outcome, goes, gives, fails, deadlock,
  strays, assert, same, unlinked, is_running, is_none, put, enter_at, enter, coros_of, begin_round,
  coro_engine_run, resume, resume_next,
}

abbrev pub ret_in : Option Coro → ℕ
ret_in none = 0
ret_in (some k) = k.ret

-- Coroutine `c` has returned a value that no join of it gave.
pub record Returned (e : Engine) (c v : ℕ) : Type 0 where
  pub over : ended (get_elem? e.coros c) ≡ 1
  pub value : ret_in (get_elem? e.coros c) ≡ v
  pub unpooled : total (same c) e.pool ≡ 0

-- After a step it still has, or the step gave the value.
pub record Retains (c v : ℕ) (o : Outcome) : Type 0 where
  pub going : (e : Engine) → o ≡ goes e → Returned e c v
  pub giving :
      (e : Engine) (w : ℕ)
      → o ≡ gives e w
      → Returned e c v ⊎ ((w ≡ v) × (1 ≤ total (same c) e.pool))

module _ {c v : ℕ} where
  pub fails-Retains : (a : Assertion) → Retains c v (fails a)
  fails-Retains a = record { going = λ e q. cc; giving = λ e w q. cc }

  pub deadlock-Retains : Retains c v deadlock
  deadlock-Retains = record { going = λ e q. cc; giving = λ e w q. cc }

  pub strays-Retains : Retains c v strays
  strays-Retains = record { going = λ e q. cc; giving = λ e w q. cc }

  pub goes-Retains : (e : Engine) → Returned e c v → Retains c v (goes e)
  goes-Retains e r = record {
    going = λ x q. let s : e ≡ x = cc in subst (λ y. Returned y c v) s r;
    giving = λ x w q. cc;
  }

  pub gives-Retains :
      (e : Engine) (w : ℕ)
      → Returned e c v ⊎ ((w ≡ v) × (1 ≤ total (same c) e.pool))
      → Retains c v (gives e w)
  gives-Retains e w r = record {
    going = λ x q. cc;
    giving = λ x u q.
        let s : e ≡ x = cc in
        let t : w ≡ u = cc in
        elim r [
          | inl old ↦ inl (subst (λ y. Returned y c v) s old)
          | inr (now, pool) ↦
              inr (sym t ∙ now, omega (arith, pool, ap (λ y. total (same c) y.pool) s))
        ];
  }

  pub assert-Retains :
      (b : Bool) (a : Assertion) (o : Outcome)
      → (b ≡ true → Retains c v o)
      → Retains c v (assert b a o)
  assert-Retains true a o h = h refl
  assert-Retains false a o h = fails-Retains a

  -- A coroutine changes that has not ended, or that keeps its state and its value.
  pub put-Returned :
      (e : Engine) (x : ℕ) (k k' : Coro)
      → get_elem? e.coros x ≡ some k
      → (end_state k.state ≡ 0) ⊎ ((end_state k'.state ≡ end_state k.state) × (k'.ret ≡ k.ret))
      → Returned e c v
      → Returned (put e x k') c v
  put-Returned e x k k' at how r = elim (ℕ_discrete x c) [
    | yes s ↦
        let now : get_elem? (set e.coros x k') c ≡ some k' =
          subst (λ i. get_elem? (set e.coros x k') i ≡ some k') s
            (get_elem?-set_self e.coros x k' at) in
        let before : get_elem? e.coros c ≡ some k =
          subst (λ i. get_elem? e.coros i ≡ some k) s at in
        elim how [
          | inl open_end ↦ absurd (omega (arith, r.over, ap ended before, open_end))
          | inr kept ↦ record {
            over = omega (arith, ap ended now, kept.0, ap ended before, r.over);
            value = ap ret_in now ∙ kept.1 ∙ sym (ap ret_in before) ∙ r.value;
            unpooled = r.unpooled;
          }
        ]
    | no ne ↦
        let same_c = get_elem?-set_ne e.coros x c k' ne in
        record {
          over = ap ended same_c ∙ r.over;
          value = ap ret_in same_c ∙ r.value;
          unpooled = r.unpooled;
        }
  ]

  -- The lists of the scheduler do not matter.
  pub like-Returned :
      (e e' : Engine) → e'.coros ≡ e.coros → e'.pool ≡ e.pool → Returned e c v → Returned e' c v
  like-Returned e e' q p r = record {
    over = ap (λ cs. ended (get_elem? cs c)) q ∙ r.over;
    value = ap (λ cs. ret_in (get_elem? cs c)) q ∙ r.value;
    unpooled = ap (total (same c)) p ∙ r.unpooled;
  }

  enter_at-Retains :
      (e : Engine) (x : ℕ) (k : Coro) (to : Context)
      → get_elem? e.coros x ≡ some k
      → Returned e c v
      → Retains c v (enter_at e x k to)
  unfolding enter_at
  enter_at-Retains e x k begins at r = goes-Retains _ (
      like-Returned (put e x (record k { ctx = returns })) _ refl refl
        (put-Returned e x k (record k { ctx = returns }) at (inr (refl, refl)) r))
  enter_at-Retains e x k restarts at r = assert-Retains (unlinked e x) still_linked _ (λ _.
      assert-Retains (is_none e.this_coro) this_left _ (λ _.
        assert-Retains (is_running k.state) not_running _ (λ _.
          assert-Retains (not (is_none k.func)) no_func _ (λ _. goes-Retains _ (
            like-Returned (put e x (record k { ctx = returns })) _ refl refl
              (put-Returned e x k (record k { ctx = returns }) at (inr (refl, refl)) r))))))
  enter_at-Retains e x k (joins d) at r = assert-Retains (unlinked e x) still_linked _ (λ _.
      assert-Retains (is_none e.this_coro) this_left _
        (λ _. goes-Retains _ (like-Returned e _ refl refl r)))
  enter_at-Retains e x k returns at r = assert-Retains (unlinked e x) still_linked _ (λ _.
      assert-Retains (is_none e.this_coro) this_left _
        (λ _. goes-Retains _ (like-Returned e _ refl refl r)))

  enter-Retains :
      (e : Engine) (x : ℕ) (o : Option Coro)
      → get_elem? e.coros x ≡ o
      → Returned e c v
      → Retains c v (enter e x o)
  unfolding enter
  enter-Retains e x none at r = strays-Retains
  enter-Retains e x (some k) at r = enter_at-Retains e x k k.ctx at r

  begin_round-Retains : (e : Engine) (cs : List ℕ) → Returned e c v → Retains c v (begin_round e cs)
  unfolding begin_round
  begin_round-Retains e [] r = goes-Retains e r
  begin_round-Retains e (x ∷ cs) r =
      let e' = record e { running_now = coros_of cs ++ sched ∷ []; running_next = [] } in
      assert-Retains (is_none e.this_coro) this_left _
        (λ _. enter-Retains e' x (get_elem? e.coros x) refl (like-Returned e e' refl refl r))

  pub coro_engine_run-Retains : (e : Engine) → Returned e c v → Retains c v (coro_engine_run e)
  unfolding coro_engine_run
  coro_engine_run-Retains e r =
      assert-Retains (is_empty e.running_now) coros_left _
        (λ _. begin_round-Retains e e.running_next r)

  resume-Retains : (e : Engine) (now : List Who) → Returned e c v → Retains c v (resume e now)
  unfolding resume
  resume-Retains e [] r = fails-Retains _
  resume-Retains e (sched ∷ rest) r =
      let e' = record e { running_now = rest; this_coro = none } in
      coro_engine_run-Retains e' (like-Returned e e' refl refl r)
  resume-Retains e (coroutine x ∷ rest) r =
      let e' = record e { running_now = rest; this_coro = none } in
      enter-Retains e' x (get_elem? e.coros x) refl (like-Returned e e' refl refl r)

  pub resume_next-Retains : (e : Engine) → Returned e c v → Retains c v (resume_next e)
  unfolding resume_next
  resume_next-Retains e r = resume-Retains e e.running_now r
