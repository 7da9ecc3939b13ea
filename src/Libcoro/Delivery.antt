-- ===== src/Libcoro/Delivery.antt =====
-- `coro_join` gives what the coroutine returned.
use mathlib.Core.Path.{subst}
use system_prog.Common.{
  ℕ, ◌≤◌, ◌≡◌, ◌∙◌, refl, sym, ap, none, some, get_elem?, total, arith, inl, inr,
}
use system_prog.Libcoro.Places.{Kept}
use system_prog.Libcoro.Switch.{hand_runs}
use system_prog.Libcoro.Waits.{state_le_one}
use system_prog.Libcoro.Reached.{Reach, Reach-Safe}
use system_prog.Libcoro.Returns.{Returned}
use system_prog.Libcoro.Given.{step-Retains, finish-Retains}
use system_prog.Libcoro.Calls.{
  Call, coro_finish, finish_coro, finish_this, call, joining, step_from, step,
}
use system_prog.Libcoro.{Engine, goes, gives, same}

-- Steps in which no join puts `c` into the pool.
pub data Until (c : ℕ) : Engine → Engine → Type 0 where
  at_once : {e : Engine} → Until c e e
  goes_on :
      {e e' e'' : Engine} (next : Call) → Until c e e' → step e' next ≡ goes e'' → Until c e e''
  gives_on :
      {e e' e'' : Engine} (next : Call) (w : ℕ)
      → Until c e e'
      → step e' next ≡ gives e'' w
      → total (same c) e''.pool ≡ 0
      → Until c e e''

Until-Returned : (c v : ℕ) {e e' : Engine} → Until c e e' → Returned e c v → Returned e' c v
Until-Returned c v at_once r = r
Until-Returned c v (goes_on {e} {e'} {e''} next u q) r =
    (step-Retains e' next (Until-Returned c v u r)).going e'' q
Until-Returned c v (gives_on {e} {e'} {e''} next w u q free) r =
    elim ((step-Retains e' next (Until-Returned c v u r)).giving e'' w q) [
      | inl old ↦ old
      | inr (now, pool) ↦ absurd (omega (arith, pool, free))
    ]

finish_step :
    (e : Engine) (c v : ℕ)
    → e.this_coro ≡ some c
    → joining e ≡ none
    → step e (coro_finish v) ≡ finish_coro e v c (get_elem? e.coros c)
unfolding step step_from call finish_this
finish_step e c v this out = ap (step_from e (coro_finish v)) out ∙ ap (finish_this e v) this

-- In every state that allowed steps lead to: where the function of the current coroutine, which is not
-- inside a join, returns a value, then after any steps in which that coroutine is not joined, the step
-- that joins it gives this value, whatever coroutines ran, ended, were joined or made in between.
pub join-finish :
    {e e1 e2 e3 : Engine} (c v w : ℕ) (next : Call)
    → Reach e
    → e.this_coro ≡ some c
    → joining e ≡ none
    → step e (coro_finish v) ≡ goes e1
    → Until c e1 e2
    → step e2 next ≡ gives e3 w
    → 1 ≤ total (same c) e3.pool
    → w ≡ v
join-finish {e} {e1} {e2} {e3} c v w next reach this out ends between joins joined =
    let kept = (Reach-Safe reach).kept in
    let free : total (same c) e.pool ≡ 0 = omega (
      arith,
      kept.pooled c,
      hand_runs e c (subst (Kept e) this kept),
      state_le_one (get_elem? e.coros c),
    ) in
    let first =
      (finish-Retains e (get_elem? e.coros c) refl free).going e1
        (sym (finish_step e c v this out) ∙ ends) in
    elim ((step-Retains e2 next (Until-Returned c v between first)).giving e3 w joins) [
      | inl old ↦ absurd (omega (arith, old.unpooled, joined))
      | inr (now, pool) ↦ now
    ]
