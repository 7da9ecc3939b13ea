-- ===== src/Libcoro/Values.antt =====
-- What a coroutine that leaves does to the value that another one returned.
use system_prog.Common.{
  ℕ, ◌≡◌, refl, ap, Bool, true, false, Option, none, some, [], ◌∷◌, ◌++◌, get_elem?, inl, inr,
}
use system_prog.Libcoro.Places.{end_state}
use system_prog.Libcoro.Returns.{
  Returned, Retains, fails-Retains, deadlock-Retains, strays-Retains, assert-Retains, put-Returned,
  like-Returned, resume_next-Retains,
}
use system_prog.Libcoro.Calls.{
  suspend_coro, suspend_this, yield_coro, yield_this, wakeup_in, wakeup_coro, wakeup_joiner,
  finish_coro, finish_this,
}
use system_prog.Libcoro.{
  CoroState, running, suspended, finished, Context, restarts, returns, Coro, Engine, Assertion,
  still_linked, not_running, Outcome, goes, assert, and_then, unlinked, is_running, put,
  resume_next,
}

running_open : (s : CoroState) → is_running s ≡ true → end_state s ≡ 0
running_open running q = refl
running_open suspended q = cc
running_open finished q = cc

module _ {c v : ℕ} where
  suspend_coro-Retains :
      (e : Engine) (x : ℕ) (to : Context) (o : Option Coro)
      → get_elem? e.coros x ≡ o
      → Returned e c v
      → Retains c v (suspend_coro e x to o)
  unfolding suspend_coro
  suspend_coro-Retains e x to none at r = strays-Retains
  suspend_coro-Retains e x to (some k) at r = assert-Retains (unlinked e x) still_linked _ (λ _.
      assert-Retains (is_running k.state) not_running _ (λ q. resume_next-Retains _ (
        put-Returned e x k (record k { state = suspended; ctx = to }) at
          (inl (running_open k.state q)) r)))

  pub suspend_this-Retains :
      (e : Engine) (to : Context) (t : Option ℕ)
      → Returned e c v
      → Retains c v (suspend_this e to t)
  unfolding suspend_this
  suspend_this-Retains e to none r = deadlock-Retains
  suspend_this-Retains e to (some x) r = suspend_coro-Retains e x to (get_elem? e.coros x) refl r

  yield_coro-Retains :
      (e : Engine) (x : ℕ) (o : Option Coro)
      → get_elem? e.coros x ≡ o
      → Returned e c v
      → Retains c v (yield_coro e x o)
  unfolding yield_coro
  yield_coro-Retains e x none at r = strays-Retains
  yield_coro-Retains e x (some k) at r =
      let e' = put e x (record k { ctx = returns }) in
      assert-Retains (unlinked e x) still_linked _ (λ _.
        assert-Retains (is_running k.state) not_running _ (λ _.
          resume_next-Retains (record e' { running_next = e.running_next ++ x ∷ [] })
            (like-Returned e' _ refl refl
              (put-Returned e x k (record k { ctx = returns }) at (inr (refl, refl)) r))))

  pub yield_this-Retains :
      (e : Engine) (t : Option ℕ) → Returned e c v → Retains c v (yield_this e t)
  unfolding yield_this
  yield_this-Retains e none r = strays-Retains
  yield_this-Retains e (some x) r = yield_coro-Retains e x (get_elem? e.coros x) refl r

  -- A wakeup, and what is behind it.
  module _ (f : Engine → Outcome)
      (f_Retains : (e : Engine) → Returned e c v → Retains c v (f e)) where
    and_then-assert :
        (b : Bool) (a : Assertion) (e : Engine)
        → Retains c v (f e)
        → Retains c v (and_then (assert b a (goes e)) f)
    and_then-assert true a e h = h
    and_then-assert false a e h = fails-Retains a

    wakeup_in-Retains :
        (e : Engine) (d : ℕ) (m : Coro) (s : CoroState)
        → get_elem? e.coros d ≡ some m
        → m.state ≡ s
        → Returned e c v
        → Retains c v (and_then (wakeup_in e d m s) f)
    unfolding wakeup_in
    wakeup_in-Retains e d m running at q r = f_Retains e r
    wakeup_in-Retains e d m finished at q r = f_Retains e r
    wakeup_in-Retains e d m suspended at q r =
        let e' = put e d (record m { state = running }) in
        and_then-assert (unlinked e d) still_linked
          (record e' { running_next = e.running_next ++ d ∷ [] })
          (f_Retains _ (
            like-Returned e' _ refl refl
              (put-Returned e d m (record m { state = running }) at (inl (ap end_state q)) r)))

    wakeup_coro-Retains :
        (e : Engine) (d : ℕ) (o : Option Coro)
        → get_elem? e.coros d ≡ o
        → Returned e c v
        → Retains c v (and_then (wakeup_coro e d o) f)
    unfolding wakeup_coro
    wakeup_coro-Retains e d none at r = strays-Retains
    wakeup_coro-Retains e d (some m) at r = wakeup_in-Retains e d m m.state at refl r

    pub wakeup_joiner-Retains :
        (e : Engine) (o : Option ℕ) → Returned e c v → Retains c v (and_then (wakeup_joiner e o) f)
    unfolding wakeup_joiner
    wakeup_joiner-Retains e none r = f_Retains e r
    wakeup_joiner-Retains e (some j) r = wakeup_coro-Retains e j (get_elem? e.coros j) refl r

  finish_coro-Retains :
      (e : Engine) (value x : ℕ) (o : Option Coro)
      → get_elem? e.coros x ≡ o
      → Returned e c v
      → Retains c v (finish_coro e value x o)
  unfolding finish_coro
  finish_coro-Retains e value x none at r = strays-Retains
  finish_coro-Retains e value x (some k) at r =
      assert-Retains (is_running k.state) not_running _ (λ q.
        wakeup_joiner-Retains resume_next resume_next-Retains _ k.joiner (
          put-Returned e x k
            (record k { ret = value; func = none; state = finished; ctx = restarts }) at
            (inl (running_open k.state q)) r))

  pub finish_this-Retains :
      (e : Engine) (value : ℕ) (t : Option ℕ) → Returned e c v → Retains c v (finish_this e value t)
  unfolding finish_this
  finish_this-Retains e value none r = strays-Retains
  finish_this-Retains e value (some x) r =
      finish_coro-Retains e value x (get_elem? e.coros x) refl r
