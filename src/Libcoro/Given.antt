-- ===== src/Libcoro/Given.antt =====
-- What each call does to the value that a coroutine returned.
use mathlib.Core.Path.{subst}
use native.Mathlib.Decide.{ℕ_discrete}
use system_prog.Common.{
  ℕ, ◌+◌, ◌≡◌, ◌≢◌, ◌∙◌, refl, sym, ap, Option, none, some, List, [], ◌∷◌, ◌++◌, ◌==◌, if_both,
  length, get_elem?, get_elem?-length, get_elem?-append_ne, get_elem?-set_self, get_elem?-set_ne,
  total, arith, inl, inr,
}
use system_prog.Libcoro.Places.{end_state, ended}
use system_prog.Libcoro.Good.{one-ne, one_self}
use system_prog.Libcoro.Returns.{
  ret_in, Returned, Retains, strays-Retains, goes-Retains, gives-Retains, assert-Retains,
  put-Returned, like-Returned, coro_engine_run-Retains, resume_next-Retains,
}
use system_prog.Libcoro.Values.{
  suspend_this-Retains, yield_this-Retains, finish_this-Retains, wakeup_joiner-Retains,
}
use system_prog.Libcoro.Calls.{
  wakeup_in, wakeup_coro, finish_coro, behind_coro, behind_this, behind_call, join_end, join_loop,
  join_coro, new_coro, spawn_new, respawn, spawn, Call, coro_new, coro_join, coro_wakeup,
  coro_finish, coro_suspend, coro_yield, coro_sched_run, call, joining, step_from, step,
}
use system_prog.Libcoro.{
  CoroState, running, suspended, finished, restarts, returns, joins, Coro, Engine, still_linked,
  not_running, has_joiner, other_joiner, joined_already, one, same, unlinked, is_running,
  is_finished, is_none, same_option, put, resume_next,
}

module _ {c v : ℕ} where
  wakeup_in-Retains :
      (e : Engine) (d : ℕ) (m : Coro) (s : CoroState)
      → get_elem? e.coros d ≡ some m
      → m.state ≡ s
      → Returned e c v
      → Retains c v (wakeup_in e d m s)
  unfolding wakeup_in
  wakeup_in-Retains e d m running at q r = goes-Retains e r
  wakeup_in-Retains e d m finished at q r = goes-Retains e r
  wakeup_in-Retains e d m suspended at q r =
      let e' = put e d (record m { state = running }) in
      assert-Retains (unlinked e d) still_linked _ (λ _. goes-Retains _ (
        like-Returned e' _ refl refl
          (put-Returned e d m (record m { state = running }) at (inl (ap end_state q)) r)))

  wakeup-Retains :
      (e : Engine) (d : ℕ) (o : Option Coro)
      → get_elem? e.coros d ≡ o
      → Returned e c v
      → Retains c v (wakeup_coro e d o)
  unfolding wakeup_coro
  wakeup-Retains e d none at r = strays-Retains
  wakeup-Retains e d (some m) at r = wakeup_in-Retains e d m m.state at refl r

  behind-Returned :
      (e : Engine) (x : ℕ) (o : Option Coro)
      → get_elem? e.coros x ≡ o
      → Returned e c v
      → Returned (behind_coro e x o) c v
  behind-Returned e x none at r = r
  behind-Returned e x (some k) at r =
      put-Returned e x k (record k { ctx = returns }) at (inr (refl, refl)) r

  behind_this-Returned :
      (e : Engine) (t : Option ℕ) → Returned e c v → Returned (behind_this e t) c v
  behind_this-Returned e none r = r
  behind_this-Returned e (some x) r = behind-Returned e x (get_elem? e.coros x) refl r

  -- Another coroutine goes to the pool, changed as it may be.
  pooled-Returned :
      (e : Engine) (d : ℕ) (k : Coro)
      → d ≢ c
      → Returned e c v
      → Returned (record (put e d k) { pool = d ∷ e.pool }) c v
  pooled-Returned e d k ne r = record {
    over = ap ended (get_elem?-set_ne e.coros d c k ne) ∙ r.over;
    value = ap ret_in (get_elem?-set_ne e.coros d c k ne) ∙ r.value;
    unpooled = omega (arith, one-ne d c ne, r.unpooled);
  }

  join_end-Retains :
      (e : Engine) (d : ℕ) (m : Coro)
      → get_elem? e.coros d ≡ some m
      → Returned e c v
      → Retains c v (join_end e d m)
  unfolding join_end
  join_end-Retains e d m at r =
      assert-Retains (same_option m.joiner e.this_coro) other_joiner _ (λ _.
        assert-Retains (unlinked e d) joined_already _ (λ _.
          gives-Retains _ m.ret (elim (ℕ_discrete d c) [
            | yes s ↦ inr (
              sym (ap ret_in at) ∙ ap (λ i. ret_in (get_elem? e.coros i)) s ∙ r.value,
              omega (arith, one_self c, ap (λ i. one (i == c)) s),
            )
            | no ne ↦ inl (
                pooled-Returned (behind_call e) d (record m { joiner = none; ret = 0 }) ne
                  (behind_this-Returned e e.this_coro r))
          ])))

  join_loop-Retains :
      (e : Engine) (d : ℕ) (o : Option Coro)
      → get_elem? e.coros d ≡ o
      → Returned e c v
      → Retains c v (join_loop e d o)
  unfolding join_loop
  join_loop-Retains e d none at r = strays-Retains
  join_loop-Retains e d (some m) at r =
      if_both (Retains c v) (is_finished m.state) _ _ (join_end-Retains e d m at r)
        (suspend_this-Retains e (joins d) e.this_coro r)

  join_coro-Retains :
      (e : Engine) (d : ℕ) (o : Option Coro)
      → get_elem? e.coros d ≡ o
      → Returned e c v
      → Retains c v (join_coro e d o)
  unfolding join_coro
  join_coro-Retains e d none at r = strays-Retains
  join_coro-Retains e d (some m) at r =
      let e' = put e d (record m { joiner = e.this_coro }) in
      assert-Retains (is_none m.joiner) has_joiner _ (λ _.
        join_loop-Retains e' d (get_elem? e'.coros d) refl
          (put-Returned e d m (record m { joiner = e.this_coro }) at (inr (refl, refl)) r))

  spawn_new-Retains : (e : Engine) (f a : ℕ) → Returned e c v → Retains c v (spawn_new e f a)
  unfolding spawn_new
  spawn_new-Retains e f a r =
      let e' = record e { coros = e.coros ++ new_coro f a ∷ []; coro_count = e.coro_count + 1 } in
      let ne : length e.coros ≢ c = λ s.
        let n : get_elem? e.coros c ≡ none =
          subst (λ i. get_elem? e.coros i ≡ none) s (get_elem?-length e.coros) in
        absurd (omega (arith, r.over, ap ended n)) in
      let same_c = get_elem?-append_ne e.coros (new_coro f a) c ne in
      assert-Retains (unlinked e' (length e.coros)) still_linked _ (λ _. gives-Retains _ _ (
        inl (record {
          over = ap ended same_c ∙ r.over;
          value = ap ret_in same_c ∙ r.value;
          unpooled = r.unpooled;
        })))

  spawn-Retains :
      (e : Engine) (f a : ℕ) (pool : List ℕ)
      → e.pool ≡ pool
      → Returned e c v
      → Retains c v (spawn e f a pool)
  unfolding spawn respawn
  spawn-Retains e f a [] q r = spawn_new-Retains e f a r
  spawn-Retains e f a (x ∷ cs) q r = from_pool (get_elem? e.coros x)
    where
      count : one (x == c) + total (same c) cs ≡ 0
      count = sym (ap (total (same c)) q) ∙ r.unpooled

      ne : x ≢ c
      ne s = absurd (omega (arith, count, one_self c, ap (λ i. one (i == c)) s))

      from_pool : (o : Option Coro) → Retains c v (respawn (record e { pool = cs }) x f a o)
      from_pool none = strays-Retains
      from_pool (some k) =
          let k' : Coro = record k { func = some f; func_arg = a; state = running } in
          assert-Retains (unlinked (put (record e { pool = cs }) x k') x) still_linked _ (λ _.
            gives-Retains _ _ (
              inl (record {
                over = ap ended (get_elem?-set_ne e.coros x c k' ne) ∙ r.over;
                value = ap ret_in (get_elem?-set_ne e.coros x c k' ne) ∙ r.value;
                unpooled = omega (arith, count);
              })))

  call-Retains : (e : Engine) (next : Call) → Returned e c v → Retains c v (call e next)
  unfolding call
  call-Retains e (coro_new f a) r = spawn-Retains e f a e.pool refl r
  call-Retains e (coro_join d) r = join_coro-Retains e d _ refl r
  call-Retains e (coro_wakeup d) r = wakeup-Retains e d _ refl r
  call-Retains e (coro_finish w) r = finish_this-Retains e w e.this_coro r
  call-Retains e coro_suspend r = suspend_this-Retains e returns e.this_coro r
  call-Retains e coro_yield r = yield_this-Retains e e.this_coro r
  call-Retains e coro_sched_run r = coro_engine_run-Retains e r

  step_from-Retains :
      (e : Engine) (next : Call) (o : Option ℕ) → Returned e c v → Retains c v (step_from e next o)
  unfolding step_from
  step_from-Retains e next none r = call-Retains e next r
  step_from-Retains e next (some d) r = join_loop-Retains e d _ refl r

  pub step-Retains : (e : Engine) (next : Call) → Returned e c v → Retains c v (step e next)
  unfolding step
  step-Retains e next r = step_from-Retains e next (joining e) r

  -- The end of the coroutine itself.
  pub finish-Retains :
      (e : Engine) (o : Option Coro)
      → get_elem? e.coros c ≡ o
      → total (same c) e.pool ≡ 0
      → Retains c v (finish_coro e v c o)
  unfolding finish_coro
  finish-Retains e none at free = strays-Retains
  finish-Retains e (some k) at free =
      let k' : Coro = record k { ret = v; func = none; state = finished; ctx = restarts } in
      let now = get_elem?-set_self e.coros c k' at in
      assert-Retains (is_running k.state) not_running _ (λ _.
        wakeup_joiner-Retains resume_next resume_next-Retains (put e c k') k.joiner
          (record { over = ap ended now; value = ap ret_in now; unpooled = free }))
