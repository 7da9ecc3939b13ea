-- ===== src/Libcoro/Idle.antt =====
-- The loop of the scheduler: it ends when no coroutine runs.
use system_prog.Common.{
  ◌++◌, length, ℕ, ◌+◌, ◌≡◌, ◌≢◌, ap, Option, none, some, List, [], ◌∷◌, if_both, get_elem?, total,
  arith,
}
use system_prog.Libcoro.Places.{runs, Kept, Shape}
use system_prog.Libcoro.Reached.{Reach, Reach-Safe, goes_to}
use system_prog.Libcoro.Steps.{Allowed}
use system_prog.Libcoro.Calls.{
  new_coro, suspend_coro, suspend_this, yield_coro, yield_this, wakeup_in, wakeup_coro,
  wakeup_joiner, finish_coro, finish_this, join_end, join_loop, join_coro, spawn_new, respawn,
  spawn, Call, coro_new, coro_join, coro_wakeup, coro_finish, coro_suspend, coro_yield,
  coro_sched_run, call, step_from, step, joining,
}
use system_prog.Libcoro.{
  same_option, other_joiner, joined_already, has_joiner, same, same_who, unlinked, still_linked,
  is_running, not_running, CoroState, running, suspended, finished, Coro, Engine, goes, assert,
  is_none, is_finished, Context, restarts, returns, joins, resume_next, put,
}
use system_prog.Libcoro.Turns.{
  Idle, gives-Idle, deadlock-Idle, strays-Idle, goes-Idle, assert-Idle, and_then-Idle,
  resume_next-Idle, coro_engine_run-Idle,
}

-- A coroutine that leaves for the next one.
leave-Idle :
    (e e' : Engine) (c : ℕ) (s : CoroState)
    → Idle (assert (unlinked e c) still_linked (assert (is_running s) not_running (resume_next e')))
leave-Idle e e' c s =
    assert-Idle (unlinked e c) still_linked _
      (assert-Idle (is_running s) not_running _ (resume_next-Idle e'))

suspend_coro-Idle :
    (e : Engine) (c : ℕ) (x : Context) (o : Option Coro) → Idle (suspend_coro e c x o)
unfolding suspend_coro
suspend_coro-Idle e c x none = strays-Idle
suspend_coro-Idle e c x (some k) =
    leave-Idle e (put e c (record k { state = suspended; ctx = x })) c k.state

suspend_this-Idle : (e : Engine) (x : Context) (t : Option ℕ) → Idle (suspend_this e x t)
unfolding suspend_this
suspend_this-Idle e x none = deadlock-Idle
suspend_this-Idle e x (some c) = suspend_coro-Idle e c x (get_elem? e.coros c)

yield_coro-Idle : (e : Engine) (c : ℕ) (o : Option Coro) → Idle (yield_coro e c o)
unfolding yield_coro
yield_coro-Idle e c none = strays-Idle
yield_coro-Idle e c (some k) =
    leave-Idle e
      (record (put e c (record k { ctx = returns })) { running_next = e.running_next ++ c ∷ [] }) c
      k.state

yield_this-Idle : (e : Engine) (t : Option ℕ) → Idle (yield_this e t)
unfolding yield_this
yield_this-Idle e none = strays-Idle
yield_this-Idle e (some c) = yield_coro-Idle e c (get_elem? e.coros c)

finish_coro-Idle : (e : Engine) (v c : ℕ) (o : Option Coro) → Idle (finish_coro e v c o)
unfolding finish_coro
finish_coro-Idle e v c none = strays-Idle
finish_coro-Idle e v c (some k) = assert-Idle (is_running k.state) not_running _ (
    and_then-Idle
      (wakeup_joiner (put e c (record k { state = finished; ret = v; func = none; ctx = restarts }))
        k.joiner)
      resume_next resume_next-Idle)

finish_this-Idle : (e : Engine) (v : ℕ) (t : Option ℕ) → Idle (finish_this e v t)
unfolding finish_this
finish_this-Idle e v none = strays-Idle
finish_this-Idle e v (some c) = finish_coro-Idle e v c (get_elem? e.coros c)

join_end-Idle : (e : Engine) (d : ℕ) (m : Coro) → Idle (join_end e d m)
unfolding join_end
join_end-Idle e d m =
    assert-Idle (same_option m.joiner e.this_coro) other_joiner _
      (assert-Idle (unlinked e d) joined_already _ (gives-Idle _ _))

join_loop-Idle : (e : Engine) (d : ℕ) (o : Option Coro) → Idle (join_loop e d o)
unfolding join_loop
join_loop-Idle e d none = strays-Idle
join_loop-Idle e d (some m) =
    if_both Idle (is_finished m.state) _ _ (join_end-Idle e d m)
      (suspend_this-Idle e (joins d) e.this_coro)

join_coro-Idle : (e : Engine) (d : ℕ) (o : Option Coro) → Idle (join_coro e d o)
unfolding join_coro
join_coro-Idle e d none = strays-Idle
join_coro-Idle e d (some m) =
    let e' = put e d (record m { joiner = e.this_coro }) in
    assert-Idle (is_none m.joiner) has_joiner _ (join_loop-Idle e' d (get_elem? e'.coros d))

respawn-Idle : (e : Engine) (c f a : ℕ) (o : Option Coro) → Idle (respawn e c f a o)
unfolding respawn
respawn-Idle e c f a none = strays-Idle
respawn-Idle e c f a (some k) =
    assert-Idle (unlinked (put e c (record k { state = running; func = some f; func_arg = a })) c)
      still_linked _ (gives-Idle _ _)

spawn-Idle : (e : Engine) (f a : ℕ) (pool : List ℕ) → Idle (spawn e f a pool)
unfolding spawn spawn_new
spawn-Idle e f a [] =
    assert-Idle
      (unlinked (record e { coros = e.coros ++ new_coro f a ∷ []; coro_count = e.coro_count + 1 })
        (length e.coros))
      still_linked _ (gives-Idle _ _)
spawn-Idle e f a (c ∷ cs) = respawn-Idle (record e { pool = cs }) c f a (get_elem? e.coros c)

-- A wakeup stays where it is.
wakeup_in-Idle :
    (e : Engine) (d : ℕ) (m : Coro) (s : CoroState) → e.this_coro ≢ none → Idle (wakeup_in e d m s)
unfolding wakeup_in
wakeup_in-Idle e d m running inside = goes-Idle e (λ q. absurd (inside q))
wakeup_in-Idle e d m finished inside = goes-Idle e (λ q. absurd (inside q))
wakeup_in-Idle e d m suspended inside =
    assert-Idle (unlinked e d) still_linked _ (goes-Idle _ (λ q. absurd (inside q)))

wakeup_coro-Idle :
    (e : Engine) (d : ℕ) (o : Option Coro) → e.this_coro ≢ none → Idle (wakeup_coro e d o)
unfolding wakeup_coro
wakeup_coro-Idle e d none inside = strays-Idle
wakeup_coro-Idle e d (some m) inside = wakeup_in-Idle e d m m.state inside

-- Any step but a wakeup from outside of the coroutines.
abbrev pub Scheduled : Engine → Call → Type 0
Scheduled e (coro_wakeup d) = e.this_coro ≢ none
Scheduled e (coro_new f a) = Unit
Scheduled e (coro_join d) = Unit
Scheduled e (coro_finish v) = Unit
Scheduled e coro_suspend = Unit
Scheduled e coro_yield = Unit
Scheduled e coro_sched_run = Unit

call-Idle : (e : Engine) (next : Call) → Scheduled e next → Idle (call e next)
unfolding call
call-Idle e (coro_new f a) h = spawn-Idle e f a e.pool
call-Idle e (coro_join d) h = join_coro-Idle e d _
call-Idle e (coro_wakeup d) h = wakeup_coro-Idle e d _ h
call-Idle e (coro_finish v) h = finish_this-Idle e v e.this_coro
call-Idle e coro_suspend h = suspend_this-Idle e returns e.this_coro
call-Idle e coro_yield h = yield_this-Idle e e.this_coro
call-Idle e coro_sched_run h = coro_engine_run-Idle e

step_from-Idle :
    (e : Engine) (next : Call) (o : Option ℕ) → Scheduled e next → Idle (step_from e next o)
unfolding step_from
step_from-Idle e next none h = call-Idle e next h
step_from-Idle e next (some d) h = join_loop-Idle e d _

step-Idle : (e : Engine) (next : Call) → Scheduled e next → Idle (step e next)
unfolding step
step-Idle e next h = step_from-Idle e next (joining e) h

still_of :
    (e : Engine) (t : Option ℕ)
    → Kept e t
    → Shape t e.running_now
    → t ≡ none
    → e.running_next ≡ []
    → (c : ℕ) → runs (get_elem? e.coros c) ≡ 0
still_of e none v s q n c =
    omega (arith, v.placed c, ap (total (same c)) n, ap (total (same_who c)) s)
still_of e (some x) v s q n c = cc

-- In every state that allowed steps lead to, a step that goes on, without a value, outside of the
-- coroutines does so with no coroutine in the state of one that runs: `coro_sched_run` returns only when
-- all of them are suspended or have ended. A wakeup from outside of the coroutines is not such a step.
pub step-idle :
    (e e' : Engine) (next : Call)
    → Reach e
    → Allowed e next
    → Scheduled e next
    → step e next ≡ goes e'
    → e'.this_coro ≡ none
    → (c : ℕ) → runs (get_elem? e'.coros c) ≡ 0
step-idle e e' next r a h q out =
    let safe = Reach-Safe (goes_to next r a q) in
    still_of e' e'.this_coro safe.kept safe.shape out ((step-Idle e next h).waiting e' q out)
