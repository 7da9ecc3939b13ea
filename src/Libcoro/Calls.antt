-- ===== src/Libcoro/Calls.antt =====
-- The calls of libcoro, the end of a coroutine, and the next step of the current code.
use system_prog.Common.{
  ℕ, zero, suc, ◌+◌, Bool, false, Option, none, some, List, [], ◌∷◌, ◌++◌, ◌==◌, if◌then◌else◌,
  is_empty, length, get_elem?,
}
use system_prog.Libcoro.{
  Context, Coro, CoroState, Engine, Outcome, and_then, assert, begins, coro_engine_run, deadlock,
  finished, gives, goes, has_joiner, is_finished, is_none, is_running, joined_already, joins,
  not_running, other_joiner, put, restarts, resume_next, returns, running, same_option,
  still_linked, strays, suspended, unlinked,
}

unfoldable pub suspend_coro : Engine → ℕ → Context → Option Coro → Outcome
unfolding resume_next
suspend_coro e c ctx none = strays
suspend_coro e c ctx (some k) = assert (unlinked e c) still_linked (
    assert (is_running k.state) not_running
      (resume_next (put e c (record k { state = suspended; ctx = ctx }))))

-- `coro_engine_suspend`, by code that goes on at `ctx`.
unfoldable pub suspend_this : Engine → Context → Option ℕ → Outcome
unfolding suspend_coro
suspend_this e ctx none = deadlock
suspend_this e ctx (some c) = suspend_coro e c ctx (get_elem? e.coros c)

unfoldable pub yield_coro : Engine → ℕ → Option Coro → Outcome
unfolding resume_next
yield_coro e c none = strays
yield_coro e c (some k) = assert (unlinked e c) still_linked (
    assert (is_running k.state) not_running (
      resume_next (record (put e c (record k { ctx = returns })) {
        running_next = e.running_next ++ c ∷ [];
      })))

unfoldable pub yield_this : Engine → Option ℕ → Outcome
unfolding yield_coro
yield_this e none = strays
yield_this e (some c) = yield_coro e c (get_elem? e.coros c)

unfoldable pub wakeup_in : Engine → ℕ → Coro → CoroState → Outcome
wakeup_in e d m running = goes e
wakeup_in e d m finished = goes e
wakeup_in e d m suspended = assert (unlinked e d) still_linked (
    goes
      (record (put e d (record m { state = running })) { running_next = e.running_next ++ d ∷ [] }))

unfoldable pub wakeup_coro : Engine → ℕ → Option Coro → Outcome
unfolding wakeup_in
wakeup_coro e d none = strays
wakeup_coro e d (some m) = wakeup_in e d m m.state

abbrev pub wakeup : Engine → ℕ → Outcome
wakeup e d = wakeup_coro e d (get_elem? e.coros d)

unfoldable pub wakeup_joiner : Engine → Option ℕ → Outcome
unfolding wakeup_coro
wakeup_joiner e none = goes e
wakeup_joiner e (some j) = wakeup e j

-- The end of `coro_body`, when the function has returned a value.
unfoldable pub finish_coro : Engine → ℕ → ℕ → Option Coro → Outcome
unfolding wakeup_joiner resume_next
finish_coro e value c none = strays
finish_coro e value c (some k) = assert (is_running k.state) not_running (
    and_then
      (wakeup_joiner
        (put e c (record k { ret = value; func = none; state = finished; ctx = restarts }))
        k.joiner)
      resume_next)

unfoldable pub finish_this : Engine → ℕ → Option ℕ → Outcome
unfolding finish_coro
finish_this e value none = strays
finish_this e value (some c) = finish_coro e value c (get_elem? e.coros c)

abbrev pub behind_coro : Engine → ℕ → Option Coro → Engine
behind_coro e c none = e
behind_coro e c (some k) = put e c (record k { ctx = returns })

-- The end of `coro_engine_join`, where the caller goes on behind the call.
abbrev pub behind_this : Engine → Option ℕ → Engine
behind_this e none = e
behind_this e (some c) = behind_coro e c (get_elem? e.coros c)

abbrev pub behind_call : Engine → Engine
behind_call e = behind_this e e.this_coro

unfoldable pub join_end : Engine → ℕ → Coro → Outcome
join_end e d m = assert (same_option m.joiner e.this_coro) other_joiner (
    assert (unlinked e d) joined_already (
      let e' = behind_call e in
      gives (record (put e' d (record m { joiner = none; ret = 0 })) { pool = d ∷ e'.pool }) m.ret))

-- The loop of `coro_engine_join`, from its test.
unfoldable pub join_loop : Engine → ℕ → Option Coro → Outcome
unfolding join_end suspend_this
join_loop e d none = strays
join_loop e d (some m) =
    if is_finished m.state then join_end e d m else suspend_this e (joins d) e.this_coro

unfoldable pub join_coro : Engine → ℕ → Option Coro → Outcome
unfolding join_loop
join_coro e d none = strays
join_coro e d (some m) =
    assert (is_none m.joiner) has_joiner (
      let e' = put e d (record m { joiner = e.this_coro }) in join_loop e' d (get_elem? e'.coros d))

abbrev pub new_coro : ℕ → ℕ → Coro
new_coro func arg = record {
  state = running;
  ret = 0;
  func = some func;
  func_arg = arg;
  joiner = none;
  ctx = begins;
}

abbrev pub queue_last : Engine → ℕ → Engine
queue_last e c = record e { running_next = e.running_next ++ c ∷ [] }

-- `coro_engine_spawn_new`, without the stack and the signals.
unfoldable pub spawn_new : Engine → ℕ → ℕ → Outcome
spawn_new e func arg =
    let c = length e.coros in
    let e' = record e {
      coros = e.coros ++ new_coro func arg ∷ [];
      coro_count = e.coro_count + 1;
    } in
    assert (unlinked e' c) still_linked (gives (queue_last e' c) c)

unfoldable pub respawn : Engine → ℕ → ℕ → ℕ → Option Coro → Outcome
respawn e c func arg none = strays
respawn e c func arg (some k) =
    let e' = put e c (record k { func = some func; func_arg = arg; state = running }) in
    assert (unlinked e' c) still_linked (gives (queue_last e' c) c)

unfoldable pub spawn : Engine → ℕ → ℕ → List ℕ → Outcome
unfolding spawn_new respawn
spawn e func arg [] = spawn_new e func arg
spawn e func arg (c ∷ cs) = respawn (record e { pool = cs }) c func arg (get_elem? e.coros c)

-- What the code of a coroutine, or the code around the scheduler, may do next.
pub data Call : Type 0 where
  coro_new : ℕ → ℕ → Call
  coro_join coro_wakeup coro_finish : ℕ → Call
  coro_suspend coro_yield coro_sched_run : Call

unfoldable pub call : Engine → Call → Outcome
unfolding spawn join_coro wakeup_coro finish_this suspend_this yield_this coro_engine_run
call e (coro_new func arg) = spawn e func arg e.pool
call e (coro_join d) = join_coro e d (get_elem? e.coros d)
call e (coro_wakeup d) = wakeup e d
call e (coro_finish value) = finish_this e value e.this_coro
call e coro_suspend = suspend_this e returns e.this_coro
call e coro_yield = yield_this e e.this_coro
call e coro_sched_run = coro_engine_run e

-- The coroutine that the current one waits for, if it is inside `coro_engine_join`.
abbrev pub joins_in : Option Coro → Option ℕ
joins_in none = none
joins_in (some k) = elim k.ctx [ joins d ↦ some d | _ ↦ none ]

abbrev pub joining : Engine → Option ℕ
joining e = elim e.this_coro [ none ↦ none | some c ↦ joins_in (get_elem? e.coros c) ]

unfoldable pub step_from : Engine → Call → Option ℕ → Outcome
unfolding call join_loop
step_from e next none = call e next
step_from e next (some d) = join_loop e d (get_elem? e.coros d)

-- The next step: the loop of a join goes on by itself, all else is a call.
unfoldable pub step : Engine → Call → Outcome
unfolding step_from
step e next = step_from e next (joining e)

-- The loop of `coro_engine_destroy`.
unfoldable pub free_pool : List ℕ → ℕ → Option ℕ
free_pool [] count = some count
free_pool (c ∷ cs) zero = none
free_pool (c ∷ cs) (suc count) = free_pool cs count

-- Whether `coro_engine_destroy` gets through its assertions.
unfoldable pub coro_sched_destroy : Engine → Bool
unfolding free_pool
coro_sched_destroy e =
    if is_none e.this_coro
    then if is_empty e.running_now
      then if is_empty e.running_next
        then elim (free_pool e.pool e.coro_count) [ none ↦ false | some count ↦ count == 0 ]
        else false
      else false
    else false
