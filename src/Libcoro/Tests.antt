-- ===== src/Libcoro/Tests.antt =====
-- A run of two coroutines, one of which joins the other, and examples of the theorems in it.
use system_prog.Common.{
  ℕ, ◌+◌, ◌≡◌, ◌⊎◌, ◌↔◌, refl, true, some, none, [], ◌∷◌, get_elem?, total, arith,
}
use system_prog.Libcoro.Delivery.{at_once, join-finish}
use system_prog.Libcoro.Destroy.{AllJoined, coro_sched_destroy_iff}
use system_prog.Libcoro.Idle.{step-idle}
use system_prog.Libcoro.Places.{runs, ended, joiner_in, here, queued}
use system_prog.Libcoro.Reached.{
  Reach, initially, goes_to, gives_to, Advances, step-Advances, queued-runs, join_woken,
}
use system_prog.Libcoro.Calls.{
  new_coro, coro_new, coro_join, coro_finish, coro_suspend, coro_yield, coro_sched_run, step,
  coro_sched_destroy,
}
use system_prog.Libcoro.{
  suspended, finished, restarts, returns, joins, Coro, sched, coroutine, Engine, goes, gives,
  deadlock, same, coro_sched_init,
}

abbrev one_new : Engine
one_new = record {
  coros = new_coro 7 1 ∷ [];
  this_coro = none;
  running_now = [];
  running_next = 0 ∷ [];
  pool = [];
  coro_count = 1;
}

abbrev two_new : Engine
two_new = record one_new {
  coros = new_coro 7 1 ∷ new_coro 8 2 ∷ [];
  running_next = 0 ∷ 1 ∷ [];
  coro_count = 2;
}

abbrev first : Coro
first = record (new_coro 7 1) { ctx = returns }

abbrev second : Coro
second = record (new_coro 8 2) { ctx = returns; joiner = some 0 }

abbrev begun : Engine
begun = record two_new {
  coros = first ∷ new_coro 8 2 ∷ [];
  this_coro = some 0;
  running_now = coroutine 1 ∷ sched ∷ [];
  running_next = [];
}

abbrev waiting : Engine
waiting = record begun {
  coros = record first { state = suspended; ctx = joins 1 } ∷ second ∷ [];
  this_coro = some 1;
  running_now = sched ∷ [];
}

abbrev second_over : Coro
second_over = record second { state = finished; ret = 5; func = none; ctx = restarts }

abbrev woken : Engine
woken = record waiting {
  coros = record first { ctx = joins 1 } ∷ second_over ∷ [];
  this_coro = some 0;
}

abbrev joined : Engine
joined = record woken {
  coros = first ∷ record second_over { joiner = none; ret = 0 } ∷ [];
  pool = 1 ∷ [];
}

abbrev asleep : Engine
asleep = record joined {
  coros = record first { state = suspended } ∷ record second_over { joiner = none; ret = 0 } ∷ [];
  this_coro = none;
  running_now = [];
}

first_made : step coro_sched_init (coro_new 7 1) ≡ gives one_new 0
unfolding step
first_made = refl

second_made : step one_new (coro_new 8 2) ≡ gives two_new 1
unfolding step
second_made = refl

starts : step two_new coro_sched_run ≡ goes begun
unfolding step
starts = refl

waits : step begun (coro_join 1) ≡ goes waiting
unfolding step
waits = refl

ends : step waiting (coro_finish 5) ≡ goes woken
unfolding step
ends = refl

gets : step woken coro_yield ≡ gives joined 5
unfolding step
gets = refl

sleeps : step joined coro_suspend ≡ goes asleep
unfolding step
sleeps = refl

waiting_reached : Reach waiting
waiting_reached =
    goes_to (coro_join 1)
      (goes_to coro_sched_run
        (gives_to (coro_new 8 2) 1 (gives_to (coro_new 7 1) 0 initially tt first_made) tt
          second_made)
        refl starts)
      (record { inside = omega arith; free = refl; unpooled = refl }) waits

woken_reached : Reach woken
woken_reached = goes_to (coro_finish 5) waiting_reached (λ q. cc) ends

joined_reached : Reach joined
joined_reached = gives_to coro_yield 5 woken_reached tt gets

step-Advances_example :
    Advances woken coro_yield ⊎ ((woken.this_coro ≡ none) × (step woken coro_yield ≡ deadlock))
step-Advances_example = step-Advances woken coro_yield woken_reached tt

queued-runs_example : queued woken 0 + here 0 woken.this_coro ≡ runs (get_elem? woken.coros 0)
queued-runs_example = queued-runs woken 0 woken_reached

join_woken_example :
    (joiner_in (get_elem? woken.coros 1) ≡ some 0)
    × (total (same 1) woken.pool ≡ 0)
    × (ended (get_elem? woken.coros 1) ≡ 1 → queued woken 0 + here 0 woken.this_coro ≡ 1)
join_woken_example = join_woken woken 0 1 woken_reached refl

coro_sched_destroy_iff_example :
    (coro_sched_destroy joined ≡ true) ↔ ((joined.this_coro ≡ none) × AllJoined joined)
coro_sched_destroy_iff_example = coro_sched_destroy_iff joined joined_reached

step-idle_example : runs (get_elem? asleep.coros 0) ≡ 0
step-idle_example = step-idle joined asleep coro_suspend joined_reached tt tt sleeps refl 0

-- What the join gives.
abbrev given : ℕ
given = 5

join-finish_example : given ≡ 5
join-finish_example =
    join-finish 1 5 given coro_yield waiting_reached refl refl ends at_once gets (omega arith)
