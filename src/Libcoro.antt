-- ===== src/Libcoro.antt =====
-- 1/libcoro.cpp, one engine. A coroutine is known by its place in `coros`, since its memory is not
-- freed before the engine is; a context that was saved is the place in the code where it goes on.
pub mod Calls
pub mod Places
pub mod Waits
pub mod Good
pub mod Switch
pub mod Wakeups
pub mod Leaves
pub mod Joining
pub mod Joins
pub mod Spawning
pub mod Reuse
pub mod Steps
pub mod Reached
pub mod Destroy
pub mod Returns
pub mod Values
pub mod Given
pub mod Delivery
pub mod Turns
pub mod Idle
mod Tests
use system_prog.Common.{
  ℕ, zero, suc, ◌+◌, ◌-◌, Bool, true, false, not, Option, none, some, List, [], ◌∷◌, ◌++◌, ◌==◌,
  if◌then◌else◌, is_empty, length, get_elem?, set, total,
}

pub data CoroState : Type 0 where
  running suspended finished : CoroState

-- Where a coroutine goes on: in `coro_body` for the first time or again, behind a call, or in the loop
-- of `coro_engine_join` for another.
pub data Context : Type 0 where
  begins restarts returns : Context
  joins : ℕ → Context

-- `ret` is 0 for a null pointer.
pub record Coro : Type 0 where
  pub state : CoroState
  pub ret : ℕ
  pub func : Option ℕ
  pub func_arg : ℕ
  pub joiner : Option ℕ
  pub ctx : Context

pub data Who : Type 0 where
  sched : Who
  coroutine : ℕ → Who

-- `this_coro` is none outside of the coroutines: in the code that runs the scheduler.
pub record Engine : Type 0 where
  pub coros : List Coro
  pub this_coro : Option ℕ
  pub running_now : List Who
  pub running_next : List ℕ
  pub pool : List ℕ
  pub coro_count : ℕ

-- The assertions, by what they find. Those that the lines before them make true are left out.
pub data Assertion : Type 0 where
  nobody_to_run still_linked not_running coros_left this_left no_func has_joiner other_joiner
        joined_already :
      Assertion

-- A call ends in the next state, with a value for its caller if it gives one, or with an assertion, in
-- the exit on a deadlock, or at a pointer to no coroutine.
pub data Outcome : Type 0 where
  goes : Engine → Outcome
  gives : Engine → ℕ → Outcome
  fails : Assertion → Outcome
  deadlock strays : Outcome

abbrev pub assert : Bool → Assertion → Outcome → Outcome
assert true a o = o
assert false a o = fails a

abbrev pub and_then : Outcome → (Engine → Outcome) → Outcome
and_then (goes e) f = f e
and_then (gives e v) f = f e
and_then (fails a) f = fails a
and_then deadlock f = deadlock
and_then strays f = strays

abbrev pub one : Bool → ℕ
one b = if b then 1 else 0

abbrev pub same : ℕ → ℕ → ℕ
same c x = one (x == c)

abbrev pub same_who : ℕ → Who → ℕ
same_who c sched = 0
same_who c (coroutine x) = one (x == c)

-- `rlist_empty(&c->link)`: the coroutine is in none of the lists.
abbrev pub unlinked : Engine → ℕ → Bool
unlinked e c =
    total (same_who c) e.running_now + total (same c) e.running_next + total (same c) e.pool == 0

abbrev pub is_running : CoroState → Bool
is_running running = true
is_running _ = false

abbrev pub is_finished : CoroState → Bool
is_finished finished = true
is_finished _ = false

abbrev pub is_none : Option ℕ → Bool
is_none none = true
is_none (some x) = false

abbrev pub same_option : Option ℕ → Option ℕ → Bool
same_option none none = true
same_option (some x) (some y) = x == y
same_option _ _ = false

abbrev pub put : Engine → ℕ → Coro → Engine
put e c k = record e { coros = set e.coros c k }

-- `coro_engine_create`.
abbrev pub coro_sched_init : Engine
coro_sched_init = record {
  coros = [];
  this_coro = none;
  running_now = [];
  running_next = [];
  pool = [];
  coro_count = 0;
}

-- The jump to a coroutine, up to where its own code goes on. The end of `coro_engine_resume_next` is
-- not reached by one that begins.
pub enter_at : Engine → ℕ → Coro → Context → Outcome
enter_at e c k begins = goes (record (put e c (record k { ctx = returns })) { this_coro = some c })
enter_at e c k restarts = assert (unlinked e c) still_linked (
    assert (is_none e.this_coro) this_left (
      assert (is_running k.state) not_running (
        assert (not (is_none k.func)) no_func
          (goes (record (put e c (record k { ctx = returns })) { this_coro = some c })))))
enter_at e c k (joins d) =
    assert (unlinked e c) still_linked
      (assert (is_none e.this_coro) this_left (goes (record e { this_coro = some c })))
enter_at e c k returns =
    assert (unlinked e c) still_linked
      (assert (is_none e.this_coro) this_left (goes (record e { this_coro = some c })))

pub enter : Engine → ℕ → Option Coro → Outcome
unfolding enter_at
enter e c none = strays
enter e c (some k) = enter_at e c k k.ctx

abbrev pub coros_of : List ℕ → List Who
coros_of [] = []
coros_of (c ∷ cs) = coroutine c ∷ coros_of cs

-- A round of the loop of `coro_engine_run` with the coroutines that wait, the scheduler behind them.
pub begin_round : Engine → List ℕ → Outcome
unfolding enter
begin_round e [] = goes e
begin_round e (c ∷ cs) = assert (is_none e.this_coro) this_left (
    enter (record e { running_now = coros_of cs ++ sched ∷ []; running_next = [] }) c
      (get_elem? e.coros c))

-- The loop from its top: `coro_sched_run`, and where the scheduler goes on.
unfoldable pub coro_engine_run : Engine → Outcome
unfolding begin_round
coro_engine_run e = assert (is_empty e.running_now) coros_left (begin_round e e.running_next)

pub resume : Engine → List Who → Outcome
unfolding enter coro_engine_run
resume e [] = fails nobody_to_run
resume e (sched ∷ rest) = coro_engine_run (record e { running_now = rest; this_coro = none })
resume e (coroutine c ∷ rest) =
    enter (record e { running_now = rest; this_coro = none }) c (get_elem? e.coros c)

-- `coro_engine_resume_next`; the context of the caller is in the state already.
unfoldable pub resume_next : Engine → Outcome
unfolding resume
resume_next e = resume e e.running_now
