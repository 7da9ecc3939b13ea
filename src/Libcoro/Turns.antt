-- ===== src/Libcoro/Turns.antt =====
-- Where a switch leads: into a coroutine, or out of the scheduler with none that waits to run.
use mathlib.Core.Path.{subst}
use system_prog.Common.{
  not, ℕ, ◌≡◌, refl, Bool, true, false, Option, none, some, List, [], ◌∷◌, get_elem?,
}
use system_prog.Libcoro.{
  unlinked, still_linked, this_left, is_running, not_running, no_func, Coro, Who, sched, coroutine,
  Engine, Assertion, Outcome, goes, gives, fails, deadlock, strays, assert, and_then, is_none,
  Context, begins, restarts, returns, joins, enter_at, enter, begin_round, coro_engine_run, resume,
  resume_next,
}

-- Where an outcome is back outside of the coroutines, none of them waits to run.
pub record Idle (o : Outcome) : Type 0 where
  pub waiting : (e : Engine) → o ≡ goes e → e.this_coro ≡ none → e.running_next ≡ []

pub fails-Idle : (a : Assertion) → Idle (fails a)
fails-Idle a = record { waiting = λ e q out. cc }

pub gives-Idle : (e : Engine) (v : ℕ) → Idle (gives e v)
gives-Idle e v = record { waiting = λ x q out. cc }

pub deadlock-Idle : Idle deadlock
deadlock-Idle = record { waiting = λ e q out. cc }

pub strays-Idle : Idle strays
strays-Idle = record { waiting = λ e q out. cc }

pub goes-Idle : (e : Engine) → (e.this_coro ≡ none → e.running_next ≡ []) → Idle (goes e)
goes-Idle e h = record {
  waiting = λ x q out.
      let s : e ≡ x = cc in subst (λ y. y.this_coro ≡ none → y.running_next ≡ []) s h out;
}

pub assert-Idle : (b : Bool) (a : Assertion) (o : Outcome) → Idle o → Idle (assert b a o)
assert-Idle true a o h = h
assert-Idle false a o h = fails-Idle a

pub and_then-Idle :
    (o : Outcome) (f : Engine → Outcome) → ((e : Engine) → Idle (f e)) → Idle (and_then o f)
and_then-Idle (goes e) f h = h e
and_then-Idle (gives e v) f h = h e
and_then-Idle (fails a) f h = fails-Idle a
and_then-Idle deadlock f h = deadlock-Idle
and_then-Idle strays f h = strays-Idle

-- A switch to a coroutine goes on inside.
entered-Idle : (e : Engine) (c : ℕ) → e.this_coro ≡ some c → Idle (goes e)
entered-Idle e c q = goes-Idle e (λ out. cc)

enter_at-Idle : (e : Engine) (c : ℕ) (k : Coro) (x : Context) → Idle (enter_at e c k x)
unfolding enter_at
enter_at-Idle e c k begins = entered-Idle _ c refl
enter_at-Idle e c k restarts = assert-Idle (unlinked e c) still_linked _ (
    assert-Idle (is_none e.this_coro) this_left _ (
      assert-Idle (is_running k.state) not_running _
        (assert-Idle (not (is_none k.func)) no_func _ (entered-Idle _ c refl))))
enter_at-Idle e c k (joins d) =
    assert-Idle (unlinked e c) still_linked _
      (assert-Idle (is_none e.this_coro) this_left _ (entered-Idle _ c refl))
enter_at-Idle e c k returns =
    assert-Idle (unlinked e c) still_linked _
      (assert-Idle (is_none e.this_coro) this_left _ (entered-Idle _ c refl))

enter-Idle : (e : Engine) (c : ℕ) (o : Option Coro) → Idle (enter e c o)
unfolding enter
enter-Idle e c none = strays-Idle
enter-Idle e c (some k) = enter_at-Idle e c k k.ctx

begin_round-Idle : (e : Engine) (cs : List ℕ) → e.running_next ≡ cs → Idle (begin_round e cs)
unfolding begin_round
begin_round-Idle e [] q = goes-Idle e (λ out. q)
begin_round-Idle e (c ∷ cs) q = assert-Idle _ _ _ (enter-Idle _ c (get_elem? e.coros c))

pub coro_engine_run-Idle : (e : Engine) → Idle (coro_engine_run e)
unfolding coro_engine_run
coro_engine_run-Idle e = assert-Idle _ _ _ (begin_round-Idle e e.running_next refl)

resume-Idle : (e : Engine) (now : List Who) → Idle (resume e now)
unfolding resume
resume-Idle e [] = fails-Idle _
resume-Idle e (sched ∷ rest) =
    coro_engine_run-Idle (record e { running_now = rest; this_coro = none })
resume-Idle e (coroutine c ∷ rest) =
    enter-Idle (record e { running_now = rest; this_coro = none }) c (get_elem? e.coros c)

pub resume_next-Idle : (e : Engine) → Idle (resume_next e)
unfolding resume_next
resume_next-Idle e = resume-Idle e e.running_now
