-- ===== src/Libcoro/Good.antt =====
-- What a step has to end in.
use mathlib.Core.Path.{subst}
use system_prog.Common.{
  ℕ, ◌≡◌, ◌≢◌, refl, sym, ap, Bool, true, not, Option, none, some, ◌==◌, ==_iff, total, arith,
}
use system_prog.Libcoro.Places.{run_state, lacking, queued, Kept, Behind, Shape}
use system_prog.Libcoro.Waits.{Waits}
use system_prog.Libcoro.{
  CoroState, running, suspended, finished, restarts, Engine, Assertion, Outcome, goes, gives, fails,
  deadlock, strays, assert, one, same, unlinked, is_running, is_none,
}

-- The invariant where some code runs, `this_coro` or the code around the scheduler.
pub record Safe (e : Engine) : Type 0 where
  pub kept : Kept e e.this_coro
  pub shape : Shape e.this_coro e.running_now
  pub waits : Waits e none

-- And between two coroutines, with the one that is jumped to in hand, if any.
pub record Between (e : Engine) (hand : Option ℕ) : Type 0 where
  pub kept : Kept e hand
  pub behind : Behind e.running_now
  pub waits : Waits e none

-- What a step may end in; on a deadlock only where `dead` says so.
abbrev pub Good : Bool → Outcome → Type 0
Good dead (goes e) = Safe e
Good dead (gives e v) = Safe e
Good dead (fails a) = ⊥
Good dead deadlock = dead ≡ true
Good dead strays = ⊥

pub assert-Good :
    (dead : Bool) {b : Bool} (a : Assertion) (o : Outcome)
    → b ≡ true
    → Good dead o
    → Good dead (assert b a o)
assert-Good dead a o e g = subst (λ x. Good dead (assert x a o)) (sym e) g

pub is_running-one : (s : CoroState) → run_state s ≡ 1 → is_running s ≡ true
is_running-one running e = refl
is_running-one suspended e = cc
is_running-one finished e = cc

pub has_func :
    (s : CoroState) (f : Option ℕ)
    → run_state s ≡ 1
    → lacking s restarts f ≡ 0
    → not (is_none f) ≡ true
has_func running (some f) r e = refl
has_func running none r e = absurd (omega (arith, e))
has_func suspended f r e = absurd (omega (arith, r))
has_func finished f r e = absurd (omega (arith, r))

pub one_self : (c : ℕ) → one (c == c) ≡ 1
one_self c = ap one ((==_iff c c).1 refl)

pub one-ne : (c x : ℕ) → c ≢ x → one (c == x) ≡ 0
one-ne c x ne = ground arith

pub unlinked_of :
    (e : Engine) (c : ℕ) → queued e c ≡ 0 → total (same c) e.pool ≡ 0 → unlinked e c ≡ true
unlinked_of e c q p = (==_iff _ _).1 (omega (arith, q, p))
