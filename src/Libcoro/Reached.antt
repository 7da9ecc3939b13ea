-- ===== src/Libcoro/Reached.antt =====
-- What holds of the engine after any run of allowed steps.
use mathlib.Core.Path.{subst}
use system_prog.Common.{
  ℕ, ◌+◌, ◌≡◌, ◌⊎◌, refl, true, Option, none, some, get_elem?, total, arith, inl, inr,
}
use system_prog.Libcoro.Places.{runs, ended, joiner_in, here, queued}
use system_prog.Libcoro.Steps.{Allowed, step-Good}
use system_prog.Libcoro.Good.{Safe, Good}
use system_prog.Libcoro.Waits.{state_le_one}
use system_prog.Libcoro.Calls.{joins_in, Call, step}
use system_prog.Libcoro.{
  Engine, Outcome, goes, gives, fails, deadlock, strays, is_none, coro_sched_init, same,
}

-- The states of the engine at its calls.
pub data Reach : Engine → Type 0 where
  initially : Reach coro_sched_init
  goes_to :
      {e : Engine} (next : Call) {e' : Engine}
      → Reach e
      → Allowed e next
      → step e next ≡ goes e'
      → Reach e'
  gives_to :
      {e : Engine} (next : Call) {e' : Engine} (v : ℕ)
      → Reach e
      → Allowed e next
      → step e next ≡ gives e' v
      → Reach e'

init-Safe : Safe coro_sched_init
init-Safe = record {
  kept = record {
    counted = refl;
    placed = λ c. refl;
    pooled = λ c. omega arith;
    ready = λ c. refl;
    known = λ c j q. cc;
  };
  shape = refl;
  waits = record { joined = λ j d q. cc };
}

pub Reach-Safe : {e : Engine} → Reach e → Safe e
Reach-Safe initially = init-Safe
Reach-Safe (goes_to {e} next r a q) =
    subst (Good (is_none e.this_coro)) q (step-Good e next (Reach-Safe r) a)
Reach-Safe (gives_to {e} next v r a q) =
    subst (Good (is_none e.this_coro)) q (step-Good e next (Reach-Safe r) a)

-- A step ends in the next state, with a value or without.
abbrev pub Advances : Engine → Call → Type 0
Advances e next =
    (e' : Engine) × Reach e' × ((step e next ≡ goes e') ⊎ ((v : ℕ) × (step e next ≡ gives e' v)))

pub none_of : (o : Option ℕ) → is_none o ≡ true → o ≡ none
none_of none q = refl
none_of (some x) q = cc

outcome-Advances :
    (e : Engine) (next : Call) (o : Outcome)
    → Reach e
    → Allowed e next
    → step e next ≡ o
    → Good (is_none e.this_coro) o
    → Advances e next ⊎ ((e.this_coro ≡ none) × (step e next ≡ deadlock))
outcome-Advances e next (goes e') r a q g = inl (e', goes_to next r a q, inl q)
outcome-Advances e next (gives e' v) r a q g = inl (e', gives_to next v r a q, inr (v, q))
outcome-Advances e next deadlock r a q g = inr (none_of e.this_coro g, q)
outcome-Advances e next (fails f) r a q g = absurd g
outcome-Advances e next strays r a q g = absurd g

-- A step is allowed where it joins a coroutine that was made, that nobody waits for and that was not
-- joined since it last started, wakes one that was made, yields or ends inside of a coroutine, starts the
-- scheduler outside of them, makes a coroutine, suspends, or goes on inside a join. In every state that
-- allowed steps lead to from `coro_sched_init`, an allowed step fails no assertion and never goes on at
-- a pointer to no coroutine: it ends in a next such state, or, only outside of the coroutines, in the
-- exit on a deadlock.
pub step-Advances :
    (e : Engine) (next : Call)
    → Reach e
    → Allowed e next
    → Advances e next ⊎ ((e.this_coro ≡ none) × (step e next ≡ deadlock))
step-Advances e next r a =
    outcome-Advances e next (step e next) r a refl (step-Good e next (Reach-Safe r) a)

-- In every state that allowed steps lead to from `coro_sched_init`, a coroutine that runs is either the
-- current one or stands exactly once in the two lists of the scheduler, and one that is suspended or has
-- ended is neither.
pub queued-runs :
    (e : Engine) (c : ℕ) → Reach e → queued e c + here c e.this_coro ≡ runs (get_elem? e.coros c)
queued-runs e c r = (Reach-Safe r).kept.placed c

-- In every state that allowed steps lead to from `coro_sched_init`, a coroutine that waits in
-- `coro_join` is the joiner of the one that it waits for, which is not in the pool; once that one has
-- ended, the waiting coroutine is the current one or stands in the lists of the scheduler: no wakeup of
-- a joiner is lost.
pub join_woken :
    (e : Engine) (j d : ℕ)
    → Reach e
    → joins_in (get_elem? e.coros j) ≡ some d
    → (joiner_in (get_elem? e.coros d) ≡ some j)
      × (total (same d) e.pool ≡ 0)
      × (ended (get_elem? e.coros d) ≡ 1 → queued e j + here j e.this_coro ≡ 1)
join_woken e j d r q =
    let safe = Reach-Safe r in
    let o = safe.waits.joined j d q in
    (
      o.named,
      o.unpooled,
      λ over. omega (arith, o.woken, over, safe.kept.placed j, state_le_one (get_elem? e.coros j)),
    )
