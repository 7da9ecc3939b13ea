-- ===== src/Libcoro/Steps.antt =====
-- Every step keeps the invariant, and fails no assertion.
use mathlib.Core.Path.{subst}
use system_prog.Common.{
  ℕ, ◌<◌, ◌≡◌, ◌≢◌, ◌∙◌, refl, sym, ap, Bool, true, Option, none, some, Option-cases, get_elem?,
  length, arith, inl, inr,
}
use system_prog.Libcoro.Joins.{Joinable, join-Good, join_loop-Good}
use system_prog.Libcoro.Leaves.{suspend-Good, yield-Good, finish-Good}
use system_prog.Libcoro.Reuse.{spawn-Good}
use system_prog.Libcoro.Places.{runs, joiner_in, Kept, Shape}
use system_prog.Libcoro.Good.{Safe, Good}
use system_prog.Libcoro.Switch.{coro_engine_run-Good, hand_runs}
use system_prog.Libcoro.Wakeups.{Woken, wakeup-Woken}
use system_prog.Libcoro.Calls.{
  suspend_this, suspend_coro, yield_this, yield_coro, finish_this, finish_coro, join_loop, joins_in,
  joining, Call, coro_new, coro_join, coro_wakeup, coro_finish, coro_suspend, coro_yield,
  coro_sched_run, call, step_from, step, wakeup,
}
use system_prog.Libcoro.{Coro, Engine, Outcome, is_none, returns}

-- What a call asks of its caller.
abbrev pub Valid : Engine → Call → Type 0
Valid e (coro_new func arg) = Unit
Valid e (coro_join d) = Joinable e d
Valid e (coro_wakeup d) = d < length e.coros
Valid e (coro_finish value) = e.this_coro ≢ none
Valid e coro_suspend = Unit
Valid e coro_yield = e.this_coro ≢ none
Valid e coro_sched_run = e.this_coro ≡ none

-- Nothing is asked of one that goes on in a join.
abbrev pub AllowedFrom : Option ℕ → Engine → Call → Type 0
AllowedFrom none e next = Valid e next
AllowedFrom (some d) e next = Unit

abbrev pub Allowed : Engine → Call → Type 0
Allowed e next = AllowedFrom (joining e) e next

-- The code of a coroutine goes on from a valid record of it.
this_step :
    (dead : Bool) (e : Engine) (c : ℕ) (f : Option Coro → Outcome)
    → Safe e
    → e.this_coro ≡ some c
    → ((k : Coro)
        → get_elem? e.coros c ≡ some k
        → Kept e (some c)
        → Shape (some c) e.running_now
        → Good dead (f (some k)))
    → Good dead (f (get_elem? e.coros c))
this_step dead e c f safe this g =
    let v = subst (Kept e) this safe.kept in
    elim (Option-cases (get_elem? e.coros c)) [
      | inl n ↦ absurd (omega (arith, hand_runs e c v, ap runs n))
      | inr (k, at) ↦
          subst (λ o. Good dead (f o)) (sym at)
            (g k at v (subst (λ o. Shape o e.running_now) this safe.shape))
    ]

suspend_this-Good :
    (dead : Bool) (e : Engine) (t : Option ℕ)
    → Safe e
    → e.this_coro ≡ t
    → (t ≡ none → dead ≡ true)
    → Good dead (suspend_this e returns t)
unfolding suspend_this
suspend_this-Good dead e none safe this out = out refl
suspend_this-Good dead e (some c) safe this out =
    this_step dead e c (suspend_coro e c returns) safe this
      (λ k at v s. suspend-Good dead e c v s safe.waits k at)

yield_this-Good :
    (dead : Bool) (e : Engine) (t : Option ℕ)
    → Safe e
    → e.this_coro ≡ t
    → t ≢ none
    → Good dead (yield_this e t)
unfolding yield_this
yield_this-Good dead e none safe this inside = absurd (inside refl)
yield_this-Good dead e (some c) safe this inside =
    this_step dead e c (yield_coro e c) safe this
      (λ k at v s. yield-Good dead e c v s safe.waits k at)

finish_this-Good :
    (dead : Bool) (e : Engine) (value : ℕ) (t : Option ℕ)
    → Safe e
    → e.this_coro ≡ t
    → t ≢ none
    → Good dead (finish_this e value t)
unfolding finish_this
finish_this-Good dead e value none safe this inside = absurd (inside refl)
finish_this-Good dead e value (some c) safe this inside =
    this_step dead e c (finish_coro e value c) safe this
      (λ k at v s. finish-Good dead e c v s safe.waits k at value)

Woken-Good : (dead : Bool) (e : Engine) (o : Outcome) → Safe e → Woken e e.this_coro o → Good dead o
Woken-Good dead e o safe u = subst (Good dead) (sym u.ends) (record {
  kept = subst (Kept u.after) (sym u.same_this) u.kept;
  shape =
      subst (λ t. Shape t u.after.running_now) (sym u.same_this)
        (subst (Shape e.this_coro) (sym u.same_now) safe.shape);
  waits = u.waits;
})

out_dead : (t : Option ℕ) → t ≡ none → is_none t ≡ true
out_dead none q = refl
out_dead (some c) q = cc

call-Good :
    (e : Engine) (next : Call) → Safe e → Valid e next → Good (is_none e.this_coro) (call e next)
unfolding call
call-Good e (coro_new func arg) safe valid = spawn-Good (is_none e.this_coro) e func arg safe
call-Good e (coro_join d) safe valid =
    join-Good (is_none e.this_coro) e d safe valid (out_dead e.this_coro)
call-Good e (coro_wakeup d) safe valid =
    Woken-Good (is_none e.this_coro) e (wakeup e d) safe
      (wakeup-Woken e e.this_coro none d safe.kept safe.waits (λ j ne. refl) valid)
call-Good e (coro_finish value) safe valid =
    finish_this-Good (is_none e.this_coro) e value e.this_coro safe refl valid
call-Good e coro_suspend safe valid =
    suspend_this-Good (is_none e.this_coro) e e.this_coro safe refl (out_dead e.this_coro)
call-Good e coro_yield safe valid =
    yield_this-Good (is_none e.this_coro) e e.this_coro safe refl valid
call-Good e coro_sched_run safe valid =
    coro_engine_run-Good (is_none e.this_coro) e (subst (Kept e) valid safe.kept) safe.waits
      (subst (λ t. Shape t e.running_now) valid safe.shape) valid

-- Who is inside a join is a coroutine.
joining_this :
    (e : Engine) (t : Option ℕ) (d : ℕ)
    → (elim t as (λ o. Option ℕ) [ none ↦ none | some c ↦ joins_in (get_elem? e.coros c) ]) ≡ some d
    → (c : ℕ) × (t ≡ some c) × (joins_in (get_elem? e.coros c) ≡ some d)
joining_this e none d q = cc
joining_this e (some c) d q = (c, refl, q)

loop-Good :
    (e : Engine) (d : ℕ)
    → Safe e
    → joining e ≡ some d
    → Good (is_none e.this_coro) (join_loop e d (get_elem? e.coros d))
loop-Good e d safe inside =
    let (c, this, q) = joining_this e e.this_coro d inside in
    let j = safe.waits.joined c d q in
    elim (Option-cases (get_elem? e.coros d)) [
      | inl n ↦ absurd (let x : none ≡ some c = sym (ap joiner_in n) ∙ j.named in cc)
      | inr (m, at) ↦
          subst (λ o. Good (is_none e.this_coro) (join_loop e d o)) (sym at)
            (join_loop-Good (is_none e.this_coro) e d m at j.unpooled safe.waits e.this_coro refl
              safe.kept safe.shape (sym (ap joiner_in at) ∙ j.named ∙ sym this)
              (out_dead e.this_coro))
    ]

step_from-Good :
    (e : Engine) (next : Call) (o : Option ℕ)
    → joining e ≡ o
    → Safe e
    → AllowedFrom o e next
    → Good (is_none e.this_coro) (step_from e next o)
unfolding step_from
step_from-Good e next none q safe allowed = call-Good e next safe allowed
step_from-Good e next (some d) q safe allowed = loop-Good e d safe q

pub step-Good :
    (e : Engine) (next : Call) → Safe e → Allowed e next → Good (is_none e.this_coro) (step e next)
unfolding step
step-Good e next safe allowed = step_from-Good e next (joining e) refl safe allowed
