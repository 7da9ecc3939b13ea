-- ===== src/Libcoro/Joins.antt =====
-- A join: it fails no assertion where its caller may ask for it.
use mathlib.Core.Path.{subst}
use system_prog.Common.{
  get_elem?-lt, ℕ, ◌<◌, ◌≡◌, ◌∙◌, refl, sym, ap, Bool, true, false, Option, none, some,
  Option-cases, if◌then◌else◌, Bool-cases, get_elem?, get_elem?-set_self, length, total, arith, inl,
  inr,
}
use system_prog.Libcoro.Joining.{same_option_self, is_finished-end, not_finished-end, ends-Safe}
use system_prog.Libcoro.Leaves.{wait-Good}
use system_prog.Libcoro.Places.{runs, ended, lacks, joiner_in, Kept, Change, Change-Kept, Shape}
use system_prog.Libcoro.Good.{Safe, Good, assert-Good, unlinked_of}
use system_prog.Libcoro.Switch.{hand_runs}
use system_prog.Libcoro.Wakeups.{get_elem?-lt_ne}
use system_prog.Libcoro.Waits.{Waits, state_le_one, Calm-Waits}
use system_prog.Libcoro.Calls.{suspend_this, suspend_coro, join_end, join_loop, join_coro}
use system_prog.Libcoro.{joins, Coro, Engine, same, is_finished, is_none, same_option, put}

module _ (dead : Bool) (e : Engine) (d : ℕ) (m : Coro) (at : get_elem? e.coros d ≡ some m)
    (free : total (same d) e.pool ≡ 0) (w : Waits e none) where
  -- The end of the loop.
  end-Good :
      (t : Option ℕ)
      → e.this_coro ≡ t
      → Kept e t
      → Shape t e.running_now
      → m.joiner ≡ t
      → is_finished m.state ≡ true
      → Good dead (join_end e d m)
  unfolding join_end
  end-Good t this v s name over =
      let over1 = is_finished-end m.state over in
      assert-Good dead _ _
        (ap (λ o. same_option m.joiner o) (this ∙ sym name) ∙ same_option_self m.joiner)
        (assert-Good dead _ _
          (unlinked_of e d
            (omega (arith, v.placed d, state_le_one (get_elem? e.coros d), ap ended at, over1))
            free)
          (ends-Safe dead e d m at t this v s w name over1 free))

  -- The wait in the loop.
  wait_this-Good :
      (t : Option ℕ)
      → Kept e t
      → Shape t e.running_now
      → m.joiner ≡ t
      → is_finished m.state ≡ false
      → (t ≡ none → dead ≡ true)
      → Good dead (suspend_this e (joins d) t)
  unfolding suspend_this
  wait_this-Good none v s name over out = out refl
  wait_this-Good (some c) v s name over out = elim (Option-cases (get_elem? e.coros c)) [
    | inl n ↦ absurd (omega (arith, hand_runs e c v, ap runs n))
    | inr (k, atc) ↦
        subst (λ o. Good dead (suspend_coro e c (joins d) o)) (sym atc)
          (wait-Good dead e c v s w k atc d (record {
            named = ap joiner_in at ∙ name;
            unended = ap ended at ∙ not_finished-end m.state over;
            unpooled = free;
          }))
  ]

  pub join_loop-Good :
      (t : Option ℕ)
      → e.this_coro ≡ t
      → Kept e t
      → Shape t e.running_now
      → m.joiner ≡ t
      → (t ≡ none → dead ≡ true)
      → Good dead (join_loop e d (some m))
  unfolding join_loop
  join_loop-Good t this v s name out = elim (Bool-cases (is_finished m.state)) [
    | inl over ↦
        subst (λ b. Good dead (if b then join_end e d m else suspend_this e (joins d) e.this_coro))
          (sym over) (end-Good t this v s name over)
    | inr over ↦
        subst (λ b. Good dead (if b then join_end e d m else suspend_this e (joins d) e.this_coro))
          (sym over)
          (subst (λ o. Good dead (suspend_this e (joins d) o)) (sym this)
            (wait_this-Good t v s name over out))
  ]

-- What a join asks for: a coroutine that nobody waits for and that was not joined.
pub record Joinable (e : Engine) (d : ℕ) : Type 0 where
  pub inside : d < length e.coros
  pub free : joiner_in (get_elem? e.coros d) ≡ none
  pub unpooled : total (same d) e.pool ≡ 0

this-inside : (e : Engine) (j : ℕ) → Kept e (some j) → j < length e.coros
this-inside e j v = elim (Option-cases (get_elem? e.coros j)) [
  | inl n ↦ absurd (omega (arith, hand_runs e j v, ap runs n))
  | inr (k, at) ↦ get_elem?-lt e.coros j at
]

join-Good_at :
    (dead : Bool) (e : Engine) (d : ℕ) (m : Coro) (t : Option ℕ)
    → get_elem? e.coros d ≡ some m
    → e.this_coro ≡ t
    → Kept e t
    → Shape t e.running_now
    → Waits e none
    → m.joiner ≡ none
    → total (same d) e.pool ≡ 0
    → (t ≡ none → dead ≡ true)
    → Good dead (join_coro e d (some m))
unfolding join_coro
join-Good_at dead e d m t at this v s w nobody free out =
    let m' : Coro = record m { joiner = e.this_coro } in
    let e' : Engine = put e d m' in
    let h : Change e t d m m' e' t = record {
      coros = refl;
      count = refl;
      place = refl;
      place_else = λ x ne. refl;
      pool = omega (arith, free);
      pool_else = λ x ne. omega arith;
      ready = sym (ap lacks at) ∙ v.ready d;
      known = λ j q. this-inside e j (subst (Kept e) (sym this ∙ q) v);
    } in
    let at' = get_elem?-set_self e.coros d m' at in
    let w' : Waits e' none =
      Calm-Waits h at
        (record {
          leaves = λ x q. q;
          joiner = λ j q. cc;
          ends = omega arith;
          starts = λ x q. omega arith;
          pool = λ x. omega arith;
        })
        w in
    assert-Good dead _ _ (ap is_none nobody) (
      subst (λ o. Good dead (join_loop e' d o)) (sym at')
        (join_loop-Good dead e' d m' at' free w' t this (Change-Kept h at v) s this out))

pub join-Good :
    (dead : Bool) (e : Engine) (d : ℕ)
    → Safe e
    → Joinable e d
    → (e.this_coro ≡ none → dead ≡ true)
    → Good dead (join_coro e d (get_elem? e.coros d))
join-Good dead e d safe j out = elim (Option-cases (get_elem? e.coros d)) [
  | inl n ↦ absurd (get_elem?-lt_ne e.coros d j.inside n)
  | inr (m, at) ↦
      subst (λ o. Good dead (join_coro e d o)) (sym at)
        (join-Good_at dead e d m e.this_coro at refl safe.kept safe.shape safe.waits
          (sym (ap joiner_in at) ∙ j.free) j.unpooled out)
]
