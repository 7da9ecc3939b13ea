-- ===== src/Libcoro/Switch.antt =====
-- The switch to the next coroutine fails no assertion.
use mathlib.Core.Path.{subst}
use system_prog.Common.{
  ℕ, ◌+◌, ◌≡◌, ◌∙◌, refl, sym, ap, Bool, true, Option, none, some, Option-cases, List, [], ◌∷◌,
  ◌++◌, is_empty, get_elem?, total, arith, inl, inr,
}
use system_prog.Libcoro.Places.{
  run_state, runs, ended, lacking, lacks, joiner_in, here, queued, Kept, Change, Change-Kept,
  Behind, Shape,
}
use system_prog.Libcoro.Waits.{Waits, state_le_one, Calm-Waits}
use system_prog.Libcoro.{
  Context, begins, restarts, returns, joins, Coro, Who, sched, Engine, same, same_who, unlinked,
  is_none, put, enter_at, enter, coros_of, begin_round, coro_engine_run, resume, resume_next,
}
use system_prog.Libcoro.Good.{
  Between, Good, Safe, assert-Good, has_func, is_running-one, one_self, unlinked_of,
}

-- The one in hand runs, and is in no list.
module _ (e : Engine) (c : ℕ) (h : Kept e (some c)) where
  pub hand_runs : runs (get_elem? e.coros c) ≡ 1
  hand_runs = omega (arith, h.placed c, one_self c, state_le_one (get_elem? e.coros c))

  pub hand_unlinked : unlinked e c ≡ true
  hand_unlinked =
      unlinked_of e c (omega (arith, h.placed c, one_self c, hand_runs))
        (omega (arith, h.pooled c, hand_runs, state_le_one (get_elem? e.coros c)))

-- The queues and the current coroutine change, and who is in hand.
pub with_lists :
    (e : Engine) (now : List Who) (next : List ℕ) (this : Option ℕ) {hand hand' : Option ℕ}
    → Kept e hand
    → ((x : ℕ)
        → total (same_who x) now + total (same x) next + here x hand' ≡ queued e x + here x hand)
    → Kept (record e { running_now = now; running_next = next; this_coro = this }) hand'
with_lists e now next this v same_places = record {
  counted = v.counted;
  placed = λ x. same_places x ∙ v.placed x;
  pooled = v.pooled;
  ready = v.ready;
  known = v.known;
}

pub lists-Waits :
    (e : Engine) (now : List Who) (next : List ℕ) (this : Option ℕ)
    → Waits e none
    → Waits (record e { running_now = now; running_next = next; this_coro = this }) none
lists-Waits e now next this w = record {
  joined = λ j d q.
      let old = w.joined j d q in
      record { named = old.named; woken = old.woken; alive = old.alive; unpooled = old.unpooled };
}

pub returns_to : Engine → ℕ → Coro → Engine
returns_to e c k = record (put e c (record k { ctx = returns })) { this_coro = some c }

module _ (dead : Bool) (e : Engine) (c : ℕ) (v : Between e (some c)) where
  returns-Safe : (k : Coro) → get_elem? e.coros c ≡ some k → Safe (returns_to e c k)
  unfolding returns_to
  returns-Safe k at =
      let h : Change e (some c) c k (record k { ctx = returns }) (returns_to e c k) (some c) =
        record {
          coros = refl;
          count = refl;
          place = refl;
          place_else = λ x ne. refl;
          pool = omega (arith, v.kept.pooled c, ap ended at);
          pool_else = λ x ne. omega arith;
          ready = refl;
          known = λ j q. v.kept.known c j (ap joiner_in at ∙ q);
        } in
      record {
        kept = Change-Kept h at v.kept;
        shape = v.behind;
        waits =
            Calm-Waits h at
              (record {
                leaves = λ d q. cc;
                joiner = λ j q. q;
                ends = omega arith;
                starts = λ d q. omega arith;
                pool = λ x. omega arith;
              })
              v.waits;
      }

  goes_on : Safe (record e { this_coro = some c })
  goes_on = record {
    kept = with_lists e e.running_now e.running_next (some c) v.kept (λ x. refl);
    shape = v.behind;
    waits = lists-Waits e e.running_now e.running_next (some c) v.waits;
  }

  enter_at-Good :
      (k : Coro) (ctx : Context)
      → get_elem? e.coros c ≡ some k
      → k.ctx ≡ ctx
      → e.this_coro ≡ none
      → Good dead (enter_at e c k ctx)
  unfolding enter_at returns_to
  enter_at-Good k begins at q out = returns-Safe k at
  enter_at-Good k restarts at q out =
      let r : run_state k.state ≡ 1 = sym (ap runs at) ∙ hand_runs e c v.kept in
      let f = ap (λ x. lacking k.state x k.func) (sym q) ∙ sym (ap lacks at) ∙ v.kept.ready c in
      assert-Good dead _ _ (hand_unlinked e c v.kept) (
        assert-Good dead _ _ (ap is_none out) (
          assert-Good dead _ _ (is_running-one k.state r)
            (assert-Good dead _ _ (has_func k.state k.func r f) (returns-Safe k at))))
  enter_at-Good k returns at q out =
      assert-Good dead _ _ (hand_unlinked e c v.kept)
        (assert-Good dead _ _ (ap is_none out) goes_on)
  enter_at-Good k (joins d) at q out =
      assert-Good dead _ _ (hand_unlinked e c v.kept)
        (assert-Good dead _ _ (ap is_none out) goes_on)

  pub enter-Good : e.this_coro ≡ none → Good dead (enter e c (get_elem? e.coros c))
  unfolding enter
  enter-Good out = elim (Option-cases (get_elem? e.coros c)) [
    | inl n ↦ absurd (omega (arith, hand_runs e c v.kept, ap runs n))
    | inr (k, at) ↦
        subst (λ o. Good dead (enter e c o)) (sym at) (enter_at-Good k k.ctx at refl out)
  ]

total-coros_of :
    (x : ℕ) (cs : List ℕ) → total (same_who x) (coros_of cs ++ sched ∷ []) ≡ total (same x) cs
total-coros_of x [] = refl
total-coros_of x (c ∷ cs) = omega (arith, total-coros_of x cs)

module _ (dead : Bool) (e : Engine) (v : Kept e none) (w : Waits e none) where
  begin_round-Good :
      (next : List ℕ)
      → e.running_next ≡ next
      → e.running_now ≡ []
      → e.this_coro ≡ none
      → Good dead (begin_round e next)
  unfolding begin_round
  begin_round-Good [] n empty out = record {
    kept = subst (Kept e) (sym out) v;
    shape = subst (λ t. Shape t e.running_now) (sym out) empty;
    waits = w;
  }
  begin_round-Good (c ∷ cs) n empty out =
      let now = coros_of cs ++ sched ∷ [] in
      assert-Good dead _ _ (ap is_none out) (
        enter-Good dead (record e { running_now = now; running_next = [] }) c
          (record {
            kept = with_lists e now [] e.this_coro v (λ x.
                omega (
                  arith,
                  total-coros_of x cs,
                  ap (total (same x)) n,
                  ap (total (same_who x)) empty,
                ));
            behind = (cs, refl);
            waits = lists-Waits e now [] e.this_coro w;
          })
          out)

  -- The loop of the scheduler, from its top.
  pub coro_engine_run-Good : e.running_now ≡ [] → e.this_coro ≡ none → Good dead (coro_engine_run e)
  unfolding coro_engine_run
  coro_engine_run-Good empty out =
      assert-Good dead _ _ (ap is_empty empty) (begin_round-Good e.running_next refl empty out)

resume-Good :
    (dead : Bool) (e : Engine) (cs : List ℕ)
    → Kept e none
    → Waits e none
    → e.running_now ≡ coros_of cs ++ sched ∷ []
    → Good dead (resume e (coros_of cs ++ sched ∷ []))
unfolding resume
resume-Good dead e [] v w n =
    coro_engine_run-Good dead (record e { running_now = []; this_coro = none })
      (with_lists e [] e.running_next none v (λ x. omega (arith, ap (total (same_who x)) n)))
      (lists-Waits e [] e.running_next none w) refl refl
resume-Good dead e (c ∷ cs) v w n =
    let now = coros_of cs ++ sched ∷ [] in
    enter-Good dead (record e { running_now = now; this_coro = none }) c
      (record {
        kept =
            with_lists e now e.running_next none v (λ x. omega (arith, ap (total (same_who x)) n));
        behind = (cs, refl);
        waits = lists-Waits e now e.running_next none w;
      })
      refl

-- A switch, with nobody in hand.
pub resume_next-Good :
    (dead : Bool) (e : Engine)
    → Kept e none
    → Behind e.running_now
    → Waits e none
    → Good dead (resume_next e)
unfolding resume_next
resume_next-Good dead e v (cs, n) w =
    subst (λ l. Good dead (resume e l)) (sym n) (resume-Good dead e cs v w n)
