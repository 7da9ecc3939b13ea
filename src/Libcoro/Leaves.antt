-- ===== src/Libcoro/Leaves.antt =====
-- A coroutine that suspends, yields or ends: no assertion fails, and the next one goes on.
use mathlib.Core.Path.{subst}
use system_prog.Common.{
  ℕ, ◌≤◌, ◌≡◌, ◌∙◌, refl, sym, ap, Bool, none, some, [], ◌∷◌, ◌++◌, get_elem?, get_elem?-set_self,
  total, total-append, arith, inl,
}
use system_prog.Libcoro.Places.{
  run_state, end_state, runs, ended, lacking, joiner_in, here, Kept, Change, Change-Kept, every,
  Behind,
}
use system_prog.Libcoro.Good.{Good, assert-Good, one_self, one-ne, is_running-one}
use system_prog.Libcoro.Switch.{hand_runs, hand_unlinked, resume_next-Good}
use system_prog.Libcoro.Waits.{Waits, state_le_one, Change-Waits, Calm-Waits}
use system_prog.Libcoro.Wakeups.{Woken, wakeup_joiner-Woken}
use system_prog.Libcoro.Calls.{suspend_coro, yield_coro, finish_coro, joins_in}
use system_prog.Libcoro.{
  suspended, finished, Context, restarts, returns, joins, Coro, Engine, Outcome, and_then, same,
  put, resume_next,
}

-- What a coroutine that goes to wait has to know of the one that it waits for.
pub record Open (e : Engine) (c d : ℕ) : Type 0 where
  pub named : joiner_in (get_elem? e.coros d) ≡ some c
  pub unended : ended (get_elem? e.coros d) ≡ 0
  pub unpooled : total (same d) e.pool ≡ 0

-- Coroutine `c` goes on.
module _ (dead : Bool) (e : Engine) (c : ℕ) (v : Kept e (some c)) (b : Behind e.running_now)
    (w : Waits e none) (k : Coro) (at : get_elem? e.coros c ≡ some k) where
  runs_now : run_state k.state ≡ 1
  runs_now = sym (ap runs at) ∙ hand_runs e c v

  ends_not : end_state k.state ≡ 0
  ends_not = omega (arith, state_le_one (get_elem? e.coros c), ap runs at, ap ended at, runs_now)

  unpooled : total (same c) e.pool ≡ 0
  unpooled = omega (arith, v.pooled c, ap ended at, ends_not)

  abbrev asleep : Context → Engine
  asleep ctx = put e c (record k { state = suspended; ctx = ctx })

  asleep-Change :
      (ctx : Context)
      → lacking suspended ctx k.func ≡ 0
      → Change e (some c) c k (record k { state = suspended; ctx = ctx }) (asleep ctx) none
  asleep-Change ctx l = record {
    coros = refl;
    count = refl;
    place = omega (arith, runs_now, one_self c);
    place_else = λ x ne. omega (arith, one-ne c x ne);
    pool = omega (arith, unpooled);
    pool_else = λ x ne. omega arith;
    ready = l;
    known = λ j q. v.known c j (ap joiner_in at ∙ q);
  }

  asleep-Good :
      (ctx : Context) (l : lacking suspended ctx k.func ≡ 0)
      → ((d : ℕ)
          → joins_in (some (record k { state = suspended; ctx = ctx })) ≡ some d
          → Open e c d)
      → Good dead (suspend_coro e c ctx (some k))
  unfolding suspend_coro
  asleep-Good ctx l open_of =
      let h = asleep-Change ctx l in
      assert-Good dead _ _ (hand_unlinked e c v) (
        assert-Good dead _ _ (is_running-one k.state runs_now) (
          resume_next-Good dead (asleep ctx) (Change-Kept h at v) b (
            Change-Waits none none h at w
              (λ d q.
                let o = open_of d q in
                inl (record {
                  named =
                      every h at (λ x r. joiner_in r ≡ joiner_in (get_elem? e.coros x))
                        (sym (ap joiner_in at)) (λ x ne. refl) d
                      ∙ o.named;
                  woken = omega (
                    arith,
                    o.unended,
                    every h at (λ x r. ended r ≤ ended (get_elem? e.coros x)) (omega arith)
                        (λ x ne. omega arith) d,
                  );
                  alive =
                      every h at (λ x r. x ≡ c → ended r ≡ 0) (λ s. refl)
                        (λ x ne s. absurd (ne (sym s))) c refl;
                  unpooled = o.unpooled;
                }))
              (λ j q. record {
                joiner = sym (ap joiner_in at) ∙ (w.joined j c q).named;
                ends = omega arith;
                pool = omega arith;
              })
              (λ j ne. omega arith))))

  pub suspend-Good : Good dead (suspend_coro e c returns (some k))
  suspend-Good = asleep-Good returns refl (λ d q. cc)

  pub wait-Good : (d : ℕ) → Open e c d → Good dead (suspend_coro e c (joins d) (some k))
  wait-Good d o = asleep-Good (joins d) refl (λ x q. let s : d ≡ x = cc in subst (Open e c) s o)

  abbrev yielded : Engine
  yielded = record (put e c (record k { ctx = returns })) {
    running_next = e.running_next ++ c ∷ [];
  }

  yield-Change : Change e (some c) c k (record k { ctx = returns }) yielded none
  yield-Change = record {
    coros = refl;
    count = refl;
    place = omega (arith, total-append (same c) e.running_next (c ∷ []), one_self c);
    place_else = λ x ne. omega (arith, total-append (same x) e.running_next (c ∷ []));
    pool = omega (arith, unpooled);
    pool_else = λ x ne. omega arith;
    ready = refl;
    known = λ j q. v.known c j (ap joiner_in at ∙ q);
  }

  pub yield-Good : Good dead (yield_coro e c (some k))
  unfolding yield_coro
  yield-Good = assert-Good dead _ _ (hand_unlinked e c v) (
      assert-Good dead _ _ (is_running-one k.state runs_now) (
        resume_next-Good dead yielded (Change-Kept yield-Change at v) b (
          Calm-Waits yield-Change at
            (record {
              leaves = λ d q. cc;
              joiner = λ j q. q;
              ends = omega arith;
              starts = λ d q. omega arith;
              pool = λ x. omega arith;
            })
            w)))

  abbrev over : ℕ → Coro
  over value = record k { ret = value; func = none; state = finished; ctx = restarts }

  finish-Change : (value : ℕ) → Change e (some c) c k (over value) (put e c (over value)) none
  finish-Change value = record {
    coros = refl;
    count = refl;
    place = omega (arith, runs_now, one_self c);
    place_else = λ x ne. omega (arith, one-ne c x ne);
    pool = omega (arith, unpooled);
    pool_else = λ x ne. omega arith;
    ready = refl;
    known = λ j q. v.known c j (ap joiner_in at ∙ q);
  }

  finish-Waits : (value : ℕ) → Waits (put e c (over value)) k.joiner
  finish-Waits value =
      Change-Waits none k.joiner (finish-Change value) at w (λ d q. cc)
        (λ j q.
          let name : k.joiner ≡ some j = sym (ap joiner_in at) ∙ (w.joined j c q).named in
          record {
            joiner = name;
            ends = omega (arith, ap (here j) name, one_self j);
            pool = omega arith;
          })
        (λ j ne. omega arith)

  and_then-Good :
      {o : Outcome} {e1 : Engine}
      → Woken e1 none o
      → Behind e1.running_now
      → Good dead (and_then o resume_next)
  and_then-Good u behind =
      subst (λ x. Good dead (and_then x resume_next)) (sym u.ends)
        (resume_next-Good dead u.after u.kept (subst Behind (sym u.same_now) behind) u.waits)

  pub finish-Good : (value : ℕ) → Good dead (finish_coro e value c (some k))
  unfolding finish_coro
  finish-Good value =
      let kept = Change-Kept (finish-Change value) at v in
      assert-Good dead _ _ (is_running-one k.state runs_now) (
        and_then-Good
          (wakeup_joiner-Woken (put e c (over value)) none k.joiner kept (finish-Waits value)
            (λ j q.
              kept.known c j (ap joiner_in (get_elem?-set_self e.coros c (over value) at) ∙ q)))
          b)
