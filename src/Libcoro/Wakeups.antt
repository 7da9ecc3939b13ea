-- ===== src/Libcoro/Wakeups.antt =====
-- A wakeup fails no assertion, and keeps the invariant.
use mathlib.Core.Path.{subst}
use native.Mathlib.Decide.{ℕ_discrete}
use system_prog.Common.{
  ℕ, zero, suc, ◌+◌, ◌≤◌, ◌<◌, ◌≡◌, ◌≢◌, ◌∙◌, refl, sym, ap, Option, none, some, Option-cases, List,
  [], ◌∷◌, ◌++◌, get_elem?, length, total-append, arith, inl, inr,
}
use system_prog.Libcoro.Places.{
  run_state, end_state, runs, ended, lacking, lacks, joiner_in, here, Kept, Change, Change-Kept,
}
use system_prog.Libcoro.Good.{one_self, one-ne, unlinked_of}
use system_prog.Libcoro.Waits.{Waits, state_le_one, Change-Waits}
use system_prog.Libcoro.Calls.{wakeup_in, wakeup_coro, wakeup, wakeup_joiner}
use system_prog.Libcoro.{
  CoroState, running, suspended, finished, Context, begins, restarts, returns, joins, Coro, Engine,
  Outcome, goes, assert, same, put, still_linked,
}

-- A wakeup ends in a state that keeps the invariants.
pub record Woken (e : Engine) (hand : Option ℕ) (o : Outcome) : Type 0 where
  pub after : Engine
  pub ends : o ≡ goes after
  pub kept : Kept after hand
  pub waits : Waits after none
  pub same_now : after.running_now ≡ e.running_now
  pub same_this : after.this_coro ≡ e.this_coro

pub get_elem?-lt_ne : {A : Type 0} (xs : List A) (i : ℕ) → i < length xs → get_elem? xs i ≢ none
get_elem?-lt_ne [] i h e = omega (arith, h)
get_elem?-lt_ne (x ∷ xs) zero h e = cc
get_elem?-lt_ne (x ∷ xs) (suc i) h e = get_elem?-lt_ne xs i (omega (arith, h)) e

here_le_one : (c : ℕ) (o : Option ℕ) → here c o ≤ 1
here_le_one c none = omega arith
here_le_one c (some x) = ground arith

-- One that is woken needs no function more than before.
lacking-running : (x : Context) (f : Option ℕ) → lacking running x f ≡ lacking suspended x f
lacking-running begins f = refl
lacking-running returns f = refl
lacking-running (joins d) f = refl
lacking-running restarts none = refl
lacking-running restarts (some f) = refl

module _ (e : Engine) (hand late : Option ℕ) (d : ℕ) (v : Kept e hand) (w : Waits e late)
    (late_only : (j : ℕ) → d ≢ j → here j late ≡ 0) where
  -- Where the coroutine runs or has ended, nobody is late.
  not_late : runs (get_elem? e.coros d) + ended (get_elem? e.coros d) ≡ 1 → Waits e none
  not_late full = record {
    joined = λ j x q.
        let old = w.joined j x q in
        record {
          named = old.named;
          woken = elim (ℕ_discrete d j) [
            | yes s ↦ omega (
              arith,
              state_le_one (get_elem? e.coros x),
              full,
              old.alive,
              ap (λ i. ended (get_elem? e.coros i)) s,
              ap (λ i. runs (get_elem? e.coros i)) s,
            )
            | no ne ↦ omega (arith, old.woken, late_only j ne)
          ];
          alive = old.alive;
          unpooled = old.unpooled;
        };
  }

  stays-Woken : runs (get_elem? e.coros d) + ended (get_elem? e.coros d) ≡ 1 → Woken e hand (goes e)
  stays-Woken full = record {
    after = e;
    ends = refl;
    kept = v;
    waits = not_late full;
    same_now = refl;
    same_this = refl;
  }

  abbrev woken_state : Coro → Engine
  woken_state m = record (put e d (record m { state = running })) {
    running_next = e.running_next ++ d ∷ [];
  }

  module _ (m : Coro) (at : get_elem? e.coros d ≡ some m) (s : m.state ≡ suspended) where
    still : run_state m.state ≡ 0
    still = ap run_state s

    open_end : end_state m.state ≡ 0
    open_end = ap end_state s

    wake-Change : Change e hand d m (record m { state = running }) (woken_state m) hand
    wake-Change = record {
      coros = refl;
      count = refl;
      place = omega (arith, total-append (same d) e.running_next (d ∷ []), one_self d, still);
      place_else =
          λ x ne. omega (arith, total-append (same x) e.running_next (d ∷ []), one-ne d x ne);
      pool = omega (arith, v.pooled d, ap ended at, open_end);
      pool_else = λ x ne. omega arith;
      ready =
          lacking-running m.ctx m.func
          ∙ ap (λ x. lacking x m.ctx m.func) (sym s)
          ∙ sym (ap lacks at)
          ∙ v.ready d;
      known = λ j q. v.known d j (ap joiner_in at ∙ q);
    }

    wake-Woken : Woken e hand (wakeup_in e d m suspended)
    unfolding wakeup_in
    wake-Woken =
        let free =
          unlinked_of e d (omega (arith, v.placed d, ap runs at, still))
            (omega (arith, v.pooled d, ap ended at, open_end)) in
        record {
          after = woken_state m;
          ends = ap (λ b. assert b still_linked (goes (woken_state m))) free;
          kept = Change-Kept wake-Change at v;
          waits =
              Change-Waits late none wake-Change at w
                (λ x q. inr (record {
                  before = q;
                  alive = refl;
                  run = omega (arith, here_le_one d late, still);
                }))
                (λ j q. record {
                  joiner = sym (ap joiner_in at) ∙ (w.joined j d q).named;
                  ends = omega arith;
                  pool = omega arith;
                })
                (λ j ne. omega (arith, late_only j ne));
          same_now = refl;
          same_this = refl;
        }

  wakeup_in-Woken :
      (m : Coro) (x : CoroState)
      → get_elem? e.coros d ≡ some m
      → m.state ≡ x
      → Woken e hand (wakeup_in e d m x)
  unfolding wakeup_in
  wakeup_in-Woken m running at q =
      stays-Woken (omega (arith, ap runs at, ap ended at, ap run_state q, ap end_state q))
  wakeup_in-Woken m finished at q =
      stays-Woken (omega (arith, ap runs at, ap ended at, ap run_state q, ap end_state q))
  wakeup_in-Woken m suspended at q = wake-Woken m at q

  pub wakeup-Woken : d < length e.coros → Woken e hand (wakeup e d)
  unfolding wakeup_coro
  wakeup-Woken l = elim (Option-cases (get_elem? e.coros d)) [
    | inl n ↦ absurd (get_elem?-lt_ne e.coros d l n)
    | inr (m, at) ↦
        subst (λ o. Woken e hand (wakeup_coro e d o)) (sym at) (wakeup_in-Woken m m.state at refl)
  ]

-- The coroutine that waits for one that has ended, if any.
pub wakeup_joiner-Woken :
    (e : Engine) (hand o : Option ℕ)
    → Kept e hand
    → Waits e o
    → ((j : ℕ) → o ≡ some j → j < length e.coros)
    → Woken e hand (wakeup_joiner e o)
unfolding wakeup_joiner
wakeup_joiner-Woken e hand none v w l = record {
  after = e;
  ends = refl;
  kept = v;
  waits = w;
  same_now = refl;
  same_this = refl;
}
wakeup_joiner-Woken e hand (some j) v w l =
    wakeup-Woken e hand (some j) j v w (λ i ne. one-ne j i ne) (l j refl)
