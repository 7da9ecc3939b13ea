-- ===== src/Libcoro/Waits.antt =====
-- Who waits in `coro_engine_join` for whom.
use mathlib.Core.Path.{subst}
use native.Mathlib.Decide.{ℕ_discrete}
use system_prog.Common.{
  ℕ, ◌+◌, ◌≤◌, ◌≡◌, ◌≢◌, ◌⊎◌, inl, inr, ◌∙◌, sym, ap, Option, none, some, get_elem?,
  get_elem?-set_self, get_elem?-set_ne, total, arith,
}
use system_prog.Libcoro.Places.{run_state, end_state, runs, ended, joiner_in, here, Change}
use system_prog.Libcoro.Calls.{joins_in}
use system_prog.Libcoro.{CoroState, running, suspended, finished, Coro, Engine, same}

-- Coroutine `j` waits for `d`, which knows it and is not in the pool; if `d` has ended, `j` runs or is
-- the one that is about to be woken.
pub record Joined (e : Engine) (late : Option ℕ) (j d : ℕ) : Type 0 where
  pub named : joiner_in (get_elem? e.coros d) ≡ some j
  pub woken : ended (get_elem? e.coros d) ≤ runs (get_elem? e.coros j) + here j late
  pub alive : ended (get_elem? e.coros j) ≡ 0
  pub unpooled : total (same d) e.pool ≡ 0

pub record Waits (e : Engine) (late : Option ℕ) : Type 0 where
  pub joined : (j d : ℕ) → joins_in (get_elem? e.coros j) ≡ some d → Joined e late j d

one_state : (s : CoroState) → run_state s + end_state s ≤ 1
one_state running = omega arith
one_state suspended = omega arith
one_state finished = omega arith

-- A coroutine is in one state.
pub state_le_one : (o : Option Coro) → runs o + ended o ≤ 1
state_le_one none = omega arith
state_le_one (some k) = one_state k.state

-- What a change of coroutine `c` leaves of one that waits for it.
pub record Touches (e : Engine) (c : ℕ) (k k' : Coro) (e' : Engine) (late : Option ℕ) (j : ℕ)
    : Type 0 where
  pub joiner : k'.joiner ≡ some j
  pub ends : ended (some k') ≤ ended (some k) + here j late
  pub pool : total (same c) e'.pool ≤ total (same c) e.pool

-- What it leaves of the coroutine itself, where that waits.
pub record Stays (k k' : Coro) (late late' : Option ℕ) (c d : ℕ) : Type 0 where
  pub before : joins_in (some k) ≡ some d
  pub alive : ended (some k') ≡ 0
  pub run : runs (some k) + here c late ≤ runs (some k') + here c late'

module _ {e : Engine} {hand : Option ℕ} {c : ℕ} {k k' : Coro} {e' : Engine} {hand' : Option ℕ}
    (late late' : Option ℕ) (h : Change e hand c k k' e' hand') (at : get_elem? e.coros c ≡ some k)
    (w : Waits e late)
    (itself : (d : ℕ)
      → joins_in (some k') ≡ some d
      → Joined e' late' c d ⊎ Stays k k' late late' c d)
    (others : (j : ℕ) → joins_in (get_elem? e.coros j) ≡ some c → Touches e c k k' e' late' j)
    (later : (j : ℕ) → c ≢ j → here j late ≤ here j late') where
  now_self : get_elem? e'.coros c ≡ some k'
  now_self = ap (λ cs. get_elem? cs c) h.coros ∙ get_elem?-set_self e.coros c k' at

  now_else : (x : ℕ) → c ≢ x → get_elem? e'.coros x ≡ get_elem? e.coros x
  now_else x ne = ap (λ cs. get_elem? cs x) h.coros ∙ get_elem?-set_ne e.coros c x k' ne

  -- The side of the one that is waited for.
  record Kept (j d : ℕ) : Type 0 where
    named : joiner_in (get_elem? e'.coros d) ≡ some j
    ends : ended (get_elem? e'.coros d) ≤ ended (get_elem? e.coros d) + here j late'
    pool : total (same d) e'.pool ≤ total (same d) e.pool

  joined-Kept : (j d : ℕ) → joins_in (get_elem? e.coros j) ≡ some d → Kept j d
  joined-Kept j d q = elim (ℕ_discrete c d) [
    | yes s ↦
        let t = others j (q ∙ ap some (sym s)) in
        subst (Kept j) s (record {
          named = ap joiner_in now_self ∙ t.joiner;
          ends = omega (arith, t.ends, ap ended now_self, ap ended at);
          pool = t.pool;
        })
    | no ne ↦ record {
      named = ap joiner_in (now_else d ne) ∙ (w.joined j d q).named;
      ends = omega (arith, ap ended (now_else d ne));
      pool = h.pool_else d ne;
    }
  ]

  pub Change-Waits : Waits e' late'
  Change-Waits = record {
    joined = λ j d q. elim (ℕ_discrete c j) [
      | yes s ↦
          subst (λ x. Joined e' late' x d) s
            (elim (itself d
              (sym (ap joins_in now_self) ∙ ap (λ x. joins_in (get_elem? e'.coros x)) s ∙ q)) [
                | inl done ↦ done
                | inr stays ↦
                    let old = w.joined c d (ap joins_in at ∙ stays.before) in
                    let kept = joined-Kept c d (ap joins_in at ∙ stays.before) in
                    record {
                      named = kept.named;
                      woken = omega (
                        arith,
                        kept.ends,
                        old.woken,
                        stays.run,
                        ap runs at,
                        ap runs now_self,
                        state_le_one (get_elem? e'.coros d),
                      );
                      alive = ap ended now_self ∙ stays.alive;
                      unpooled = omega (arith, kept.pool, old.unpooled);
                    }
              ])
      | no ne ↦
          let before = sym (ap joins_in (now_else j ne)) ∙ q in
          let old = w.joined j d before in
          let kept = joined-Kept j d before in
          record {
            named = kept.named;
            woken = omega (
              arith,
              kept.ends,
              old.woken,
              later j ne,
              ap runs (now_else j ne),
              state_le_one (get_elem? e'.coros d),
            );
            alive = ap ended (now_else j ne) ∙ old.alive;
            unpooled = omega (arith, kept.pool, old.unpooled);
          }
    ];
  }
  -- Where the coroutine is joined by nobody else than before, and does not end.

pub record Calm (e : Engine) (k k' : Coro) (e' : Engine) : Type 0 where
  pub leaves : (d : ℕ) → joins_in (some k') ≡ some d → joins_in (some k) ≡ some d
  pub joiner : (j : ℕ) → k.joiner ≡ some j → k'.joiner ≡ some j
  pub ends : ended (some k') ≤ ended (some k)
  pub starts : (d : ℕ) → joins_in (some k') ≡ some d → runs (some k) ≤ runs (some k')
  pub pool : (x : ℕ) → total (same x) e'.pool ≤ total (same x) e.pool

pub Calm-Waits :
    {e : Engine} {hand : Option ℕ} {c : ℕ} {k k' : Coro} {e' : Engine} {hand' : Option ℕ}
    → Change e hand c k k' e' hand'
    → get_elem? e.coros c ≡ some k
    → Calm e k k' e'
    → Waits e none
    → Waits e' none
Calm-Waits {e} {c = c} {k} {k'} {e'} h at m w =
    Change-Waits none none h at w
      (λ d q.
        let old = w.joined c d (ap joins_in at ∙ m.leaves d q) in
        inr (record {
          before = m.leaves d q;
          alive = omega (arith, m.ends, old.alive, ap ended at);
          run = omega (arith, m.starts d q);
        }))
      (λ j q. record {
        joiner = m.joiner j (sym (ap joiner_in at) ∙ (w.joined j c q).named);
        ends = omega (arith, m.ends);
        pool = m.pool c;
      })
      (λ j ne. omega arith)
