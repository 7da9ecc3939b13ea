-- ===== src/Libcoro/Joining.antt =====
-- A join: it fails no assertion but those on what its caller asks for.
use mathlib.Core.Path.{subst}
use system_prog.Common.{
  ℕ, ◌≡◌, ◌≢◌, ◌∙◌, refl, sym, ap, Bool, true, false, Option, none, some, Option-cases, ◌∷◌, ==_iff,
  get_elem?, get_elem?-set_self, get_elem?-set_ne, total, arith, inl, inr,
}
use system_prog.Libcoro.Places.{
  end_state, runs, ended, lacks, joiner_in, Kept, Change, Change-Kept, Shape,
}
use system_prog.Libcoro.Good.{Safe, one_self, one-ne}
use system_prog.Libcoro.Switch.{hand_runs}
use system_prog.Libcoro.Waits.{Waits, state_le_one, Change-Waits, Calm-Waits}
use system_prog.Libcoro.Calls.{behind_coro, behind_this, behind_call, joins_in}
use system_prog.Libcoro.{
  CoroState, running, suspended, finished, returns, Coro, Engine, same, is_finished, same_option,
  put,
}

pub same_option_self : (o : Option ℕ) → same_option o o ≡ true
same_option_self none = refl
same_option_self (some x) = (==_iff x x).1 refl

pub is_finished-end : (s : CoroState) → is_finished s ≡ true → end_state s ≡ 1
is_finished-end finished e = refl
is_finished-end running e = cc
is_finished-end suspended e = cc

pub not_finished-end : (s : CoroState) → is_finished s ≡ false → end_state s ≡ 0
not_finished-end finished e = cc
not_finished-end running e = refl
not_finished-end suspended e = refl

-- The coroutine that was joined goes to the pool.
abbrev pooled_in : Engine → ℕ → Coro → Engine
pooled_in e d m = record (put e d (record m { joiner = none; ret = 0 })) { pool = d ∷ e.pool }

-- Nobody waits for it.
module _ (e : Engine) (hand : Option ℕ) (d : ℕ) (v : Kept e hand) (w : Waits e none) (m : Coro)
    (at : get_elem? e.coros d ≡ some m) (over : end_state m.state ≡ 1)
    (free : total (same d) e.pool ≡ 0)
    (nobody : (j : ℕ) → joins_in (get_elem? e.coros j) ≡ some d → ⊥) where
  pooled-Change : Change e hand d m (record m { joiner = none; ret = 0 }) (pooled_in e d m) hand
  pooled-Change = record {
    coros = refl;
    count = refl;
    place = omega arith;
    place_else = λ x ne. refl;
    pool = omega (arith, free, over, one_self d);
    pool_else = λ x ne. omega (arith, one-ne d x ne);
    ready = sym (ap lacks at) ∙ v.ready d;
    known = λ j q. cc;
  }

  pooled-Kept : Kept (pooled_in e d m) hand
  pooled-Kept = Change-Kept pooled-Change at v

  pooled-Waits : Waits (pooled_in e d m) none
  pooled-Waits =
      Change-Waits none none pooled-Change at w
        (λ x q.
          let old = w.joined d x (ap joins_in at ∙ q) in
          absurd (omega (arith, old.alive, ap ended at, over)))
        (λ j q. absurd (nobody j q)) (λ j ne. omega arith)

pub Safe-at :
    (e : Engine) (t : Option ℕ)
    → e.this_coro ≡ t
    → Kept e t
    → Shape t e.running_now
    → Waits e none
    → Safe e
Safe-at e t this v s w = record {
  kept = subst (Kept e) (sym this) v;
  shape = subst (λ o. Shape o e.running_now) (sym this) s;
  waits = w;
}

module _ (dead : Bool) (e : Engine) (d : ℕ) (m : Coro) (at : get_elem? e.coros d ≡ some m) where
  -- The context of the caller is set behind the call.
  behind-Safe :
      (c : ℕ) (k : Coro)
      → get_elem? e.coros c ≡ some k
      → Kept e (some c)
      → Waits e none
      → Kept (put e c (record k { ctx = returns })) (some c)
        × Waits (put e c (record k { ctx = returns })) none
  behind-Safe c k atc v w =
      let h : Change e (some c) c k (record k { ctx = returns })
          (put e c (record k { ctx = returns })) (some c) =
        record {
          coros = refl;
          count = refl;
          place = refl;
          place_else = λ x ne. refl;
          pool = omega (arith, v.pooled c, ap ended atc);
          pool_else = λ x ne. omega arith;
          ready = refl;
          known = λ j q. v.known c j (ap joiner_in atc ∙ q);
        } in
      (
        Change-Kept h atc v,
        Calm-Waits h atc
            (record {
              leaves = λ x q. cc;
              joiner = λ j q. q;
              ends = omega arith;
              starts = λ x q. omega arith;
              pool = λ x. omega arith;
            })
            w,
      )

  -- Only the caller waits for it, if anybody.
  pub ends-Safe :
      (t : Option ℕ)
      → e.this_coro ≡ t
      → Kept e t
      → Shape t e.running_now
      → Waits e none
      → m.joiner ≡ t
      → end_state m.state ≡ 1
      → total (same d) e.pool ≡ 0
      → Safe (pooled_in (behind_call e) d m)
  ends-Safe none this v s w name over free =
      subst (λ x. Safe (pooled_in x d m)) (sym (ap (behind_this e) this))
        (Safe-at (pooled_in e d m) none this (pooled-Kept e none d v w m at over free no_one) s
          (pooled-Waits e none d v w m at over free no_one))
    where
      no_one : (j : ℕ) → joins_in (get_elem? e.coros j) ≡ some d → ⊥
      no_one j q = let n = sym (ap joiner_in at) ∙ (w.joined j d q).named in cc
  ends-Safe (some c) this v s w name over free = elim (Option-cases (get_elem? e.coros c)) [
    | inl n ↦ absurd (omega (arith, hand_runs e c v, ap runs n))
    | inr (k, atc) ↦
        subst (λ x. Safe (pooled_in x d m))
          (sym (ap (behind_this e) this ∙ ap (behind_coro e c) atc)) (caller-Safe k atc)
  ]
    where
      other : c ≢ d
      other q = omega (
        arith,
        hand_runs e c v,
        ap (λ x. runs (get_elem? e.coros x)) q,
        ap runs at,
        state_le_one (get_elem? e.coros d),
        ap ended at,
        over,
      )

      caller-Safe :
          (k : Coro)
          → get_elem? e.coros c ≡ some k
          → Safe (pooled_in (put e c (record k { ctx = returns })) d m)
      caller-Safe k atc =
          let e1 : Engine = put e c (record k { ctx = returns }) in
          let (v1, w1) = behind-Safe c k atc v w in
          let same_m : get_elem? e1.coros d ≡ some m =
            get_elem?-set_ne e.coros c d (record k { ctx = returns }) other ∙ at in
          let no_one : ((j : ℕ) → joins_in (get_elem? e1.coros j) ≡ some d → ⊥) = λ j q.
            let named : m.joiner ≡ some j = sym (ap joiner_in same_m) ∙ (w1.joined j d q).named in
            let is_c : c ≡ j = cc in
            let now : get_elem? e1.coros j ≡ some (record k { ctx = returns }) =
              subst (λ x. get_elem? e1.coros x ≡ some (record k { ctx = returns })) is_c
                (get_elem?-set_self e.coros c (record k { ctx = returns }) atc) in
            let no : none ≡ some d = sym (ap joins_in now) ∙ q in cc in
          Safe-at (pooled_in e1 d m) (some c) this
            (pooled-Kept e1 (some c) d v1 w1 m same_m over free no_one) s
            (pooled-Waits e1 (some c) d v1 w1 m same_m over free no_one)
