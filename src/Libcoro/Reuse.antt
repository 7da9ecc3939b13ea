-- ===== src/Libcoro/Reuse.antt =====
-- A coroutine from the pool starts again: no assertion fails.
use mathlib.Core.Path.{subst}
use system_prog.Common.{
  ℕ, ◌+◌, ◌≡◌, ◌∙◌, refl, sym, ap, Bool, none, some, Option-cases, List, [], ◌∷◌, ◌==◌, get_elem?,
  total, total-append, arith, inl, inr,
}
use system_prog.Libcoro.Joining.{Safe-at}
use system_prog.Libcoro.Spawning.{spawn_new-Good}
use system_prog.Libcoro.Places.{run_state, runs, ended, lacking, joiner_in, Change, Change-Kept}
use system_prog.Libcoro.Good.{Safe, Good, assert-Good, one_self, one-ne, unlinked_of}
use system_prog.Libcoro.Waits.{Waits, state_le_one, Change-Waits}
use system_prog.Libcoro.Calls.{joins_in, queue_last, respawn, spawn}
use system_prog.Libcoro.{
  running, Context, begins, restarts, returns, joins, Coro, Engine, one, same, put,
}

lacking_with_func : (x : Context) (f : ℕ) → lacking running x (some f) ≡ 0
lacking_with_func begins f = refl
lacking_with_func returns f = refl
lacking_with_func (joins d) f = refl
lacking_with_func restarts f = refl

module _ (dead : Bool) (e : Engine) (func arg : ℕ) (safe : Safe e) where
  abbrev again : Coro → Coro
  again k = record k { func = some func; func_arg = arg; state = running }

  module _ (c : ℕ) (cs : List ℕ) (pool : e.pool ≡ c ∷ cs) where
    abbrev taken : Engine
    taken = record e { pool = cs }

    abbrev started : Coro → Engine
    started k = put taken c (again k)

    pool_count : (x : ℕ) → total (same x) e.pool ≡ one (c == x) + total (same x) cs
    pool_count x = ap (total (same x)) pool

    ended_now : ended (get_elem? e.coros c) ≡ 1
    ended_now =
        omega
          (arith, safe.kept.pooled c, pool_count c, one_self c, state_le_one (get_elem? e.coros c))

    module _ (k : Coro) (at : get_elem? e.coros c ≡ some k) where
      still : run_state k.state ≡ 0
      still = omega (arith, ended_now, state_le_one (get_elem? e.coros c), ap runs at)

      once : total (same c) cs ≡ 0
      once = omega (arith, safe.kept.pooled c, ended_now, pool_count c, one_self c)

      again-Change : Change e e.this_coro c k (again k) (queue_last (started k) c) e.this_coro
      again-Change = record {
        coros = refl;
        count = refl;
        place = omega (arith, total-append (same c) e.running_next (c ∷ []), one_self c, still);
        place_else =
            λ x ne. omega (arith, total-append (same x) e.running_next (c ∷ []), one-ne c x ne);
        pool = omega (arith, once);
        pool_else = λ x ne. omega (arith, pool_count x);
        ready = lacking_with_func k.ctx func;
        known = λ j q. safe.kept.known c j (ap joiner_in at ∙ q);
      }

      again-Waits : Waits (queue_last (started k) c) none
      again-Waits =
          Change-Waits none none again-Change at safe.waits
            (λ d q.
              absurd (omega (arith, ended_now, (safe.waits.joined c d (ap joins_in at ∙ q)).alive)))
            (λ j q.
              absurd (omega (arith, (safe.waits.joined j c q).unpooled, pool_count c, one_self c)))
            (λ j ne. omega arith)

      respawn-Good_at : Good dead (respawn taken c func arg (some k))
      unfolding respawn
      respawn-Good_at =
          assert-Good dead _ _
            (unlinked_of (started k) c (omega (arith, safe.kept.placed c, ap runs at, still)) once)
            (Safe-at (queue_last (started k) c) e.this_coro refl
              (Change-Kept again-Change at safe.kept) safe.shape again-Waits)

    respawn-Good : Good dead (respawn taken c func arg (get_elem? e.coros c))
    respawn-Good = elim (Option-cases (get_elem? e.coros c)) [
      | inl n ↦ absurd (omega (arith, ended_now, ap ended n))
      | inr (k, at) ↦
          subst (λ o. Good dead (respawn taken c func arg o)) (sym at) (respawn-Good_at k at)
    ]

  spawn-Good_at : (pool : List ℕ) → e.pool ≡ pool → Good dead (spawn e func arg pool)
  unfolding spawn
  spawn-Good_at [] q =
      spawn_new-Good dead e e.this_coro safe.kept safe.waits func arg refl safe.shape
  spawn-Good_at (c ∷ cs) q = respawn-Good c cs q

  pub spawn-Good : Good dead (spawn e func arg e.pool)
  spawn-Good = spawn-Good_at e.pool refl
