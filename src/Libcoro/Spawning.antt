-- ===== src/Libcoro/Spawning.antt =====
-- A new coroutine, from a new stack or from the pool: no assertion fails.
use system_prog.Common.{
  get_elem?-length, get_elem?-append_ne, get_elem?-append_all, ℕ, ◌+◌, ◌≤◌, ◌<◌, ◌≡◌, ◌≢◌, ◌∙◌,
  refl, sym, ap, Bool, Option, none, some, [], ◌∷◌, ◌++◌, get_elem?, length, length-append, total,
  total-append, arith,
}
use system_prog.Libcoro.Joining.{Safe-at}
use system_prog.Libcoro.Places.{runs, ended, lacks, joiner_in, here, queued, Kept, Shape}
use system_prog.Libcoro.Good.{Good, assert-Good, one_self, one-ne, unlinked_of}
use system_prog.Libcoro.Waits.{Waits, Joined}
use system_prog.Libcoro.Calls.{joins_in, new_coro, queue_last, spawn_new}
use system_prog.Libcoro.{Engine, same}

module _ (dead : Bool) (e : Engine) (t : Option ℕ) (v : Kept e t) (w : Waits e none)
    (func arg : ℕ) where
  abbrev added : Engine
  added = record e { coros = e.coros ++ new_coro func arg ∷ []; coro_count = e.coro_count + 1 }

  abbrev last : ℕ
  last = length e.coros

  unplaced : queued e last + here last t ≡ 0
  unplaced = v.placed last ∙ ap runs (get_elem?-length e.coros)

  last_unpooled : total (same last) e.pool ≡ 0
  last_unpooled = omega (arith, v.pooled last, ap ended (get_elem?-length e.coros))

  added-Kept : Kept (queue_last added last) t
  added-Kept = record {
    counted = omega (arith, v.counted, length-append e.coros (new_coro func arg ∷ []));
    placed =
        get_elem?-append_all (λ x o. queued (queue_last added last) x + here x t ≡ runs o) e.coros
          (new_coro func arg)
          (omega
            (arith, unplaced, total-append (same last) e.running_next (last ∷ []), one_self last))
          (λ x ne. omega (
            arith,
            v.placed x,
            total-append (same x) e.running_next (last ∷ []),
            one-ne last x ne,
          ));
    pooled =
        get_elem?-append_all (λ x o. total (same x) e.pool ≤ ended o) e.coros (new_coro func arg)
          (omega (arith, last_unpooled)) (λ x ne. v.pooled x);
    ready =
        get_elem?-append_all (λ x o. lacks o ≡ 0) e.coros (new_coro func arg) refl
          (λ x ne. v.ready x);
    known =
        get_elem?-append_all
          (λ x o. (j : ℕ) → joiner_in o ≡ some j → j < length (e.coros ++ new_coro func arg ∷ []))
          e.coros (new_coro func arg) (λ j q. cc)
          (λ x ne j q.
            omega (arith, v.known x j q, length-append e.coros (new_coro func arg ∷ [])));
  }

  -- One that is waited for, or that waits, was there before.
  stays_joined :
      (j d : ℕ) → joins_in (get_elem? e.coros j) ≡ some d → Joined (queue_last added last) none j d
  stays_joined j d q =
      let old = w.joined j d q in
      let d_ne : last ≢ d = λ s.
        let n : joiner_in none ≡ some j =
          sym (ap joiner_in (get_elem?-length e.coros))
          ∙ ap (λ x. joiner_in (get_elem? e.coros x)) s
          ∙ old.named in
        cc in
      let j_ne : last ≢ j = λ s.
        let n : joins_in none ≡ some d =
          sym (ap joins_in (get_elem?-length e.coros))
          ∙ ap (λ x. joins_in (get_elem? e.coros x)) s
          ∙ q in
        cc in
      let at_d = get_elem?-append_ne e.coros (new_coro func arg) d d_ne in
      let at_j = get_elem?-append_ne e.coros (new_coro func arg) j j_ne in
      record {
        named = ap joiner_in at_d ∙ old.named;
        woken = omega (arith, old.woken, ap ended at_d, ap runs at_j);
        alive = ap ended at_j ∙ old.alive;
        unpooled = old.unpooled;
      }

  added-Waits : Waits (queue_last added last) none
  added-Waits = record {
    joined = λ j d.
        get_elem?-append_all (λ x o. joins_in o ≡ some d → Joined (queue_last added last) none x d)
          e.coros (new_coro func arg) (λ q. cc) (λ x ne q. stays_joined x d q) j;
  }

  module _ (this : e.this_coro ≡ t) (s : Shape t e.running_now) where
    pub spawn_new-Good : Good dead (spawn_new e func arg)
    unfolding spawn_new
    spawn_new-Good =
        assert-Good dead _ _ (unlinked_of added last (omega (arith, unplaced)) last_unpooled)
          (Safe-at (queue_last added last) t this added-Kept s added-Waits)
