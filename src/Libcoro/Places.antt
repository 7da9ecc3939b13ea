-- ===== src/Libcoro/Places.antt =====
-- Where every coroutine stands: the invariant of the lists, and how it changes with one coroutine.
use system_prog.Common.{
  length-set, ℕ, ◌+◌, ◌≤◌, ◌<◌, ◌≡◌, ◌≢◌, ◌∙◌, sym, ap, Option, none, some, List, [], ◌∷◌, ◌++◌,
  ◌==◌, get_elem?, get_elem?-set_all, set, length, total, arith,
}
use system_prog.Libcoro.{
  CoroState, running, suspended, finished, Context, begins, restarts, returns, joins, Coro, Who,
  sched, Engine, one, same, same_who, coros_of,
}
use mathlib.Core.Path.{subst}

-- Whether it runs, as a number; so whether it has ended, and whether it is to start again with no function.
abbrev pub run_state : CoroState → ℕ
run_state running = 1
run_state suspended = 0
run_state finished = 0

abbrev pub end_state : CoroState → ℕ
end_state running = 0
end_state suspended = 0
end_state finished = 1

abbrev pub runs : Option Coro → ℕ
runs none = 0
runs (some k) = run_state k.state

abbrev pub ended : Option Coro → ℕ
ended none = 0
ended (some k) = end_state k.state

abbrev pub lacking : CoroState → Context → Option ℕ → ℕ
lacking s begins f = 0
lacking s returns f = 0
lacking s (joins d) f = 0
lacking finished restarts f = 0
lacking running restarts none = 1
lacking running restarts (some f) = 0
lacking suspended restarts none = 1
lacking suspended restarts (some f) = 0

abbrev pub lacks : Option Coro → ℕ
lacks none = 0
lacks (some k) = lacking k.state k.ctx k.func

abbrev pub joiner_in : Option Coro → Option ℕ
joiner_in none = none
joiner_in (some k) = k.joiner

abbrev pub here : ℕ → Option ℕ → ℕ
here c none = 0
here c (some x) = one (x == c)

abbrev pub queued : Engine → ℕ → ℕ
queued e c = total (same_who c) e.running_now + total (same c) e.running_next

-- A coroutine that runs stands once in a queue, or is the one in hand; any other in none. Only those
-- that have ended are in the pool, once at most. One that starts again has a function, and joiners are
-- coroutines.
pub record Kept (e : Engine) (hand : Option ℕ) : Type 0 where
  pub counted : e.coro_count ≡ length e.coros
  pub placed : (c : ℕ) → queued e c + here c hand ≡ runs (get_elem? e.coros c)
  pub pooled : (c : ℕ) → total (same c) e.pool ≤ ended (get_elem? e.coros c)
  pub ready : (c : ℕ) → lacks (get_elem? e.coros c) ≡ 0
  pub known : (c j : ℕ) → joiner_in (get_elem? e.coros c) ≡ some j → j < length e.coros

-- What is enough when coroutine `c` changes from `k` to `k'`, and the rest of the state with it.
pub record Change (e : Engine) (hand : Option ℕ) (c : ℕ) (k k' : Coro) (e' : Engine)
    (hand' : Option ℕ) : Type 0 where
  pub coros : e'.coros ≡ set e.coros c k'
  pub count : e'.coro_count ≡ e.coro_count
  pub place : queued e' c + here c hand' + runs (some k) ≡ queued e c + here c hand + runs (some k')
  pub place_else : (x : ℕ) → c ≢ x → queued e' x + here x hand' ≡ queued e x + here x hand
  pub pool : total (same c) e'.pool ≤ ended (some k')
  pub pool_else : (x : ℕ) → c ≢ x → total (same x) e'.pool ≤ total (same x) e.pool
  pub ready : lacks (some k') ≡ 0
  pub known : (j : ℕ) → k'.joiner ≡ some j → j < length e.coros

module _ {e : Engine} {hand : Option ℕ} {c : ℕ} {k k' : Coro} {e' : Engine} {hand' : Option ℕ}
    (h : Change e hand c k k' e' hand') (at : get_elem? e.coros c ≡ some k) where
  -- What holds of each coroutine after the change.
  pub every :
      (P : ℕ → Option Coro → Type 0)
      → P c (some k')
      → ((x : ℕ) → c ≢ x → P x (get_elem? e.coros x))
      → (x : ℕ) → P x (get_elem? e'.coros x)
  every P now others x =
      subst (λ cs. P x (get_elem? cs x)) (sym h.coros)
        (get_elem?-set_all P e.coros c k' at now others x)

  pub same_length : length e'.coros ≡ length e.coros
  same_length = ap length h.coros ∙ length-set e.coros c k'

  pub Change-Kept : Kept e hand → Kept e' hand'
  Change-Kept v = record {
    counted = h.count ∙ v.counted ∙ sym same_length;
    placed =
        every (λ x o. queued e' x + here x hand' ≡ runs o)
          (omega (arith, h.place, v.placed c, ap runs at)) (λ x ne. h.place_else x ne ∙ v.placed x);
    pooled =
        every (λ x o. total (same x) e'.pool ≤ ended o) h.pool
          (λ x ne. omega (arith, h.pool_else x ne, v.pooled x));
    ready = every (λ x o. lacks o ≡ 0) h.ready (λ x ne. v.ready x);
    known =
        every (λ x o. (j : ℕ) → joiner_in o ≡ some j → j < length e'.coros)
          (λ j q. omega (arith, h.known j q, same_length))
          (λ x ne j q. omega (arith, v.known x j q, same_length));
  }

-- The scheduler comes last in the list of this round.
abbrev pub Behind : List Who → Type 0
Behind now = (cs : List ℕ) × (now ≡ coros_of cs ++ sched ∷ [])

-- Outside of the coroutines the list is empty.
abbrev pub Shape : Option ℕ → List Who → Type 0
Shape none now = now ≡ []
Shape (some c) now = (cs : List ℕ) × (now ≡ coros_of cs ++ sched ∷ [])
