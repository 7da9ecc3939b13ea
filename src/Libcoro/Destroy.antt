-- ===== src/Libcoro/Destroy.antt =====
-- When `coro_sched_destroy` gets through: when every coroutine was joined.
use mathlib.Core.Path.{subst}
use system_prog.Common.{
  ℕ, zero, suc, ◌+◌, ◌≤◌, ◌<◌, ◌≡◌, ◌⊎◌, ◌↔◌, ◌∙◌, refl, sym, ap, Bool, true, false, Option, none,
  some, List, [], ◌∷◌, ◌==◌, ==_iff, if◌then◌else◌, get_elem?, length, is_empty, total, arith, inl,
  inr,
}
use system_prog.Libcoro.Places.{runs, ended, Shape}
use system_prog.Libcoro.Good.{Safe, one_self, one-ne}
use system_prog.Libcoro.Waits.{state_le_one}
use system_prog.Libcoro.Reached.{none_of, Reach, Reach-Safe}
use system_prog.Libcoro.Calls.{free_pool, coro_sched_destroy}
use system_prog.Libcoro.{Engine, one, same, is_none}

-- The sum over the numbers below a bound.
abbrev sum_below : ℕ → (ℕ → ℕ) → ℕ
sum_below zero f = 0
sum_below (suc n) f = sum_below n f + f n

sum_below-add : (n : ℕ) (f g : ℕ → ℕ) → sum_below n (λ c. f c + g c) ≡ sum_below n f + sum_below n g
sum_below-add zero f g = refl
sum_below-add (suc n) f g = omega (arith, sum_below-add n f g)

sum_below-zero : (n : ℕ) (f : ℕ → ℕ) → ((c : ℕ) → c < n → f c ≡ 0) → sum_below n f ≡ 0
sum_below-zero zero f h = refl
sum_below-zero (suc n) f h =
    omega (arith, sum_below-zero n f (λ c l. h c (omega (arith, l))), h n (omega arith))

below_or : (a b : ℕ) → (a < b) ⊎ (b ≤ a)
below_or a b = ground arith

last_or : (a b : ℕ) → a < suc b → (a < b) ⊎ (a ≡ b)
last_or a b l = ground arith

sum_below-one : (n x : ℕ) → x < n → sum_below n (λ c. one (x == c)) ≡ 1
sum_below-one zero x l = absurd (omega (arith, l))
sum_below-one (suc n) x l = elim (last_or x n l) [
  | inl under ↦ omega (arith, sum_below-one n x under, one-ne x n (λ q. omega (arith, under, q)))
  | inr s ↦ omega (
    arith,
    sum_below-zero n (λ c. one (x == c)) (λ c lt. one-ne x c (λ q. omega (arith, lt, q, s))),
    ap (λ i. one (x == i)) s,
    one_self x,
  )
]

-- A list of numbers below a bound, counted by number.
sum_below-same :
    (n : ℕ) (xs : List ℕ)
    → ((c : ℕ) → n ≤ c → total (same c) xs ≡ 0)
    → sum_below n (λ c. total (same c) xs) ≡ length xs
sum_below-same n [] h = sum_below-zero n (λ c. 0) (λ c l. refl)
sum_below-same n (x ∷ xs) h = elim (below_or x n) [
  | inl l ↦ omega (
    arith,
    sum_below-add n (λ c. one (x == c)) (λ c. total (same c) xs),
    sum_below-one n x l,
    sum_below-same n xs (λ c le. omega (arith, h c le)),
  )
  | inr le ↦ absurd (omega (arith, h x le, one_self x))
]

sum_below-le : (n : ℕ) (f : ℕ → ℕ) → ((c : ℕ) → f c ≤ 1) → sum_below n f ≤ n
sum_below-le zero f h = omega arith
sum_below-le (suc n) f h = omega (arith, sum_below-le n f h, h n)

-- Terms of at most one that add up to their number are all one.
sum_below-full :
    (n : ℕ) (f : ℕ → ℕ) → ((c : ℕ) → f c ≤ 1) → sum_below n f ≡ n → (c : ℕ) → c < n → f c ≡ 1
sum_below-full zero f h q c l = absurd (omega (arith, l))
sum_below-full (suc n) f h q c l = elim (last_or c n l) [
  | inl under ↦ sum_below-full n f h (omega (arith, q, sum_below-le n f h, h n)) c under
  | inr s ↦ omega (arith, q, sum_below-le n f h, h n, ap f s)
]

sum_below-ones : (n : ℕ) (f : ℕ → ℕ) → ((c : ℕ) → c < n → f c ≡ 1) → sum_below n f ≡ n
sum_below-ones zero f h = refl
sum_below-ones (suc n) f h =
    omega (arith, sum_below-ones n f (λ c l. h c (omega (arith, l))), h n (omega arith))

abbrev freed : Option ℕ → Bool
freed none = false
freed (some count) = count == 0

freed-length :
    (pool : List ℕ) (count : ℕ) → freed (free_pool pool count) ≡ true → length pool ≡ count
unfolding free_pool
freed-length [] count q = sym ((==_iff count 0).0 q)
freed-length (c ∷ cs) zero q = cc
freed-length (c ∷ cs) (suc count) q = ap suc (freed-length cs count q)

length-freed : (pool : List ℕ) → freed (free_pool pool (length pool)) ≡ true
unfolding free_pool
length-freed [] = refl
length-freed (c ∷ cs) = length-freed cs

if_and : (a : Bool) {b : Bool} → (if a then b else false) ≡ true → (a ≡ true) × (b ≡ true)
if_and true q = (refl, q)
if_and false q = cc

and_if : {a b : Bool} → a ≡ true → b ≡ true → (if a then b else false) ≡ true
and_if {a} {b} p q = ap (λ x. if x then b else false) p ∙ q

get_elem?-beyond : {A : Type 0} (xs : List A) (i : ℕ) → length xs ≤ i → get_elem? xs i ≡ none
get_elem?-beyond [] i l = refl
get_elem?-beyond (x ∷ xs) zero l = absurd (omega (arith, l))
get_elem?-beyond (x ∷ xs) (suc i) l = get_elem?-beyond xs i (omega (arith, l))

-- Each coroutine was joined: it is in the pool.
abbrev pub AllJoined : Engine → Type 0
AllJoined e = (c : ℕ) → c < length e.coros → total (same c) e.pool ≡ 1

module _ (e : Engine) (safe : Safe e) where
  pooled_sum : sum_below (length e.coros) (λ c. total (same c) e.pool) ≡ length e.pool
  pooled_sum =
      sum_below-same (length e.coros) e.pool
        (λ c l. omega (arith, safe.kept.pooled c, ap ended (get_elem?-beyond e.coros c l)))

  destroyed-AllJoined : coro_sched_destroy e ≡ true → (e.this_coro ≡ none) × AllJoined e
  unfolding coro_sched_destroy
  destroyed-AllJoined q =
      let (out, q1) = if_and (is_none e.this_coro) q in
      let (now, q2) = if_and (is_empty e.running_now) q1 in
      let (next, q3) = if_and (is_empty e.running_next) q2 in
      (
        none_of e.this_coro out,
        sum_below-full (length e.coros) (λ c. total (same c) e.pool)
            (λ c. omega (arith, safe.kept.pooled c, state_le_one (get_elem? e.coros c)))
            (omega (arith, pooled_sum, freed-length e.pool e.coro_count q3, safe.kept.counted)),
      )

  module _ (out : e.this_coro ≡ none) (all : AllJoined e) where
    now_empty : e.running_now ≡ []
    now_empty = subst (λ t. Shape t e.running_now) out safe.shape

    next_empty : (cs : List ℕ) → e.running_next ≡ cs → is_empty cs ≡ true
    next_empty [] q = refl
    next_empty (c ∷ cs) q =
        let runs_c : 1 ≤ runs (get_elem? e.coros c) =
          omega (arith, safe.kept.placed c, ap (total (same c)) q, one_self c) in
        elim (below_or c (length e.coros)) [
          | inl l ↦ absurd (
              omega
                (arith, runs_c, all c l, safe.kept.pooled c, state_le_one (get_elem? e.coros c)))
          | inr l ↦ absurd (omega (arith, runs_c, ap runs (get_elem?-beyond e.coros c l)))
        ]

    AllJoined-destroyed : coro_sched_destroy e ≡ true
    unfolding coro_sched_destroy
    AllJoined-destroyed =
        let n : length e.pool ≡ e.coro_count =
          sym pooled_sum
          ∙ sum_below-ones (length e.coros) (λ c. total (same c) e.pool) all
          ∙ sym safe.kept.counted in
        and_if (ap is_none out) (
          and_if (ap is_empty now_empty) (
            and_if (next_empty e.running_next refl)
              (subst (λ x. freed (free_pool e.pool x) ≡ true) n (length-freed e.pool))))

-- In every state that allowed steps lead to, `coro_sched_destroy` fails none of its assertions exactly if
-- it is called outside of the coroutines and each coroutine that was made was joined since it last
-- started.
pub coro_sched_destroy_iff :
    (e : Engine) → Reach e → (coro_sched_destroy e ≡ true) ↔ ((e.this_coro ≡ none) × AllJoined e)
coro_sched_destroy_iff e r = (
  destroyed-AllJoined e (Reach-Safe r),
  λ (out, all). AllJoined-destroyed e (Reach-Safe r) out all,
)
