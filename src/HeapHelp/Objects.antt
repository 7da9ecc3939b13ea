-- ===== src/HeapHelp/Objects.antt =====
-- The objects of the allocations: each is in the map or in the pool.
use mathlib.Core.Path.{subst}
use native.Mathlib.Decide.{ℕ_discrete}
use system_prog.Common.{
  ℕ, suc, ◌+◌, ◌≤◌, ◌<◌, ◌≡◌, ◌≢◌, ◌⊎◌, ◌∙◌, ◌%◌, ◌^◌, refl, sym, ap, Option, none, some, List, [],
  ◌==◌, if◌then◌else◌, length, length-set, get_elem?, get_elem?-set_self, set, total, pos, arith,
  inl, inr,
}
use system_prog.HeapHelp.Maps.{
  entries, uses, entries_in, length-entries, entries-emplace, entries-set, emplace_lem,
}
use system_prog.HeapHelp.Ending.{size_at}
use system_prog.HeapHelp.{
  Allocation, HeapHelp, backtrace_on, System, Assertion, traced_already, unknown_memory, no_memory,
  batch_used, bad_trace, Result, ok, assert_failed, emplace, traced, traced_as, trace_size_of,
  trace_in, trace_with,
}

abbrev pub counts : ℕ → List ℕ → ℕ
counts x pool = total (λ b. if b == x then 1 else 0) pool

-- How often an object is in the map or in the pool.
abbrev pub owned : HeapHelp → ℕ → ℕ
owned h x = uses x h.allocations + counts x h.alloc_pool

pub record Owned (h : HeapHelp) : Type 0 where
  pub once : (x : ℕ) → x < length h.allocs → owned h x ≡ 1
  pub beyond : (x : ℕ) → length h.allocs ≤ x → owned h x ≡ 0
  pub count : length h.allocations + length h.alloc_pool ≡ length h.allocs
  pub batch : (n : ℕ) → h.used ≡ some n → n ≤ 1024

-- The same with one object in hand.
pub record Taken (h : HeapHelp) (a : ℕ) : Type 0 where
  pub inside : a < length h.allocs
  pub free : owned h a ≡ 0
  pub once : (x : ℕ) → a ≢ x → x < length h.allocs → owned h x ≡ 1
  pub beyond : (x : ℕ) → length h.allocs ≤ x → owned h x ≡ 0
  pub count : suc (length h.allocations + length h.alloc_pool) ≡ length h.allocs
  pub batch : (n : ℕ) → h.used ≡ some n → n ≤ 1024

-- A state that keeps the objects and holds just these sizes, in which `n` allocations were made so far.
pub record Tracks (live : List (ℕ × ℕ)) (n : ℕ) (h : HeapHelp) : Type 0 where
  pub keeps : Owned h
  pub same : entries h.allocs h.allocations ≡ live
  pub counted : h.alloc_count ≡ n % 2 ^ 64
  pub traces : h.backtrace_mode ≡ backtrace_on

-- What a program can be told: that it allocates what it has, or frees what it has not.
abbrev pub Misuse : Assertion → Type 0
Misuse traced_already = Unit
Misuse unknown_memory = Unit
Misuse no_memory = ⊥
Misuse batch_used = ⊥
Misuse bad_trace = ⊥

-- The objects grow only to the number of the allocations that are there.
abbrev pub Follows : Option (List (ℕ × ℕ)) → ℕ → ℕ → Result HeapHelp → Type 0
Follows none n objects (assert_failed e) = Misuse e
Follows none n objects (ok h) = ⊥
Follows (some live) n objects (assert_failed e) = ⊥
Follows (some live) n objects (ok h) =
    Tracks live n h × ((length h.allocs ≤ objects) ⊎ (length h.allocs ≤ length live))

pub use_of : (a x : ℕ) → a ≢ x → (if a == x then 1 else 0) + 0 ≡ 0
use_of a x ne = ground arith

pub use_self : (a : ℕ) → (if a == a then 1 else 0) + 0 ≡ 1
use_self a = ground arith

module _ (h : HeapHelp) (sys : System) (ptr size a : ℕ) (taken : Taken h a) (x : Allocation)
    (at : get_elem? h.allocs a ≡ some x) (n objects : ℕ) (counted : h.alloc_count ≡ n % 2 ^ 64)
    (on : h.backtrace_mode ≡ backtrace_on) where
  abbrev y : Allocation
  y = record { trace_size = pos sys.frames; mem = ptr; size = size }

  abbrev after : List (ℕ × ℕ) → HeapHelp
  after m = record h {
    allocs = set h.allocs a y;
    allocations = m;
    alloc_count = (h.alloc_count + 1) % 2 ^ 64;
  }

  module _ (m : List (ℕ × ℕ)) (new : emplace ptr a h.allocations ≡ some m) where
    after-Owned : Owned (after m)
    after-Owned =
        let (u, l) = emplace_lem ptr a h.allocations m new in
        let len = length-set h.allocs a y in
        record {
          once = λ z lt. elim (ℕ_discrete a z) [
            | yes s ↦
                subst (λ w. uses w m + counts w h.alloc_pool ≡ 1) s
                  (omega (arith, u a, use_self a, taken.free))
            | no ne ↦ omega (arith, u z, use_of a z ne, taken.once z ne (omega (arith, lt, len)))
          ];
          beyond = λ z le.
              let ne : a ≢ z = λ s. absurd (omega (arith, taken.inside, le, len, s)) in
              omega (arith, u z, use_of a z ne, taken.beyond z (omega (arith, le, len)));
          count = omega (arith, l, taken.count, len);
          batch = taken.batch;
        }

  after-Tracks :
      (m : List (ℕ × ℕ))
      → emplace ptr a h.allocations ≡ some m
      → Tracks (entries (set h.allocs a y) m) (suc n) (after m)
  after-Tracks m new = record {
    keeps = after-Owned m new;
    same = refl;
    counted = omega (arith, counted);
    traces = on;
  }

  traced_lem : (m : List (ℕ × ℕ)) → traced h sys ptr size a x m ≡ ok (after m)
  traced_lem m = ap (λ b. traced_as h ptr size a m (trace_size_of b sys x.trace_size)) on

  trace_in-Follows :
      (o : Option (List (ℕ × ℕ)))
      → emplace ptr a h.allocations ≡ o
      → length h.allocs ≤ objects ⊎ ((m : List (ℕ × ℕ)) → o ≡ some m → length h.allocs ≤ length m)
      → Follows (entries_in (set h.allocs a y) o) (suc n) objects (trace_in h sys ptr size a x o)
  trace_in-Follows none new bound = tt
  trace_in-Follows (some m) new bound =
      subst (Follows (some (entries (set h.allocs a y) m)) (suc n) objects) (sym (traced_lem m)) (
        after-Tracks m new,
        elim bound [
          | inl few ↦ inl (omega (arith, few, length-set h.allocs a y))
          | inr few ↦ inr (
              omega
                (arith, few m refl, length-set h.allocs a y, length-entries (set h.allocs a y) m))
        ],
      )

  -- An object in hand serves one more allocation.
  pub trace_with-Follows :
      ((length h.allocs ≤ objects) ⊎ (h.alloc_pool ≡ []))
      → Follows
          (emplace ptr size (entries h.allocs h.allocations))
          (suc n)
          objects
          (trace_with h sys ptr size a (some x))
  unfolding trace_with
  trace_with-Follows bound =
      let unused : uses a h.allocations ≡ 0 = omega (arith, taken.free) in
      let size_now : size_at (get_elem? (set h.allocs a y) a) ≡ size =
        ap size_at (get_elem?-set_self h.allocs a y at) in
      let spec : entries_in (set h.allocs a y) (emplace ptr a h.allocations)
          ≡ emplace ptr size (entries h.allocs h.allocations) =
        sym (entries-emplace (set h.allocs a y) ptr a h.allocations)
        ∙ ap (λ k. emplace ptr k (entries (set h.allocs a y) h.allocations)) size_now
        ∙ ap (emplace ptr size) (entries-set h.allocs a y h.allocations unused) in
      subst (λ l. Follows l (suc n) objects (trace_with h sys ptr size a (some x))) spec
        (trace_in-Follows (emplace ptr a h.allocations) refl (elim bound [
          | inl few ↦ inl few
          | inr empty ↦ inr (λ m q.
              omega (arith, (emplace_lem ptr a h.allocations m q).1, taken.count, ap length empty))
        ]))
