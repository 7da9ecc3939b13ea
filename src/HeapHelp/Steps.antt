-- ===== src/HeapHelp/Steps.antt =====
-- An allocation or a release, as a map from pointers to sizes has it.
use mathlib.Core.Path.{subst}
use system_prog.Common.{
  ℕ, zero, suc, ◌+◌, ◌≤◌, ◌<◌, ◌≡◌, ◌⊎◌, ◌∙◌, refl, sym, ap, true, Option, none, some, List, [],
  ◌∷◌, ◌++◌, ◌==◌, if◌then◌else◌, length, length-append, get_elem?, get_elem?-append_self, arith,
  inl, inr,
}
use system_prog.HeapHelp.Maps.{
  uses, size_in, entries-find, entries-erase, entries-append, erase_lem,
}
use system_prog.HeapHelp.Objects.{
  use_of, use_self, counts, Taken, Tracks, Follows, trace_with-Follows,
}
use system_prog.HeapHelp.{
  HeapHelp, System, Result, ok, emplace, find, erase, new_object, from_batch, trace_with, trace_new,
  trace_from, operator_new, untrace_at, untrace,
}

-- What a program does: it gets memory of a size at a pointer, or gives it back.
pub data Event : Type 0 where
  allocated : ℕ → ℕ → Event
  freed : ℕ → Event

abbrev freed_in : List (ℕ × ℕ) → ℕ → Option ℕ → Option (List (ℕ × ℕ))
freed_in live p none = none
freed_in live p (some n) = some (erase p live)

-- The specification: a map from pointers to sizes.
abbrev pub spec_step : List (ℕ × ℕ) → Event → Option (List (ℕ × ℕ))
spec_step live (allocated p n) = emplace p n live
spec_step live (freed p) = freed_in live p (find p live)

abbrev pub event_step : HeapHelp → System → Event → Result HeapHelp
event_step h sys (allocated p n) = operator_new h sys (some p) n
event_step h sys (freed p) = untrace h p

-- The number of allocations after it.
abbrev pub count_event : Event → ℕ → ℕ
count_event (allocated p size) n = suc n
count_event (freed p) n = n

get_elem?-lt_some :
    {A : Type 0} (xs : List A) (i : ℕ) → i < length xs → (x : A) × (get_elem? xs i ≡ some x)
get_elem?-lt_some [] i l = absurd (omega (arith, l))
get_elem?-lt_some (x ∷ xs) zero l = (x, refl)
get_elem?-lt_some (x ∷ xs) (suc i) l = get_elem?-lt_some xs i (omega (arith, l))

module _ (h : HeapHelp) (sys : System) (live : List (ℕ × ℕ)) (n : ℕ) (t : Tracks live n h) where
  -- An object of the pool.
  pool-Taken :
      (a : ℕ) (pool : List ℕ) → h.alloc_pool ≡ a ∷ pool → Taken (record h { alloc_pool = pool }) a
  pool-Taken a pool q =
      let counted : ((x : ℕ) → counts x h.alloc_pool ≡ (if a == x then 1 else 0) + counts x pool) =
        λ x. ap (counts x) q in
      let inside : a < length h.allocs = elim (below_or a (length h.allocs)) [
        | inl l ↦ l
        | inr l ↦ absurd (omega (arith, t.keeps.beyond a l, counted a, use_self a))
      ] in
      record {
        inside = inside;
        free = omega (arith, t.keeps.once a inside, counted a, use_self a);
        once = λ x ne l. omega (arith, t.keeps.once x l, counted x, use_of a x ne);
        beyond = λ x l. omega (arith, t.keeps.beyond x l, counted x);
        count = omega (arith, t.keeps.count, ap length q);
        batch = t.keeps.batch;
      }
    where
      below_or : (a b : ℕ) → (a < b) ⊎ (b ≤ a)
      below_or a b = ground arith

  pool-Follows :
      (p size a : ℕ) (pool : List ℕ)
      → h.alloc_pool ≡ a ∷ pool
      → Follows (emplace p size live) (suc n) (length h.allocs) (trace_from h sys p size (a ∷ pool))
  unfolding trace_from
  pool-Follows p size a pool q =
      let taken = pool-Taken a pool q in
      let (x, at) = get_elem?-lt_some h.allocs a taken.inside in
      subst
        (λ o.
          Follows (emplace p size live) (suc n) (length h.allocs)
            (trace_with (record h { alloc_pool = pool }) sys p size a o))
        (sym at)
        (subst
          (λ l.
            Follows (emplace p size l) (suc n) (length h.allocs)
              (trace_with (record h { alloc_pool = pool }) sys p size a (some x)))
          t.same
          (trace_with-Follows (record h { alloc_pool = pool }) sys p size a taken x at n
            (length h.allocs) t.counted t.traces (inl (omega arith))))

  -- An object of the batch.
  abbrev grown : ℕ → HeapHelp
  grown k = record h { used = some k; allocs = h.allocs ++ new_object sys.garbage ∷ [] }

  from_batch_lem :
      (o : Option ℕ)
      → ((k : ℕ) → o ≡ some k → k ≤ 1024)
      → sys.has_memory ≡ true
      → (k : ℕ) × (k ≤ 1024) × (from_batch h sys o ≡ ok (grown k))
  unfolding from_batch
  from_batch_lem none le memory = (1, omega arith, ground arith)
  from_batch_lem (some k) le memory = elim (full_or k (le k refl)) [
    | inl full ↦ (1, omega arith, ground arith)
    | inr more ↦ (suc k, more, ground arith)
  ]
    where
      full_or : (b : ℕ) → b ≤ 1024 → (b ≡ 1024) ⊎ (suc b ≤ 1024)
      full_or b l = ground arith

  grown-Taken : (k : ℕ) → k ≤ 1024 → h.alloc_pool ≡ [] → Taken (grown k) (length h.allocs)
  grown-Taken k le empty =
      let len = length-append h.allocs (new_object sys.garbage ∷ []) in
      record {
        inside = omega (arith, len);
        free = t.keeps.beyond (length h.allocs) (omega arith);
        once = λ x ne l. t.keeps.once x (omega (arith, ne, l, len));
        beyond = λ x l. t.keeps.beyond x (omega (arith, l, len));
        count = omega (arith, t.keeps.count, len);
        batch = λ b q. let s : k ≡ b = cc in omega (arith, s, le);
      }

  grown-Follows :
      (p size k : ℕ)
      → k ≤ 1024
      → h.alloc_pool ≡ []
      → Follows
          (emplace p size live)
          (suc n)
          (length h.allocs)
          (trace_new h sys p size (ok (grown k)))
  unfolding trace_new
  grown-Follows p size k le empty =
      let g : HeapHelp = grown k in
      let a : ℕ = length h.allocs in
      let at = get_elem?-append_self h.allocs (new_object sys.garbage) in
      let unused : uses a h.allocations ≡ 0 = omega (arith, t.keeps.beyond a (omega arith)) in
      subst (λ o. Follows (emplace p size live) (suc n) a (trace_with g sys p size a o)) (sym at)
        (subst
          (λ l.
            Follows (emplace p size l) (suc n) a
              (trace_with g sys p size a (some (new_object sys.garbage))))
          (entries-append h.allocs (new_object sys.garbage) h.allocations unused ∙ t.same)
          (trace_with-Follows g sys p size a (grown-Taken k le empty) (new_object sys.garbage) at n
            a t.counted t.traces (inr empty)))

  module _ (memory : sys.has_memory ≡ true) where
    trace_from-Follows :
        (p size : ℕ) (pool : List ℕ)
        → h.alloc_pool ≡ pool
        → Follows (emplace p size live) (suc n) (length h.allocs) (trace_from h sys p size pool)
    unfolding trace_from
    trace_from-Follows p size [] q =
        let (k, le, e) = from_batch_lem h.used t.keeps.batch memory in
        subst
          (λ r. Follows (emplace p size live) (suc n) (length h.allocs) (trace_new h sys p size r))
          (sym e) (grown-Follows p size k le q)
    trace_from-Follows p size (a ∷ pool) q = pool-Follows p size a pool q

    pub operator_new-Follows :
        (p size : ℕ)
        → Follows (emplace p size live) (suc n) (length h.allocs) (operator_new h sys (some p) size)
    unfolding operator_new
    operator_new-Follows p size = trace_from-Follows p size h.alloc_pool refl

  untrace_at-Follows :
      (p : ℕ) (o : Option ℕ)
      → find p h.allocations ≡ o
      → Follows (freed_in live p (size_in h.allocs o)) n (length h.allocs) (untrace_at h p o)
  untrace_at-Follows p none q = tt
  untrace_at-Follows p (some a) q =
      let (u, l) = erase_lem p a h.allocations q in
      (
        record {
          keeps = record {
            once = λ x lt. omega (arith, u x, t.keeps.once x lt);
            beyond = λ x le. omega (arith, u x, t.keeps.beyond x le);
            count = omega (arith, l, t.keeps.count);
            batch = t.keeps.batch;
          };
          same = sym (entries-erase h.allocs p h.allocations) ∙ ap (erase p) t.same;
          counted = t.counted;
          traces = t.traces;
        },
        inl (omega arith),
      )

  pub untrace-Follows :
      (p : ℕ) → Follows (spec_step live (freed p)) n (length h.allocs) (untrace h p)
  unfolding untrace
  untrace-Follows p =
      let spec : size_in h.allocs (find p h.allocations) ≡ find p live =
        sym (entries-find h.allocs p h.allocations) ∙ ap (find p) t.same in
      subst (λ o. Follows (freed_in live p o) n (length h.allocs) (untrace h p)) spec
        (untrace_at-Follows p (find p h.allocations) refl)

-- One event, with memory for a batch.
pub event_step-Follows :
    (h : HeapHelp) (sys : System) (live : List (ℕ × ℕ)) (n : ℕ) (ev : Event)
    → Tracks live n h
    → sys.has_memory ≡ true
    → Follows (spec_step live ev) (count_event ev n) (length h.allocs) (event_step h sys ev)
event_step-Follows h sys live n (allocated p size) t memory =
    operator_new-Follows h sys live n t memory p size
event_step-Follows h sys live n (freed p) t memory = untrace-Follows h sys live n t p
