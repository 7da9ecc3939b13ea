-- ===== src/HeapHelp/Runs.antt =====
-- Programs: what the heap checker knows after a run of them.
use system_prog.Common.{
  ℕ, ◌≤◌, ◌≡◌, refl, true, Option, none, some, List, [], ◌∷◌, length, arith, inl, inr,
}
use system_prog.HeapHelp.Objects.{Tracks, Misuse, Follows}
use system_prog.HeapHelp.Steps.{Event, spec_step, event_step, count_event, event_step-Follows}
use system_prog.HeapHelp.{HeapHelp, System, Result, ok, assert_failed, heap_help_new}

-- A program, with what the system answers to each of its steps.
abbrev pub Program : Type 0
Program = List (System × Event)

abbrev pub and_then_run : Result HeapHelp → (HeapHelp → Result HeapHelp) → Result HeapHelp
and_then_run (ok h) f = f h
and_then_run (assert_failed e) f = assert_failed e

unfoldable pub run : HeapHelp → Program → Result HeapHelp
run h [] = ok h
run h ((sys, ev) ∷ es) = and_then_run (event_step h sys ev) (λ h'. run h' es)

abbrev pub spec_then :
    Option (List (ℕ × ℕ)) → (List (ℕ × ℕ) → Option (List (ℕ × ℕ))) → Option (List (ℕ × ℕ))
spec_then none f = none
spec_then (some live) f = f live

unfoldable pub spec_run : List (ℕ × ℕ) → Program → Option (List (ℕ × ℕ))
spec_run live [] = some live
spec_run live ((sys, ev) ∷ es) = spec_then (spec_step live ev) (λ l. spec_run l es)

abbrev pub count_run : Program → ℕ → ℕ
count_run [] n = n
count_run ((sys, ev) ∷ es) n = count_run es (count_event ev n)

-- The system has memory for each batch.
abbrev pub HasMemory : Program → Type 0
HasMemory [] = Unit
HasMemory ((sys, ev) ∷ es) = (sys.has_memory ≡ true) × HasMemory es

-- At no time are there more allocations than a bound.
unfoldable pub AtMost : ℕ → Option (List (ℕ × ℕ)) → Program → Type 0
AtMost bound none es = Unit
AtMost bound (some live) [] = length live ≤ bound
AtMost bound (some live) ((sys, ev) ∷ es) =
    (length live ≤ bound) × AtMost bound (spec_step live ev) es

-- What a run ends in, beside what the specification says.
abbrev pub Answers : ℕ → Option (List (ℕ × ℕ)) → Result HeapHelp → Type 0
Answers n none (assert_failed e) = Misuse e
Answers n none (ok h) = ⊥
Answers n (some live) (assert_failed e) = ⊥
Answers n (some live) (ok h) = Tracks live n h

abbrev pub Few : ℕ → Result HeapHelp → Type 0
Few bound (ok h) = length h.allocs ≤ bound
Few bound (assert_failed e) = Unit

run-Answers_from :
    (es : Program) (h : HeapHelp) (live : List (ℕ × ℕ)) (n : ℕ)
    → Tracks live n h
    → HasMemory es
    → Answers (count_run es n) (spec_run live es) (run h es)
unfolding run spec_run
run-Answers_from [] h live n t m = t
run-Answers_from ((sys, ev) ∷ es) h live n t (memory, m) =
    next (spec_step live ev) (event_step h sys ev) (event_step-Follows h sys live n ev t memory)
      (λ h' l t'. run-Answers_from es h' l (count_event ev n) t' m)
  where
    next :
        (o : Option (List (ℕ × ℕ))) (r : Result HeapHelp)
        → Follows o (count_event ev n) (length h.allocs) r
        → ((h' : HeapHelp) (l : List (ℕ × ℕ))
            → Tracks l (count_event ev n) h'
            → Answers (count_run es (count_event ev n)) (spec_run l es) (run h' es))
        → Answers
            (count_run es (count_event ev n))
            (spec_then o (λ l. spec_run l es))
            (and_then_run r (λ h'. run h' es))
    next none (assert_failed e) f rest = f
    next none (ok h') f rest = absurd f
    next (some l) (assert_failed e) f rest = absurd f
    next (some l) (ok h') (t', bound) rest = rest h' l t'

run-Few_from :
    (es : Program) (h : HeapHelp) (live : List (ℕ × ℕ)) (n bound : ℕ)
    → Tracks live n h
    → HasMemory es
    → AtMost bound (some live) es
    → length h.allocs ≤ bound
    → Few bound (run h es)
unfolding run AtMost
run-Few_from [] h live n bound t m few le = le
run-Few_from ((sys, ev) ∷ es) h live n bound t (memory, m) (le_now, few) le =
    next (spec_step live ev) (event_step h sys ev) (event_step-Follows h sys live n ev t memory) few
      (λ h' l t' f'. run-Few_from es h' l (count_event ev n) bound t' m f')
  where
    head_le : (l : List (ℕ × ℕ)) (xs : Program) → AtMost bound (some l) xs → length l ≤ bound
    head_le l [] f = f
    head_le l (x ∷ xs) f = f.0

    next :
        (o : Option (List (ℕ × ℕ))) (r : Result HeapHelp)
        → Follows o (count_event ev n) (length h.allocs) r
        → AtMost bound o es
        → ((h' : HeapHelp) (l : List (ℕ × ℕ))
            → Tracks l (count_event ev n) h'
            → AtMost bound (some l) es
            → length h'.allocs ≤ bound
            → Few bound (run h' es))
        → Few bound (and_then_run r (λ h'. run h' es))
    next none (assert_failed e) f a rest = tt
    next none (ok h') f a rest = absurd f
    next (some l) (assert_failed e) f a rest = absurd f
    next (some l) (ok h') (t', grows) a rest =
        rest h' l t' a
          (elim grows [ inl s ↦ omega (arith, s, le) | inr s ↦ omega (arith, s, head_le l es a) ])

init-Tracks :
    (hh_report hh_content : Option (List ℕ)) → Tracks [] 0 (heap_help_new hh_report hh_content none)
init-Tracks r c = record {
  keeps = record {
    once = λ x l. absurd (omega (arith, l));
    beyond = λ x l. refl;
    count = omega arith;
    batch = λ n q. cc;
  };
  same = refl;
  counted = omega arith;
  traces = refl;
}

-- For every program, with HHBACKTRACE not set and memory for the batches: where it allocates only at
-- pointers that it does not hold and frees only what it holds, the heap checker fails no assertion, has
-- in its map just the pointers that the program holds, in their order, each with an object of its own
-- that has the size asked for, keeps every other object in its pool, and has counted the allocations
-- modulo 2^64; any other program ends in the assertion on a pointer that is there or on one that is not.
pub run-Answers :
    (hh_report hh_content : Option (List ℕ)) (es : Program)
    → HasMemory es
    → Answers (count_run es 0) (spec_run [] es) (run (heap_help_new hh_report hh_content none) es)
run-Answers r c es m = run-Answers_from es (heap_help_new r c none) [] 0 (init-Tracks r c) m

-- Where the run of a program, with HHBACKTRACE not set and memory for the batches, ends with no
-- assertion failed, the heap checker has made no more objects than the program had allocations at one
-- time: objects of freed memory are used again.
pub run-Few :
    (hh_report hh_content : Option (List ℕ)) (es : Program) (bound : ℕ)
    → HasMemory es
    → AtMost bound (some []) es
    → Few bound (run (heap_help_new hh_report hh_content none) es)
run-Few r c es bound m few =
    run-Few_from es (heap_help_new r c none) [] 0 bound (init-Tracks r c) m few (omega arith)
