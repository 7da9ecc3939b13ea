-- ===== src/HeapHelp/Reports.antt =====
-- The report at the end of a program.
use mathlib.Core.Path.{subst}
use system_prog.Common.{
  ℕ, suc, ◌+◌, ◌≤◌, ◌≡◌, ◌∙◌, ◌%◌, ◌^◌, refl, sym, ap, ap₂, Option, none, some, List, [], ◌∷◌, ltb,
  if◌then◌else◌, length, get_elem?, arith,
}
use system_prog.HeapHelp.Maps.{entries, length-entries}
use system_prog.HeapHelp.Objects.{Tracks}
use system_prog.HeapHelp.Runs.{Program, HasMemory, run, spec_run, count_run, run-Answers, Answers}
use system_prog.HeapHelp.Ending.{
  Report, Ending, silent, failed, size_at, report_loop, verbose_end, leaks_end, ending_in, ending,
}
use system_prog.HeapHelp.{
  Allocation, HeapHelp, ReportMode, verbose, leaks, quiet, Result, ok, assert_failed, heap_help_new,
}

abbrev pub sizes : List (ℕ × ℕ) → ℕ
sizes [] = 0
sizes ((p, n) ∷ live) = n + sizes live

abbrev pub at_most_ten : ℕ → ℕ
at_most_ten n = if ltb n 10 then n else 10

one_more :
    (s m : ℕ) → s ≤ 10 → at_most_ten ((if ltb s 10 then suc s else s) + m) ≡ at_most_ten (s + suc m)
one_more s m le = ground arith

one_more_le : (s : ℕ) → s ≤ 10 → (if ltb s 10 then suc s else s) ≤ 10
one_more_le s le = ground arith

stays_le : (s : ℕ) → s ≤ 10 → s ≡ at_most_ten (s + 0)
stays_le s le = ground arith

report_loop_lem :
    (allocs : List Allocation) (m : List (ℕ × ℕ)) (s k : ℕ)
    → s ≤ 10
    → report_loop allocs m s (k % 2 ^ 64)
      ≡ (at_most_ten (s + length m), (k + sizes (entries allocs m)) % 2 ^ 64)
unfolding report_loop
report_loop_lem allocs [] s k le = ap₂ (λ a b. (a, b)) (stays_le s le) (omega arith)
report_loop_lem allocs ((p, a) ∷ m) s k le =
    let n = size_at (get_elem? allocs a) in
    let s' : ℕ = if ltb s 10 then suc s else s in
    let added : (k % 2 ^ 64 + n) % 2 ^ 64 ≡ (k + n) % 2 ^ 64 = omega arith in
    ap (report_loop allocs m s') added
    ∙ report_loop_lem allocs m s' (k + n) (one_more_le s le)
    ∙ ap₂ (λ x y. (x, y)) (one_more s (length m) le) (omega arith)

-- What a report of these allocations says.
abbrev pub report_of : List (ℕ × ℕ) → ℕ → Report
report_of live count = record {
  shown = at_most_ten (length live);
  found = length live;
  leak_size = sizes live % 2 ^ 64;
  total_count = count % 2 ^ 64;
}

abbrev pub expected_leaks : ReportMode → List (ℕ × ℕ) → ℕ → Ending
expected_leaks mode [] count = verbose_end mode (count % 2 ^ 64)
expected_leaks mode (e ∷ live) count = failed (report_of (e ∷ live) count)

abbrev pub expected_end : ReportMode → List (ℕ × ℕ) → ℕ → Ending
expected_end quiet live count = silent
expected_end verbose live count = expected_leaks verbose live count
expected_end leaks live count = expected_leaks leaks live count

abbrev failed_with : ℕ → ℕ → ℕ → ℕ → Ending
failed_with shown found leak_size count =
    failed (record { shown = shown; found = found; leak_size = leak_size; total_count = count })

leaks_end_lem :
    (h : HeapHelp) (mode : ReportMode) (m : List (ℕ × ℕ)) (count : ℕ)
    → h.report_mode ≡ mode
    → h.alloc_count ≡ count % 2 ^ 64
    → leaks_end h m ≡ expected_leaks mode (entries h.allocs m) count
unfolding leaks_end
leaks_end_lem h mode [] count q c = ap₂ verbose_end q c
leaks_end_lem h mode ((p, a) ∷ m) count q c =
    let live = entries h.allocs ((p, a) ∷ m) in
    let len : length live ≡ suc (length m) = length-entries h.allocs ((p, a) ∷ m) in
    let shown : 0 + suc (length m) ≡ length live = omega (arith, len) in
    let size : 0 + sizes live ≡ sizes live = omega arith in
    ap (λ r. failed_with r.0 (suc (length m)) r.1 h.alloc_count)
      (report_loop_lem h.allocs ((p, a) ∷ m) 0 0 (omega arith))
    ∙ ap
        (λ k.
          failed_with (at_most_ten k) (suc (length m)) ((0 + sizes live) % 2 ^ 64) h.alloc_count)
        shown
    ∙ ap (λ k. failed_with (at_most_ten (length live)) k ((0 + sizes live) % 2 ^ 64) h.alloc_count)
        (sym len)
    ∙ ap (λ k. failed_with (at_most_ten (length live)) (length live) (k % 2 ^ 64) h.alloc_count)
        size
    ∙ ap (failed_with (at_most_ten (length live)) (length live) (sizes live % 2 ^ 64)) c

ending_in-Tracks :
    (h : HeapHelp) (mode : ReportMode) (live : List (ℕ × ℕ)) (count : ℕ)
    → h.report_mode ≡ mode
    → Tracks live count h
    → ending_in h mode ≡ expected_end mode live count
unfolding ending_in
ending_in-Tracks h quiet live count q t = refl
ending_in-Tracks h verbose live count q t =
    leaks_end_lem h verbose h.allocations count q t.counted
    ∙ ap (λ l. expected_leaks verbose l count) t.same
ending_in-Tracks h leaks live count q t =
    leaks_end_lem h leaks h.allocations count q t.counted
    ∙ ap (λ l. expected_leaks leaks l count) t.same

ending-Tracks :
    (h : HeapHelp) (live : List (ℕ × ℕ)) (count : ℕ)
    → Tracks live count h
    → ending h ≡ expected_end h.report_mode live count
unfolding ending
ending-Tracks h live count t = ending_in-Tracks h h.report_mode live count refl t

-- For every program that allocates only at pointers that it does not hold, frees only what it holds and
-- holds just `live` at its end, with HHBACKTRACE not set and memory for the batches: it gets to its end
-- with no assertion failed, and there, unless the mode is quiet, the heap checker exits with -1 exactly
-- if something is held, and reports its number, its size, and the number of allocations, both modulo
-- 2^64; it shows each leak, or ten of them where there are more.
pub ending_lem :
    (hh_report hh_content : Option (List ℕ)) (es : Program) (live : List (ℕ × ℕ))
    → HasMemory es
    → spec_run [] es ≡ some live
    → (h : HeapHelp) × (run (heap_help_new hh_report hh_content none) es ≡ ok h)
      × (ending h ≡ expected_end h.report_mode live (count_run es 0))
ending_lem r c es live m q = result (run (heap_help_new r c none) es) (
    subst (λ o. Answers (count_run es 0) o (run (heap_help_new r c none) es)) q
      (run-Answers r c es m))
  where
    result :
        (o : Result HeapHelp)
        → Answers (count_run es 0) (some live) o
        → (h : HeapHelp) × (o ≡ ok h)
          × (ending h ≡ expected_end h.report_mode live (count_run es 0))
    result (ok h) t = (h, refl, ending-Tracks h live (count_run es 0) t)
    result (assert_failed e) t = absurd t
