-- ===== src/HeapHelp/Ending.antt =====
-- The destructor of the heap checker: what the report says.
use system_prog.Common.{
  ℕ, suc, ◌+◌, ◌%◌, ◌^◌, Option, none, some, List, [], ◌∷◌, ltb, if◌then◌else◌, length, get_elem?,
}
use system_prog.HeapHelp.{Allocation, HeapHelp, ReportMode, leaks, quiet, verbose}

-- What the report says: of how many leaks it shows the sizes and traces, the number of leaks, their size
-- and the number of allocations. `failed` is the exit with -1.
pub record Report : Type 0 where
  pub shown : ℕ
  pub found : ℕ
  pub leak_size : ℕ
  pub total_count : ℕ

pub data Ending : Type 0 where
  silent : Ending
  no_leaks : ℕ → Ending
  failed : Report → Ending

abbrev pub size_at : Option Allocation → ℕ
size_at none = 0
size_at (some x) = x.size

unfoldable pub report_loop : List Allocation → List (ℕ × ℕ) → ℕ → ℕ → ℕ × ℕ
report_loop allocs [] shown leak_size = (shown, leak_size)
report_loop allocs ((p, a) ∷ m) shown leak_size =
    report_loop allocs m (if ltb shown 10 then suc shown else shown)
      ((leak_size + size_at (get_elem? allocs a)) % 2 ^ 64)

abbrev pub verbose_end : ReportMode → ℕ → Ending
verbose_end verbose count = no_leaks count
verbose_end leaks count = silent
verbose_end quiet count = silent

unfoldable pub leaks_end : HeapHelp → List (ℕ × ℕ) → Ending
unfolding report_loop
leaks_end h [] = verbose_end h.report_mode h.alloc_count
leaks_end h (e ∷ m) =
    let (shown, leak_size) = report_loop h.allocs (e ∷ m) 0 0 in
    failed (record {
      shown = shown;
      found = length (e ∷ m);
      leak_size = leak_size;
      total_count = h.alloc_count;
    })

unfoldable pub ending_in : HeapHelp → ReportMode → Ending
unfolding leaks_end
ending_in h quiet = silent
ending_in h verbose = leaks_end h h.allocations
ending_in h leaks = leaks_end h h.allocations

-- The destructor.
unfoldable pub ending : HeapHelp → Ending
unfolding ending_in
ending h = ending_in h h.report_mode
