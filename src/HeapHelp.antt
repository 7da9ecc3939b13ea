-- ===== src/HeapHelp.antt =====
-- utils/heap_help/heap_help.cpp: the allocations of a program, their objects and the report on leaks.
pub mod Ending
pub mod Maps
pub mod Objects
pub mod Steps
pub mod Runs
pub mod Reports
mod Tests
use system_prog.Common.{
  ℕ, zero, suc, ◌+◌, ◌%◌, ◌^◌, Bool, true, false, Option, none, some, List, [], ◌∷◌, ◌++◌, ◌==◌,
  codes, ltb, if◌then◌else◌, is_empty, length, get_elem?, set, ℤ, pos, negsuc,
}

pub data ReportMode : Type 0 where
  verbose leaks quiet : ReportMode

pub data ContentMode : Type 0 where
  original trash : ContentMode

pub data BacktraceMode : Type 0 where
  backtrace_on backtrace_off : BacktraceMode

-- An object is known by its number, in the order in which the batches gave them out.
pub record Allocation : Type 0 where
  pub trace_size : ℤ
  pub mem : ℕ
  pub size : ℕ

-- `allocs` are the objects that were given out; `used` is that of the newest batch, if there is one; the
-- pool is the list that its `next` pointers make.
pub record HeapHelp : Type 0 where
  pub allocations : List (ℕ × ℕ)
  pub alloc_pool : List ℕ
  pub allocs : List Allocation
  pub used : Option ℕ
  pub alloc_count : ℕ
  pub report_mode : ReportMode
  pub content_mode : ContentMode
  pub backtrace_mode : BacktraceMode

-- `strcmp(value, text) == 0`.
abbrev pub same_text : List ℕ → List ℕ → Bool
same_text [] [] = true
same_text (a ∷ cs) (b ∷ bs) = let rest = same_text cs bs in if a == b then rest else false
same_text [] (b ∷ bs) = false
same_text (a ∷ cs) [] = false

abbrev pub report_mode_of : Option (List ℕ) → ReportMode
report_mode_of none = leaks
report_mode_of (some v) =
    if same_text v (codes "v")
    then verbose
    else if same_text v (codes "l")
    then leaks
    else if same_text v (codes "q")
    then quiet
    else leaks

abbrev pub content_mode_of : Option (List ℕ) → ContentMode
content_mode_of none = original
content_mode_of (some v) =
    if same_text v (codes "o")
    then original
    else if same_text v (codes "t")
    then trash
    else original

abbrev pub backtrace_mode_of : Option (List ℕ) → BacktraceMode
backtrace_mode_of none = backtrace_on
backtrace_mode_of (some v) =
    if same_text v (codes "on")
    then backtrace_on
    else if same_text v (codes "off")
    then backtrace_off
    else backtrace_on

-- The constructor, with HHREPORT, HHCONTENT and HHBACKTRACE.
abbrev pub heap_help_new : Option (List ℕ) → Option (List ℕ) → Option (List ℕ) → HeapHelp
heap_help_new hh_report hh_content bt_mode = record {
  allocations = [];
  alloc_pool = [];
  allocs = [];
  used = none;
  alloc_count = 0;
  report_mode = report_mode_of hh_report;
  content_mode = content_mode_of hh_content;
  backtrace_mode = backtrace_mode_of bt_mode;
}

-- What the system answers in one call: whether it has memory for a batch, what the memory held at the
-- `trace_size` of an object that is used for the first time, and the length of the backtrace.
pub record System : Type 0 where
  pub has_memory : Bool
  pub garbage : ℤ
  pub frames : ℕ

pub data Assertion : Type 0 where
  no_memory batch_used traced_already bad_trace unknown_memory : Assertion

pub data Result {ℓ} (A : Type ℓ) : Type ℓ where
  ok : A → Result A
  assert_failed : Assertion → Result A

abbrev pub allocation_batch_size : ℕ
allocation_batch_size = 1024

-- The map of the library, in the order of its keys. `emplace` is none where the key is there already.
module _ {A : Type 0} where
  abbrev pub cons_to : ℕ × A → Option (List (ℕ × A)) → Option (List (ℕ × A))
  cons_to e none = none
  cons_to e (some m) = some (e ∷ m)

  unfoldable pub emplace : ℕ → A → List (ℕ × A) → Option (List (ℕ × A))
  emplace p a [] = some ((p, a) ∷ [])
  emplace p a ((q, b) ∷ m) =
      let rest = emplace p a m in
      if p == q then none else if ltb p q then some ((p, a) ∷ (q, b) ∷ m) else cons_to (q, b) rest

  unfoldable pub find : ℕ → List (ℕ × A) → Option A
  find p [] = none
  find p ((q, b) ∷ m) = let rest = find p m in if p == q then some b else rest

  unfoldable pub erase : ℕ → List (ℕ × A) → List (ℕ × A)
  erase p [] = []
  erase p ((q, b) ∷ m) = let rest = erase p m in if p == q then m else (q, b) ∷ rest

abbrev new_object : ℤ → Allocation
new_object garbage = record { trace_size = garbage; mem = 0; size = 0 }

-- An object of the batch, a new one if there is none or it is used up.
pub from_batch : HeapHelp → System → Option ℕ → Result HeapHelp
from_batch h sys none =
    if sys.has_memory
    then ok (record h { used = some 1; allocs = h.allocs ++ new_object sys.garbage ∷ [] })
    else assert_failed no_memory
from_batch h sys (some n) =
    if n == allocation_batch_size
    then if sys.has_memory
      then ok (record h { used = some 1; allocs = h.allocs ++ new_object sys.garbage ∷ [] })
      else assert_failed no_memory
    else if ltb n allocation_batch_size
    then ok (record h { used = some (suc n); allocs = h.allocs ++ new_object sys.garbage ∷ [] })
    else assert_failed batch_used

abbrev pub trace_size_of : BacktraceMode → System → ℤ → ℤ
trace_size_of backtrace_on sys old = pos sys.frames
trace_size_of backtrace_off sys old = old

abbrev pub at_least_zero : ℤ → Bool
at_least_zero (pos n) = true
at_least_zero (negsuc n) = false

-- The end of `trace`, with the object in hand.
abbrev pub traced_as : HeapHelp → ℕ → ℕ → ℕ → List (ℕ × ℕ) → ℤ → Result HeapHelp
traced_as h ptr size a m trace_size =
    if at_least_zero trace_size
    then ok (record h {
      allocs = set h.allocs a (record { trace_size = trace_size; mem = ptr; size = size });
      allocations = m;
      alloc_count = (h.alloc_count + 1) % 2 ^ 64;
    })
    else assert_failed bad_trace

abbrev pub traced : HeapHelp → System → ℕ → ℕ → ℕ → Allocation → List (ℕ × ℕ) → Result HeapHelp
traced h sys ptr size a x m =
    traced_as h ptr size a m (trace_size_of h.backtrace_mode sys x.trace_size)

abbrev pub trace_in :
    HeapHelp → System → ℕ → ℕ → ℕ → Allocation → Option (List (ℕ × ℕ)) → Result HeapHelp
trace_in h sys ptr size a x none = assert_failed traced_already
trace_in h sys ptr size a x (some m) = traced h sys ptr size a x m

-- The object is there; no other is asked for.
pub trace_with : HeapHelp → System → ℕ → ℕ → ℕ → Option Allocation → Result HeapHelp
unfolding emplace
trace_with h sys ptr size a none = assert_failed batch_used
trace_with h sys ptr size a (some x) = trace_in h sys ptr size a x (emplace ptr a h.allocations)

pub trace_new : HeapHelp → System → ℕ → ℕ → Result HeapHelp → Result HeapHelp
unfolding trace_with
trace_new h sys ptr size (assert_failed e) = assert_failed e
trace_new h sys ptr size (ok h') =
    trace_with h' sys ptr size (length h.allocs) (get_elem? h'.allocs (length h.allocs))

pub trace_from : HeapHelp → System → ℕ → ℕ → List ℕ → Result HeapHelp
unfolding trace_new from_batch
trace_from h sys ptr size [] = trace_new h sys ptr size (from_batch h sys h.used)
trace_from h sys ptr size (a ∷ pool) =
    trace_with (record h { alloc_pool = pool }) sys ptr size a (get_elem? h.allocs a)

unfoldable pub trace : HeapHelp → System → ℕ → ℕ → Result HeapHelp
unfolding trace_from
trace h sys ptr size = trace_from h sys ptr size h.alloc_pool

-- `operator new`, with the answer of the library's `malloc`.
unfoldable pub operator_new : HeapHelp → System → Option ℕ → ℕ → Result HeapHelp
unfolding trace
operator_new h sys none n = assert_failed no_memory
operator_new h sys (some res) n = trace h sys res n

abbrev pub untrace_at : HeapHelp → ℕ → Option ℕ → Result HeapHelp
untrace_at h ptr none = assert_failed unknown_memory
untrace_at h ptr (some a) =
    ok (record h { alloc_pool = a ∷ h.alloc_pool; allocations = erase ptr h.allocations })

-- `operator delete` up to `free`.
unfoldable pub untrace : HeapHelp → ℕ → Result HeapHelp
unfolding find erase
untrace h ptr = untrace_at h ptr (find ptr h.allocations)
