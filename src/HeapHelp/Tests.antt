-- ===== src/HeapHelp/Tests.antt =====
-- Runs of the heap checker, and examples of its theorems.
use system_prog.Common.{◌≡◌, refl, true, some, none, [], ◌∷◌, codes, negsuc, arith}
use system_prog.HeapHelp.Reports.{expected_end, ending_lem}
use system_prog.HeapHelp.Runs.{
  Program, HasMemory, AtMost, run, spec_run, count_run, Answers, Few, run-Answers, run-Few,
}
use system_prog.HeapHelp.Steps.{allocated, freed}
use system_prog.HeapHelp.Ending.{ending}
use system_prog.HeapHelp.{
  emplace, find, erase, HeapHelp, System, ok, assert_failed, bad_trace, heap_help_new, operator_new,
}

abbrev sys : System
sys = record { has_memory = true; garbage = negsuc 0; frames = 3 }

abbrev program : Program
program =
    (sys, allocated 8 100) ∷ (sys, allocated 5 20) ∷ (sys, freed 8) ∷ (sys, allocated 9 7) ∷ []

abbrev twice : Program
twice = (sys, allocated 8 100) ∷ (sys, freed 8) ∷ (sys, freed 8) ∷ []

has_memory : HasMemory program
has_memory = (refl, (refl, (refl, (refl, tt))))

held : spec_run [] program ≡ some ((5, 20) ∷ (9, 7) ∷ [])
unfolding spec_run emplace find erase
held = refl

-- With no backtrace the checker looks at a length that it never set.
not_set :
    operator_new (heap_help_new none none (some (codes "off"))) sys (some 8) 100
    ≡ assert_failed bad_trace
unfolding operator_new
not_set = refl

run-Answers_example :
    Answers (count_run program 0) (spec_run [] program) (run (heap_help_new none none none) program)
run-Answers_example = run-Answers none none program has_memory

run-Few_example : Few 2 (run (heap_help_new none none none) program)
unfolding AtMost emplace find erase
run-Few_example =
    run-Few none none program 2 has_memory
      (omega arith, (omega arith, (omega arith, (omega arith, omega arith))))

ending_lem_example :
    (h : HeapHelp) × (run (heap_help_new none none none) program ≡ ok h)
    × (ending h ≡ expected_end h.report_mode ((5, 20) ∷ (9, 7) ∷ []) 3)
ending_lem_example = ending_lem none none program ((5, 20) ∷ (9, 7) ∷ []) has_memory held
