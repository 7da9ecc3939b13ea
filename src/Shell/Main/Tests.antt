-- ===== src/Shell/Main/Tests.antt =====
-- Tests of the shell over a system that notes what it is asked for, and theorems at concrete inputs.
use system_prog.Common.{
  ◌%◌, ◌≡◌, ◌≢◌, refl, true, false, none, some, List, [], ◌∷◌, ◌++◌, arith, codes, Bytes,
}
use system_prog.Parser.CommandLine.{Command, command, and, stdout, CommandLine}
use system_prog.Shell.Execute.Sequence.{
  swap, two, exit_command, execute_command_line-exit, execute_command_line-swap,
}
use system_prog.Shell.Execute.{
  System, Child, exited, inherited, run_pipeline, run_segment, and_then, status,
  execute_command_line,
}
use system_prog.Shell.Main.Chunks.{main-flat, main-ne-out_of_fuel}
use system_prog.Shell.Main.{out_of_fuel, main}

-- Every child fails.
abbrev failing : System
failing = record {
  World = List (List Child);
  launch = λ kids w. (true, w ++ kids ∷ []);
  wait = λ w. some (exited 1, w);
  chdir = λ folder w. (false, w);
}

abbrev word : Bytes → Command
word s = record { exe = s; args = [] }

abbrev a_and_b : CommandLine
a_and_b = record {
  exprs = command (word (codes "a")) ∷ and ∷ command (word (codes "b")) ∷ [];
  out_type = stdout;
  out_file = [];
  is_background = false;
}

abbrev alone : Bytes → List Child
alone s = record { runs = word s; input = none; output = inherited } ∷ []

-- `a` fails, and `b` runs.
b_runs :
    execute_command_line failing a_and_b [] ≡ status 1 (alone (codes "a") ∷ alone (codes "b") ∷ [])
unfolding execute_command_line
b_runs = refl

execute_command_line-exit_example :
    execute_command_line failing
      (record a_and_b { exprs = two (exit_command []) true (word (codes "b")) })
      []
    ≡ and_then failing (run_pipeline failing (exit_command [] ∷ []) inherited false []) (λ code w'.
      and_then failing
        (run_segment failing (word (codes "b") ∷ []) true a_and_b w')
        (λ last w''. status (last % 256) w''))
execute_command_line-exit_example =
    execute_command_line-exit failing [] true (word (codes "b")) a_and_b []

execute_command_line-swap_example :
    execute_command_line failing (record a_and_b { exprs = swap a_and_b.exprs }) []
    ≡ execute_command_line failing a_and_b []
execute_command_line-swap_example = execute_command_line-swap failing a_and_b []

main-flat_example :
    main failing (codes "ec" ∷ codes "ho\n" ∷ []) [] ≡ main failing (codes "echo\n" ∷ []) []
main-flat_example = main-flat failing (codes "ec") (codes "ho\n" ∷ []) [] (omega arith)

main-ne-out_of_fuel_example : main failing (codes "ec" ∷ codes "ho\n" ∷ []) [] ≢ out_of_fuel
main-ne-out_of_fuel_example =
    main-ne-out_of_fuel failing (codes "ec" ∷ codes "ho\n" ∷ []) [] (omega arith)
