-- ===== src/Shell/Execute.antt =====
-- `run_pipeline` and `execute_command_line` of 2/solution.cpp. An `int` is its 32-bit pattern.
-- Processes, pipes and the current folder belong to the system, which is a parameter.
pub mod Sequence
use system_prog.Common.{
  ℕ, zero, suc, ◌+◌, ◌-◌, ◌*◌, ◌%◌, ◌^◌, Bool, true, false, not, ◌&&◌, ◌||◌, Option, none, some,
  List, [], ◌∷◌, ◌++◌, ◌==◌, ltb, leb, if◌then◌else◌, is_empty, length, codes, Bytes,
}
use system_prog.Parser.CommandLine.{
  Command, Expr, command, pipe, and, or, OutputType, stdout, CommandLine,
}

-- Equality of `std::string`.
unfoldable pub text_eq : Bytes → Bytes → Bool
text_eq [] [] = true
text_eq (a ∷ s) (b ∷ t) = a == b && text_eq s t
text_eq _ _ = false

-- The child processes of a pipeline: what each runs, the pipe it reads from, and where it writes.
pub data Output : Type 0 where
  to_pipe : ℕ → Output
  to_file : OutputType → Bytes → Output
  inherited : Output

pub record Child : Type 0 where
  pub runs : Command
  pub input : Option ℕ
  pub output : Output

-- How the last child ended, as `waitpid` tells.
pub data Ended : Type 0 where
  exited signaled : ℕ → Ended
  unknown : Ended

-- `launch` makes the pipes and forks the children, and is false if a `pipe` or `fork` fails; `wait`
-- waits for the last child and then for all, and is none if one of them never ends; `chdir` is true
-- if it succeeds.
pub record System : Type 1 where
  pub World : Type 0
  pub launch : List Child → World → Bool × World
  pub wait : World → Option (Ended × World)
  pub chdir : Bytes → World → Bool × World

-- The pipes and files of child `i` of those that are left.
pub children : ℕ → List Command → Output → List Child
children i [] last = []
children i (c ∷ []) last =
    record { runs = c; input = if ltb 0 i then some (i - 1) else none; output = last } ∷ []
children i (c ∷ d ∷ cs) last =
    record { runs = c; input = if ltb 0 i then some (i - 1) else none; output = to_pipe i }
    ∷ children (i + 1) (d ∷ cs) last

abbrev pub exit_status : Ended → ℕ
exit_status (exited n) = n
exit_status (signaled n) = 128 + n
exit_status unknown = 0

abbrev pub minus_one : ℕ
minus_one = 2 ^ 32 - 1

-- A part of a line between `&&` and `||`; `sep_type` is 1 or 2 for what stands before it.
pub record Segment : Type 0 where
  pub cmds : List Command
  pub sep_type : ℕ

abbrev pub segment : ℕ → Segment
segment sep = record { cmds = []; sep_type = sep }

abbrev pub push_command : Segment → Command → Segment
push_command cur c = record cur { cmds = cur.cmds ++ c ∷ [] }

-- The loop over the expressions, with `cur` and `segments`.
pub split : List Expr → Segment → List Segment → List Segment
split [] cur segments = segments ++ cur ∷ []
split (command c ∷ es) cur segments = split es (push_command cur c) segments
split (pipe ∷ es) cur segments = split es cur segments
split (and ∷ es) cur segments = split es (segment 1) (segments ++ cur ∷ [])
split (or ∷ es) cur segments = split es (segment 2) (segments ++ cur ∷ [])

-- The low byte of `atoi`: blanks, a sign and digits in the "C" locale.
digits : ℕ → Bytes → ℕ
digits n [] = n
digits n (c ∷ s) =
    let more = digits (n * 10 + (c - b'0')) s in if leb b'0' c && leb c b'9' then more else n

negated : ℕ → ℕ
negated n = (256 - n % 256) % 256

signed : Bytes → ℕ
unfolding digits negated
signed [] = 0
signed (c ∷ s) =
    if c == b'-'
    then negated (digits 0 s)
    else if c == b'+'
    then digits 0 s % 256
    else digits 0 (c ∷ s) % 256

atoi_byte : Bytes → ℕ
unfolding signed
atoi_byte [] = 0
atoi_byte (c ∷ s) = if c == b' ' || (leb 9 c && leb c 13) then atoi_byte s else signed (c ∷ s)

-- `code & 0xFF`, for the arguments of `exit`.
unfoldable pub exit_code : List Bytes → ℕ
unfolding atoi_byte
exit_code [] = 0
exit_code (a ∷ args) = atoi_byte a

abbrev pub is_exit : Command → Bool
is_exit c = text_eq c.exe (codes "exit")

abbrev pub is_cd : Command → Bool
is_cd c = text_eq c.exe (codes "cd")

abbrev pub is_stdout : OutputType → Bool
is_stdout stdout = true
is_stdout _ = false

pub sole_exit : List Command → CommandLine → Option ℕ
unfolding exit_code text_eq
sole_exit (c ∷ []) line =
    if is_exit c && (is_stdout line.out_type && not line.is_background)
    then some (exit_code c.args)
    else none
sole_exit _ line = none

-- A line that is one command `exit`, with the output and the process left alone: its code.
pub only_exit : List Segment → CommandLine → Option ℕ
only_exit (seg ∷ []) line = sole_exit seg.cmds line
only_exit _ line = none

-- A command, or the command line, has been run and gives a status; or the whole process has ended;
-- or it waits for a child that never ends.
pub data Executed (W : Type 0) : Type 0 where
  status : ℕ → W → Executed W
  process_exit : ℕ → W → Executed W
  hangs : Executed W

abbrev waited : {W : Type 0} → Option (Ended × W) → Executed W
waited none = hangs
waited (some (e, w)) = status (exit_status e) w

abbrev launched : {W : Type 0} → Bool → Bool → Option (Ended × W) → W → Executed W
launched false background ended w = status minus_one w
launched true true ended w = status 0 w
launched true false ended w = waited ended

module _ (sys : System) where
  open sys use {World, launch, wait, chdir}

  abbrev pub and_then : Executed World → (ℕ → World → Executed World) → Executed World
  and_then (status code w) go = go code w
  and_then (process_exit code w) go = process_exit code w
  and_then hangs go = hangs

  pub run_pipeline : List Command → Output → Bool → World → Executed World
  unfolding children
  run_pipeline [] last background w = status 0 w
  run_pipeline (c ∷ cmds) last background w =
      let (ok, w') = launch (children 0 (c ∷ cmds) last) w in launched ok background (wait w') w'

  change_folder : List Bytes → World → ℕ × World
  change_folder [] w = (0, w)
  change_folder (folder ∷ args) w = let (ok, w') = chdir folder w in ((if ok then 0 else 1), w')

  -- Where the output of the last command of a segment goes.
  abbrev pub last_output : Bool → CommandLine → Output
  last_output is_last line =
      if is_last && not (is_stdout line.out_type)
      then to_file line.out_type line.out_file
      else inherited

  -- The body of the loop, for a segment with commands; the flag is `is_last_segment`.
  unfoldable pub run_segment : List Command → Bool → CommandLine → World → Executed World
  unfolding change_folder text_eq run_pipeline
  run_segment (c ∷ []) is_last line w =
      if is_cd c
      then (let (code, w') = change_folder c.args w in status code w')
      else and_then (run_pipeline (c ∷ []) (last_output is_last line) line.is_background w)
          (λ code w'.
            if is_exit c && (is_last && (is_stdout line.out_type && not line.is_background))
            then process_exit (code % 256) w'
            else status code w')
  run_segment cmds is_last line w =
      run_pipeline cmds (last_output is_last line) line.is_background w

  -- `sep_type` of the next segment, and the two tests at the end of the loop's body.
  abbrev after_segment : List Segment → ℕ → Executed World → Executed World → Executed World
  after_segment [] code go skip = go
  after_segment (seg ∷ segments) code go skip =
      if seg.sep_type == 1 && not (code == 0)
      then skip
      else if seg.sep_type == 2 && code == 0
      then skip
      else go

  -- The loop over the segments. A `continue` at the end of its body goes on to the next segment.
  unfoldable pub run_segments : List Segment → ℕ → CommandLine → World → Executed World
  run_segments [] last line w = status (last % 256) w
  run_segments (seg ∷ segments) last line w = elim (is_empty seg.cmds) [
    | true ↦ run_segments segments last line w
    | false ↦ and_then (run_segment seg.cmds (is_empty segments) line w) (λ code w'.
        let next = run_segments segments code line w' in after_segment segments code next next)
  ]

  abbrev pub or_run : Option ℕ → Executed World → World → Executed World
  or_run (some code) run w = status code w
  or_run none run w = run

  unfoldable pub execute_command_line : CommandLine → World → Executed World
  unfolding only_exit sole_exit split run_segments run_segment
  execute_command_line line w =
      let segments = split line.exprs (segment 0) [] in
      or_run (only_exit segments line) (run_segments segments 0 line w) w
