-- ===== src/Shell/Main.antt =====
-- `main` of 2/solution.cpp: what `read` returns, as a list of chunks, is fed to the parser, and
-- every line that is complete is run.
pub mod Rounds
pub mod Chunks
mod Tests
use system_prog.Common.{
  ℕ, zero, suc, ◌%◌, Bool, true, false, Option, none, some, List, [], ◌∷◌, ◌++◌, length, Bytes,
  if◌then◌else◌,
}
use system_prog.Parser.CommandLine.{ParserError, err_none, Command, Expr, command, CommandLine}
use system_prog.Parser.Pop.{
  Parser, parser_new, parser_feed, PopResult, popped, pop_assertion, pop_exhausted, parser_pop_next,
}
use system_prog.Shell.Execute.{
  System, exit_code, is_exit, text_eq, Executed, status, process_exit, hangs, execute_command_line,
}

-- The shell waits for input, or has ended: with a code, in an assertion, or in a
-- wait for a child that never ends, or out of fuel.
pub data Shell (W : Type 0) : Type 0 where
  waiting : Parser → ℕ → W → Shell W
  ended : ℕ → W → Shell W
  aborted : Shell W
  hung : Shell W
  out_of_fuel : Shell W

-- A line that is one command `exit`, and its code.
pub exit_line : List Expr → Option ℕ
unfolding exit_code text_eq
exit_line (command c ∷ []) = if is_exit c then some (exit_code c.args) else none
exit_line _ = none

module _ (sys : System) where
  open sys use {World}

  abbrev pub after_line : Executed World → (ℕ → World → Shell World) → Shell World
  after_line (status code w) go = go (code % 256) w
  after_line (process_exit code w) go = ended code w
  after_line hangs go = hung

  abbrev pub run_line : Option ℕ → CommandLine → World → (ℕ → World → Shell World) → Shell World
  run_line (some code) line w go = ended code w
  run_line none line w go = after_line (execute_command_line sys line w) go

  -- What one round of the inner loop does with the result of `parser_pop_next`.
  abbrev pub after_pop : PopResult → ℕ → World → (Parser → ℕ → World → Shell World) → Shell World
  after_pop (popped err_none none p) last w go = waiting p last w
  after_pop (popped err_none (some line) p) last w go =
      run_line (exit_line line.exprs) line w (go p)
  after_pop (popped _ _ p) last w go = go p last w
  after_pop pop_assertion last w go = aborted
  after_pop pop_exhausted last w go = out_of_fuel

  -- The inner loop.
  unfoldable pub drain : ℕ → Parser → ℕ → World → Shell World
  drain zero p last w = out_of_fuel
  drain (suc fuel) p last w = after_pop (parser_pop_next p) last w (drain fuel)

  -- Every round that goes on has consumed a byte.
  abbrev pub drain_all : Parser → ℕ → World → Shell World
  drain_all p = drain (suc (length p.buffer)) p

  abbrev pub and_wait : Shell World → (Parser → ℕ → World → Shell World) → Shell World
  and_wait (waiting p last w) go = go p last w
  and_wait (ended code w) go = ended code w
  and_wait aborted go = aborted
  and_wait hung go = hung
  and_wait out_of_fuel go = out_of_fuel

  -- The outer loop, over what the calls of `read` return.
  pub read_loop : List Bytes → Parser → ℕ → World → Shell World
  read_loop [] p last w = waiting p last w
  read_loop (chunk ∷ chunks) p last w =
      and_wait (drain_all (parser_feed p chunk) last w) (read_loop chunks)

  -- The exit code at the end of the input.
  abbrev pub at_end : Shell World → Shell World
  at_end (waiting p last w) = ended (last % 256) w
  at_end s = s

  unfoldable pub main : List Bytes → World → Shell World
  unfolding read_loop exit_line
  main chunks w = at_end (read_loop chunks parser_new 0 w)
