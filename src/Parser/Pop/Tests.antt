-- ===== src/Parser/Pop/Tests.antt =====
-- Tests of `parser_pop_next`, and its theorems at concrete inputs.
use system_prog.Common.{◌≡◌, refl, true, false, some, none, [], ◌∷◌, arith, codes, u32, Bytes}
use system_prog.Parser.CommandLine.{
  err_none, err_output_redirect_bad_arg, err_pipe_with_no_left_arg, err_too_late_arguments,
  err_ends_not_with_a_command, Command, command, pipe, file_new, CommandLine, ends_with_command,
  push_arg,
}
use system_prog.Parser.Lexer.{parse_token}
use system_prog.Parser.Pop.Errors.{parser_pop_next-bad_redirect, parser_pop_next_no_command}
use system_prog.Parser.Pop.Results.{
  Answers, parser_pop_next-Answers, feed_result, parser_pop_next-feed,
}
use system_prog.Parser.Pop.RoundTrip.{parser_pop_next-show_line}
use system_prog.Parser.Pop.{
  Parser, parser_feed, popped, pop_assertion, next_token, on_token, skip_line, end_line, background,
  redirect, close_line, pop_loop, is_str, is_new_line, is_amp, parser_consume, parser_pop_next,
}
use system_prog.Parser.Printer.{show_line}

abbrev holding : Bytes → Parser
holding s = record { buffer = s }

abbrev ls : Command
ls = record { exe = codes "ls"; args = codes "-l" ∷ [] }

abbrev wc : Command
wc = record { exe = codes "wc"; args = [] }

abbrev ls_wc : CommandLine
ls_wc = record {
  exprs = command ls ∷ pipe ∷ command wc ∷ [];
  out_type = file_new;
  out_file = codes "o";
  is_background = true;
}

lines :
    (parser_pop_next (holding (codes "ls -l | wc >o &\nx"))
      ≡ popped err_none (some ls_wc) (holding (codes "x")))
    × (parser_pop_next (holding (codes "ls -l | w"))
        ≡ popped err_none none (holding (codes "ls -l | w")))
    × (parser_pop_next (holding (codes "| wc\nx"))
        ≡ popped err_pipe_with_no_left_arg none (holding (codes "x")))
    × (parser_pop_next (holding (codes "a & b\nx"))
        ≡ popped err_too_late_arguments none (holding (codes "x")))
    × (parser_pop_next (holding (codes "a &&\nx"))
        ≡ popped err_ends_not_with_a_command none (holding (codes "x")))
    × (parser_pop_next (holding (codes "a >\nb\nc\n"))
        ≡ popped err_output_redirect_bad_arg none (holding (codes "c\n")))
unfolding parser_pop_next parse_token u32 pop_loop next_token on_token skip_line end_line background
    redirect close_line is_str is_new_line is_amp parser_consume ends_with_command push_arg
lines = (refl, refl, refl, refl, refl, refl)

parser_pop_next-Answers_example :
    Answers (holding (codes "ls -l\nx")) (parser_pop_next (holding (codes "ls -l\nx")))
parser_pop_next-Answers_example = parser_pop_next-Answers (holding (codes "ls -l\nx")) (omega arith)

parser_pop_next-feed_example :
    parser_pop_next (parser_feed (holding (codes "ls\nx")) (codes "y"))
    ≡ feed_result (parser_pop_next (holding (codes "ls\nx"))) (codes "y")
unfolding parser_pop_next parse_token u32 pop_loop next_token on_token skip_line end_line background
    redirect close_line is_str is_new_line is_amp parser_consume ends_with_command push_arg
parser_pop_next-feed_example =
    parser_pop_next-feed (holding (codes "ls\nx")) (codes "y") (omega arith) tt

parser_pop_next-show_line_example :
    parser_pop_next (holding (show_line ls_wc (codes "x")))
    ≡ popped err_none (some ls_wc) (holding (codes "x"))
unfolding ends_with_command show_line
parser_pop_next-show_line_example =
    parser_pop_next-show_line ls_wc (codes "x")
      (record { alternates = tt; complete = refl; file = λ e. cc }) (omega arith)

parser_pop_next-bad_redirect_example :
    parser_pop_next (holding (codes " \"ls\" \"-l\" >\n \"a\"\nx"))
    ≡ popped err_output_redirect_bad_arg none (holding (codes "x"))
parser_pop_next-bad_redirect_example =
    parser_pop_next-bad_redirect ls (codes "a" ∷ []) (codes "x") (omega arith)

parser_pop_next_no_command_example : parser_pop_next (holding (codes " > \"o\"\nx")) ≡ pop_assertion
parser_pop_next_no_command_example =
    parser_pop_next_no_command file_new (codes "o") false (codes "x") (λ e. cc) (omega arith)
