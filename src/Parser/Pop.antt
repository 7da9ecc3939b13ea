-- ===== src/Parser/Pop.antt =====
-- `parser_feed`, `parser_consume` and `parser_pop_next` of 2/parser.cpp. `rest` holds the bytes
-- from `pos` to `end`, and `n` is `pos - begin`.
pub mod Rules
pub mod Fuel
pub mod Append
pub mod Sound
pub mod Steps
pub mod Results
pub mod Leads
pub mod Pipeline
pub mod RoundTrip
pub mod Errors
mod Tests
use system_prog.Common.{
  ℕ, zero, suc, ◌+◌, Bool, true, false, not, ◌&&◌, Option, none, some, List, [], ◌∷◌, ◌++◌,
  if◌then◌else◌, leb, is_empty, length, drop, u32, Bytes,
}
use system_prog.Parser.CommandLine.{
  ParserError, err_none, err_pipe_with_no_left_arg, err_pipe_with_left_arg_not_a_command,
  err_and_with_no_left_arg, err_and_with_left_arg_not_a_command, err_or_with_no_left_arg,
  err_or_with_left_arg_not_a_command, err_output_redirect_bad_arg, err_too_late_arguments,
  err_ends_not_with_a_command, Expr, command, pipe, and, or, file_new, file_append, CommandLine,
  new_line, ends_with_command, push_arg,
}
use system_prog.Parser.Lexer.{
  TokenType, token_none, token_str, token_new_line, token_pipe, token_and, token_or, token_out_new,
  token_out_append, token_background, Token, returned, assert_failed, Lexed, parse_token,
}

pub record Parser : Type 0 where
  pub buffer : Bytes

abbrev pub parser_new : Parser
parser_new = record { buffer = [] }

-- `str` holds the `len` bytes.
unfoldable pub parser_feed : Parser → Bytes → Parser
parser_feed p str = record p { buffer = p.buffer ++ str }

-- How the search for a line ends: with a line or an error and the number of bytes to consume,
-- with `return_no_line` and no error, in an assertion, or out of fuel.
pub data Verdict : Type 0 where
  accepted : CommandLine → ℕ → Verdict
  rejected : ParserError → ℕ → Verdict
  no_line assertion exhausted : Verdict

pub is_str : TokenType → Bool
is_str token_str = true
is_str _ = false

pub is_new_line : TokenType → Bool
is_new_line token_new_line = true
is_new_line _ = false

pub is_amp : TokenType → Bool
is_amp token_background = true
is_amp _ = false

abbrev pub Then : Type 0
Then = Token → Bytes → ℕ → Verdict

-- `used = parse_token(pos, end, &token); if (used == 0) goto return_no_line; pos += used;`
-- and then `go`.
abbrev pub after_token : Lexed → Bytes → ℕ → Then → Verdict
after_token (returned (zero, t)) rest n go = no_line
after_token (returned (suc u, t)) rest n go = go t (drop (suc u) rest) (n + suc u)
after_token assert_failed rest n go = assertion

pub next_token : Bytes → ℕ → Then → Verdict
next_token rest n go = after_token (parse_token rest) rest n go

-- What one token does to the line.
pub data Action : Type 0 where
  continue : List Expr → Action
  close : Action
  fail : ParserError → Action
  unexpected : Action

abbrev binary : List Expr → Expr → ParserError → ParserError → Action
binary exprs e no_left not_a_command =
    if is_empty exprs
    then fail no_left
    else if not (ends_with_command exprs)
    then fail not_a_command
    else continue (exprs ++ e ∷ [])

-- The `switch` of the main loop.
pub on_token : List Expr → TokenType → Bytes → Action
on_token exprs token_str text =
    if not (is_empty exprs) && ends_with_command exprs
    then continue (push_arg exprs text)
    else continue (exprs ++ command (record { exe = text; args = [] }) ∷ [])
on_token exprs token_new_line text = if is_empty exprs then continue exprs else close
on_token exprs token_pipe text =
    binary exprs pipe err_pipe_with_no_left_arg err_pipe_with_left_arg_not_a_command
on_token exprs token_and text =
    binary exprs and err_and_with_no_left_arg err_and_with_left_arg_not_a_command
on_token exprs token_or text =
    binary exprs or err_or_with_no_left_arg err_or_with_left_arg_not_a_command
on_token exprs token_out_new text = close
on_token exprs token_out_append text = close
on_token exprs token_background text = close
on_token exprs token_none text = unexpected

-- The loop of `return_error`.
pub skip_line : ℕ → ParserError → Bytes → ℕ → Verdict
skip_line zero code rest n = exhausted
skip_line (suc fuel) code [] n = no_line
skip_line (suc fuel) code (c ∷ rest) n =
    next_token (c ∷ rest) n λ t r m. elim (is_new_line t.type) [
      | true ↦ rejected code m
      | false ↦ skip_line fuel code r m
    ]

abbrev pub return_error : ParserError → Bytes → ℕ → Verdict
return_error code rest = skip_line (suc (length rest)) code rest

-- The end of `close_and_return`: the token is a line feed, or comes too late.
pub end_line : CommandLine → Then
end_line line t rest n =
    if is_new_line t.type
    then (if is_empty line.exprs
        then assertion
        else if not (ends_with_command line.exprs)
        then rejected err_ends_not_with_a_command n
        else accepted line n)
    else return_error err_too_late_arguments rest n

pub background : CommandLine → Then
background line t rest n =
    if is_amp t.type
    then next_token rest n (end_line (record line { is_background = true }))
    else end_line line t rest n

-- The file of a redirection, and the token behind it.
pub redirect : CommandLine → Then
redirect line t rest n =
    if is_str t.type
    then next_token rest n (background (record line { out_file = t.text }))
    else return_error err_output_redirect_bad_arg rest n

-- `close_and_return`, at the token that has ended the expressions.
pub close_line : CommandLine → TokenType → Token → Bytes → ℕ → Verdict
close_line line token_out_new t rest n =
    next_token rest n (redirect (record line { out_type = file_new }))
close_line line token_out_append t rest n =
    next_token rest n (redirect (record line { out_type = file_append }))
close_line line _ t rest n = background line t rest n

abbrev pub act : Action → (List Expr → Verdict) → Verdict → (ParserError → Verdict) → Verdict
act (continue exprs) go closed failed = go exprs
act close go closed failed = closed
act (fail code) go closed failed = failed code
act unexpected go closed failed = assertion

-- The main loop.
pub pop_loop : ℕ → CommandLine → Bytes → ℕ → Verdict
pop_loop zero line rest n = exhausted
pop_loop (suc fuel) line [] n = no_line
pop_loop (suc fuel) line (c ∷ rest) n = next_token (c ∷ rest) n λ t r m.
    act (on_token line.exprs t.type t.text)
      (λ exprs. pop_loop fuel (record line { exprs = exprs }) r m) (close_line line t.type t r m)
      (λ code. return_error code r m)

-- Every round uses a byte, so this fuel is enough.
abbrev pub search_line : CommandLine → Bytes → ℕ → Verdict
search_line line rest = pop_loop (suc (length rest)) line rest

-- What `parser_pop_next` returns, `*out` and the parser behind it.
pub data PopResult : Type 0 where
  popped : ParserError → Option CommandLine → Parser → PopResult
  pop_assertion pop_exhausted : PopResult

abbrev pub consumed : ParserError → Option CommandLine → Option Parser → PopResult
consumed code line none = pop_assertion
consumed code line (some p) = popped code line p

-- `none` if the assertion on the size of the buffer fails.
unfoldable pub parser_consume : Parser → ℕ → Option Parser
parser_consume p size =
    if leb size (length p.buffer) then some (record p { buffer = drop size p.buffer }) else none

-- The size to consume is converted to `uint32_t`.
abbrev pub settle : Parser → Verdict → PopResult
settle p (accepted line n) = consumed err_none (some line) (parser_consume p (u32 n))
settle p (rejected code n) = consumed code none (parser_consume p (u32 n))
settle p no_line = popped err_none none p
settle p assertion = pop_assertion
settle p exhausted = pop_exhausted

unfoldable pub parser_pop_next : Parser → PopResult
parser_pop_next p = settle p (search_line new_line p.buffer 0)
