-- ===== src/Parser/Lexer/Tests.antt =====
-- Tests of `parse_token`, and its theorems at concrete inputs.
use system_prog.Common.{◌≡◌, refl, inl, [], ◌++◌, arith, codes, u32}
use system_prog.Parser.Lexer.Append.{parse_token-append}
use system_prog.Parser.Lexer.Asserts.{parse_token-continued}
use system_prog.Parser.Lexer.{
  token_none, token_str, token_or, token_background, token_new_line, lexed, assert_failed, is_space,
  parse_token,
}

tokens :
    (parse_token (codes "  echo 1") ≡ lexed 7 token_str (codes "echo"))
    × (parse_token (codes "a'b c'\"\\q\\\"\"") ≡ lexed 6 token_str (codes "ab c"))
    × (parse_token (codes "|| x") ≡ lexed 2 token_or [])
    × (parse_token (codes "&\n") ≡ lexed 1 token_background [])
    × (parse_token (codes "# x\ny") ≡ lexed 4 token_new_line [])
    × (parse_token (codes "echo") ≡ lexed 0 token_none (codes "echo"))
    × (parse_token (codes "&") ≡ lexed 0 token_none [])
unfolding parse_token u32
tokens = (refl, refl, refl, refl, refl, refl, refl)

parse_token-append_example : parse_token (codes "ls " ++ codes "x") ≡ parse_token (codes "ls ")
unfolding parse_token u32
parse_token-append_example =
    parse_token-append (codes "ls ") (codes "x") (omega arith) (omega arith) (omega arith)

parse_token-continued_example : parse_token (codes " \\\n echo") ≡ assert_failed
unfolding is_space
parse_token-continued_example =
    parse_token-continued (codes " ") b' ' (codes "echo") (refl, omega arith, tt) (inl refl)
      (omega arith)
