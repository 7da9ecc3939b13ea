-- ===== src/Parser/Lexer.antt =====
-- `parse_token` of 2/parser.cpp. The bytes from `pos` to `end` are a list, and `n` is
-- `pos - begin`. `isspace` is that of the "C" locale.
pub mod Bounds
pub mod Append
pub mod Scan
pub mod Words
pub mod Operators
mod Tests
pub mod Asserts
use system_prog.Common.{
  ℕ, ◌+◌, Bool, true, false, not, ◌&&◌, ◌||◌, List, [], ◌∷◌, ◌++◌, ◌==◌, leb, if◌then◌else◌,
  is_empty, u32, Bytes,
}

pub data TokenType : Type 0 where
  token_none token_str token_new_line token_pipe token_and token_or : TokenType
  token_out_new token_out_append token_background : TokenType

pub record Token : Type 0 where
  pub type : TokenType
  pub text : Bytes

-- What a function returns, or the failure of an `assert` in it.
pub data Outcome {ℓ} (A : Type ℓ) : Type ℓ where
  returned : A → Outcome A
  assert_failed : Outcome A

-- The number of bytes used (0 if more bytes are needed), and `*out`.
abbrev pub Lexed : Type 0
Lexed = Outcome (ℕ × Token)

abbrev pub lexed : ℕ → TokenType → Bytes → Lexed
lexed n ty text = returned (n, record { type = ty; text = text })

unfoldable pub is_space : ℕ → Bool
is_space c = c == b' ' || (leb 9 c && leb c 13)

-- One round of the main loop: it returns, or goes on behind one byte or two.
pub data Round : Type 0 where
  return_ : Lexed → Round
  next_one next_two : ℕ → Bytes → Round

abbrev need_more : Bytes → Round
need_more text = return_ (lexed 0 token_none text)

append_and_next : ℕ → Bytes → ℕ → Round
append_and_next quote text c = next_one quote (text ++ c ∷ [])

on_quote : ℕ → Bytes → ℕ → Bytes → ℕ → Round
unfolding append_and_next
on_quote quote text c rest n =
    if quote == 0
    then (if is_empty rest then need_more text else next_one c text)
    else if not (quote == c)
    then append_and_next quote text c
    else return_ (lexed (n + 1) token_str text)

-- A backslash inside double quotes.
escape_in_quotes : ℕ → Bytes → Bytes → Round
escape_in_quotes quote text [] = need_more text
escape_in_quotes quote text (c ∷ rest) =
    if c == b'\\'
    then next_two quote (text ++ c ∷ [])
    else if c == b'\n'
    then next_two quote text
    else if c == b'"'
    then next_two quote (text ++ c ∷ [])
    else next_two quote (text ++ b'\\' ∷ c ∷ [])

-- A backslash outside quotes.
escape_bare : ℕ → Bytes → Bytes → Round
escape_bare quote text [] = need_more text
escape_bare quote text (c ∷ rest) =
    if c == b'\n' then next_two quote text else next_two quote (text ++ c ∷ [])

on_backslash : ℕ → Bytes → ℕ → Bytes → Round
unfolding append_and_next escape_in_quotes escape_bare
on_backslash quote text c rest =
    if quote == b'\''
    then append_and_next quote text c
    else if quote == b'"'
    then escape_in_quotes quote text rest
    else if not (quote == 0)
    then return_ assert_failed
    else escape_bare quote text rest

unfoldable pub double_operator : ℕ → TokenType
double_operator c =
    if c == b'&' then token_and else if c == b'|' then token_or else token_out_append

unfoldable pub single_operator : ℕ → TokenType
single_operator c =
    if c == b'&' then token_background else if c == b'|' then token_pipe else token_out_new

operator : ℕ → Bytes → Bytes → ℕ → Round
unfolding double_operator single_operator
operator c text [] n = need_more text
operator c text (d ∷ rest) n =
    if d == c
    then return_ (lexed (n + 2) (double_operator c) text)
    else return_ (lexed (n + 1) (single_operator c) text)

on_operator : ℕ → Bytes → ℕ → Bytes → ℕ → Round
unfolding append_and_next operator
on_operator quote text c rest n =
    if not (quote == 0)
    then append_and_next quote text c
    else if not (is_empty text)
    then return_ (lexed n token_str text)
    else operator c text rest n

-- A blank or a line feed; `used` is what a word ended by it uses.
on_blank : ℕ → Bytes → ℕ → ℕ → Round
unfolding append_and_next
on_blank quote text c used =
    if not (quote == 0)
    then append_and_next quote text c
    else if is_empty text
    then return_ assert_failed
    else return_ (lexed used token_str text)

skip_comment : Bytes → Bytes → ℕ → Lexed
skip_comment text [] n = lexed 0 token_none text
skip_comment text (c ∷ rest) n =
    if c == b'\n' then lexed (n + 1) token_new_line text else skip_comment text rest (n + 1)

on_hash : ℕ → Bytes → ℕ → Bytes → ℕ → Round
unfolding append_and_next skip_comment
on_hash quote text c rest n =
    if not (quote == 0)
    then append_and_next quote text c
    else if not (is_empty text)
    then return_ (lexed n token_str text)
    else return_ (skip_comment text rest (n + 1))

-- The body of the second `while`: `c` is `*pos`, and `rest` follows it.
pub round : ℕ → Bytes → ℕ → Bytes → ℕ → Round
round quote text c rest n =
    if c == b'\'' || c == b'"'
    then on_quote quote text c rest n
    else if c == b'\\'
    then on_backslash quote text c rest
    else if c == b'&' || (c == b'|' || c == b'>')
    then on_operator quote text c rest n
    else if c == b' ' || (c == b'\t' || c == b'\r')
    then on_blank quote text c (n + 1)
    else if c == b'\n'
    then on_blank quote text c n
    else if c == b'#'
    then on_hash quote text c rest n
    else append_and_next quote text c

abbrev go_on : Round → (ℕ → Bytes → Lexed) → (ℕ → Bytes → Lexed) → Lexed
go_on (return_ r) one two = r
go_on (next_one quote text) one two = one quote text
go_on (next_two quote text) one two = two quote text

-- The second `while`. At the last byte no round goes on behind two bytes.
pub scan : ℕ → Bytes → Bytes → ℕ → Lexed
scan quote text [] n = lexed 0 token_none text
scan quote text (c ∷ []) n =
    go_on (round quote text c [] n) (λ q t. lexed 0 token_none t) (λ q t. lexed 0 token_none t)
scan quote text (c ∷ d ∷ rest) n =
    go_on (round quote text c (d ∷ rest) n) (λ q t. scan q t (d ∷ rest) (n + 1))
      (λ q t. scan q t rest (n + 2))

-- The first `while`, and what follows it.
pub skip_spaces : Bytes → ℕ → Lexed
unfolding is_space
skip_spaces [] n = lexed 0 token_none []
skip_spaces (c ∷ rest) n =
    if not (is_space c)
    then scan 0 [] (c ∷ rest) n
    else if c == b'\n'
    then lexed (n + 1) token_new_line []
    else skip_spaces rest (n + 1)

-- The result is converted to `uint32_t`.
truncate : Lexed → Lexed
truncate (returned (n, t)) = returned (u32 n, t)
truncate assert_failed = assert_failed

unfoldable pub parse_token : Bytes → Lexed
unfolding skip_spaces truncate scan round append_and_next on_quote on_backslash on_operator on_blank
    on_hash
parse_token s = truncate (skip_spaces s 0)
