-- ===== src/Parser/Lexer/Operators.antt =====
-- The operators, and the line feed, as `parse_token` reads them.
use system_prog.Common.{ℕ, ◌+◌, ◌≡◌, ◌≢◌, ◌⊎◌, ◌∙◌, refl, false, [], ◌∷◌, arith, Bytes}
use system_prog.Parser.Lexer.Scan.{scan-return, skip_spaces-scan}
use system_prog.Parser.Lexer.{
  lexed, token_new_line, return_, single_operator, double_operator, on_operator, round, is_space,
  skip_spaces,
}

abbrev pub IsOperator : ℕ → Type 0
IsOperator c = (c ≡ b'&') ⊎ ((c ≡ b'|') ⊎ (c ≡ b'>'))

is_space-IsOperator : (c : ℕ) → IsOperator c → is_space c ≡ false
unfolding is_space
is_space-IsOperator c h = ground arith

round_single :
    (c d : ℕ) (s : Bytes) (n : ℕ)
    → IsOperator c
    → d ≢ c
    → round 0 [] c (d ∷ s) n ≡ return_ (lexed (n + 1) (single_operator c) [])
unfolding round on_operator
round_single c d s n h k = ground arith

round_double :
    (c : ℕ) (s : Bytes) (n : ℕ)
    → IsOperator c
    → round 0 [] c (c ∷ s) n ≡ return_ (lexed (n + 2) (double_operator c) [])
unfolding round on_operator
round_double c s n h = ground arith

-- `&`, `|` or `>` before another byte.
pub skip_spaces-single :
    (c d : ℕ) (s : Bytes) (n : ℕ)
    → IsOperator c
    → d ≢ c
    → skip_spaces (c ∷ d ∷ s) n ≡ lexed (n + 1) (single_operator c) []
skip_spaces-single c d s n h k =
    skip_spaces-scan c (d ∷ s) n (is_space-IsOperator c h)
    ∙ scan-return 0 [] c (d ∷ s) n (round_single c d s n h k)

-- `&&`, `||` or `>>`.
pub skip_spaces-double :
    (c : ℕ) (s : Bytes) (n : ℕ)
    → IsOperator c
    → skip_spaces (c ∷ c ∷ s) n ≡ lexed (n + 2) (double_operator c) []
skip_spaces-double c s n h =
    skip_spaces-scan c (c ∷ s) n (is_space-IsOperator c h)
    ∙ scan-return 0 [] c (c ∷ s) n (round_double c s n h)

pub skip_spaces-new_line :
    (s : Bytes) (n : ℕ) → skip_spaces (b'\n' ∷ s) n ≡ lexed (n + 1) token_new_line []
unfolding skip_spaces is_space
skip_spaces-new_line s n = refl
