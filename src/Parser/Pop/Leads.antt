-- ===== src/Parser/Pop/Leads.antt =====
-- The main loop, one token of the expressions at a time.
use system_prog.Common.{
  u32, ℕ, suc, ◌+◌, ◌<◌, ◌≡◌, ◌∙◌, refl, ap, true, false, not, Bool, List, [], ◌∷◌, ◌++◌, arith,
  Bytes, length, is_empty-append,
}
use system_prog.Parser.CommandLine.{
  Command, Expr, command, pipe, and, or, CommandLine, add_arg, push_arg, ends_with_command,
}
use system_prog.Parser.CommandLine.Grammar.{
  Alternates, IsBinary, expects, expects-ends_with_command,
}
use system_prog.Parser.Lexer.{
  Token, TokenType, token_str, token_pipe, token_and, token_or, is_space, parse_token,
}
use system_prog.Parser.Lexer.Scan.{AllBlank}
use system_prog.Parser.Pop.Fuel.{pop_loop-fuel}
use system_prog.Parser.Pop.Rules.{small}
use system_prog.Parser.Pop.Steps.{Reads}
use system_prog.Parser.Pop.{
  search_line, pop_loop, on_token, act, continue, next_token, close_line, return_error,
}

abbrev pub blank : Bytes
blank = b' ' ∷ []

pub AllBlank-blank : AllBlank blank
unfolding is_space
AllBlank-blank = (refl, omega arith, tt)

-- The search in `rest` goes on as the search for `line'` in `r`.
pub record Leads (line : CommandLine) (rest : Bytes) (n : ℕ) (line' : CommandLine) (r : Bytes)
    : Type 0 where
  pub offset : ℕ
  pub same : search_line line rest n ≡ search_line line' r offset
  pub counted : offset + length r ≡ n + length rest

pub Leads-trans :
    {line line' line'' : CommandLine} {rest r r' : Bytes} {n : ℕ} (a : Leads line rest n line' r)
    → Leads line' r a.offset line'' r'
    → Leads line rest n line'' r'
Leads-trans a b = record {
  offset = b.offset;
  same = a.same ∙ b.same;
  counted = b.counted ∙ a.counted;
}

-- The search reads a token, also where no bytes are left.
pub search_line_lem :
    (line : CommandLine) (rest : Bytes) (n : ℕ)
    → search_line line rest n
      ≡ next_token rest n λ t r m.
        act
          (on_token line.exprs t.type t.text)
          (λ exprs. pop_loop (length rest) (record line { exprs = exprs }) r m)
          (close_line line t.type t r m)
          (λ code. return_error code r m)
unfolding pop_loop next_token parse_token u32
search_line_lem line [] n = refl
search_line_lem line (c ∷ rest) n = refl

-- A token that goes on with the expressions.
pub Leads-continue :
    (line : CommandLine) {rest : Bytes} {n : ℕ} {t : Token} {r : Bytes} {m : ℕ} {es : List Expr}
    → length rest < small
    → Reads rest n t r m
    → on_token line.exprs t.type t.text ≡ continue es
    → Leads line rest n (record line { exprs = es }) r
Leads-continue line {rest} {n} {t} {r} {m} {es} l k e = record {
  offset = m;
  same =
      search_line_lem line rest n
      ∙ k.reads _
      ∙ rw e (
          pop_loop-fuel (length rest) (suc (length r)) (record line { exprs = es }) r m
            (omega (arith, k.shorter)) k.shorter (omega arith));
  counted = k.counted;
}

ends_with_command-concat :
    (es : List Expr) (c : Command) → ends_with_command (es ++ command c ∷ []) ≡ true
unfolding ends_with_command
ends_with_command-concat [] c = refl
ends_with_command-concat (command d ∷ []) c = refl
ends_with_command-concat (_ ∷ []) c = refl
ends_with_command-concat (command d ∷ f ∷ es) c = ends_with_command-concat (f ∷ es) c
ends_with_command-concat (_ ∷ f ∷ es) c = ends_with_command-concat (f ∷ es) c

push_arg-concat :
    (es : List Expr) (c : Command) (w : Bytes)
    → push_arg (es ++ command c ∷ []) w ≡ es ++ command (add_arg c w) ∷ []
unfolding push_arg
push_arg-concat [] c w = refl
push_arg-concat (command d ∷ []) c w = refl
push_arg-concat (_ ∷ []) c w = refl
push_arg-concat (command d ∷ f ∷ es) c w = ap (◌∷◌ (command d)) (push_arg-concat (f ∷ es) c w)
push_arg-concat (e ∷ f ∷ es) c w = ap (◌∷◌ e) (push_arg-concat (f ∷ es) c w)

pub on_token_arg :
    (es : List Expr) (c : Command) (w : Bytes)
    → on_token (es ++ command c ∷ []) token_str w ≡ continue (es ++ command (add_arg c w) ∷ [])
unfolding on_token
on_token_arg es c w =
    rw (is_empty-append es (command c) [], ends_with_command-concat es c, push_arg-concat es c w)

pub on_token_exe :
    (es : List Expr) (w : Bytes)
    → Alternates true es
    → expects true es ≡ true
    → on_token es token_str w ≡ continue (es ++ command (record { exe = w; args = [] }) ∷ [])
unfolding on_token
on_token_exe [] w a x = refl
on_token_exe (e ∷ es) w a x = ground (arith, expects-ends_with_command true e es a)

abbrev operator_type : Expr → TokenType
operator_type (command c) = token_str
operator_type pipe = token_pipe
operator_type and = token_and
operator_type or = token_or

pub on_token_binary :
    (es : List Expr) (e : Expr)
    → IsBinary e
    → Alternates true es
    → expects true es ≡ false
    → on_token es (operator_type e) [] ≡ continue (es ++ e ∷ [])
unfolding on_token
on_token_binary [] e b a x = cc
on_token_binary (d ∷ es) (command c) b a x = absurd b
on_token_binary (d ∷ es) e b a x = ground (arith, expects-ends_with_command true d es a)

pub expects-concat :
    (b : Bool) (es : List Expr) (e : Expr) → expects b (es ++ e ∷ []) ≡ not (expects b es)
expects-concat b [] e = refl
expects-concat b (d ∷ es) e = expects-concat (not b) es e
