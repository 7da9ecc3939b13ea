-- ===== src/Parser/Pop/Sound.antt =====
-- What the search for a line can answer.
use system_prog.Common.{
  ℕ, zero, suc, ◌+◌, ◌≤◌, ◌<◌, ◌≡◌, ◌≢◌, refl, true, List, [], ◌∷◌, ◌++◌, arith, Bytes, Bool-cases,
  length, inl, inr,
}
use system_prog.Parser.Lexer.{
  TokenType, Token, token_none, token_str, token_out_new, token_out_append,
}
use system_prog.Parser.CommandLine.{
  ParserError, err_none, err_too_late_arguments, err_output_redirect_bad_arg, Expr, command, pipe,
  and, or, CommandLine, stdout, file_new, file_append, new_line,
}
use system_prog.Parser.CommandLine.Grammar.{
  Alternates, IsCommandLine, Alternates-append, Alternates-push_arg, expects,
  expects-ends_with_command,
}
use system_prog.Parser.Pop.Rules.{small, next_token-ind}
use system_prog.Parser.Pop.{
  Then, Verdict, accepted, rejected, no_line, assertion, exhausted, next_token, is_new_line,
  skip_line, pop_loop, search_line, return_error, end_line, background, redirect, close_line, act,
  Action, on_token, continue, close, fail, unexpected, is_amp, is_str,
}

-- Of `total` bytes the answer takes at least one, and at most all; an accepted line is well formed,
-- a rejection has an error, and the fuel has sufficed.
abbrev pub IsSound : ℕ → Verdict → Type 0
IsSound total (accepted line m) = (0 < m) × (m ≤ total) × IsCommandLine line
IsSound total (rejected code m) = (0 < m) × (m ≤ total) × (code ≢ err_none)
IsSound total no_line = Unit
IsSound total assertion = Unit
IsSound total exhausted = ⊥

abbrev Fine : CommandLine → Type 0
Fine line = Alternates true line.exprs × (line.out_type ≡ stdout → line.out_file ≡ [])

-- `n` bytes are taken, and with the rest there are `total`.
abbrev Within : ℕ → Bytes → ℕ → Type 0
Within total rest n = (n + length rest ≡ total) × (total < small)

skip_line-IsSound :
    (total f : ℕ) (code : ParserError) (rest : Bytes) (n : ℕ)
    → code ≢ err_none
    → Within total rest n
    → length rest < f
    → IsSound total (skip_line f code rest n)
unfolding skip_line
skip_line-IsSound total zero code rest n ne l h = absurd (omega arith)
skip_line-IsSound total (suc f) code [] n ne l h = tt
skip_line-IsSound total (suc f) code (c ∷ rest) n ne (l, s) h =
    next_token-ind (IsSound total) (c ∷ rest) n _ (omega arith) tt tt λ t r m _ k.
      elim (Bool-cases (is_new_line t.type)) [
        | inl e ↦ rw e (omega (arith, k.shorter, k.counted), omega (arith, k.counted), ne)
        | inr e ↦ rw e (
            skip_line-IsSound total f code r m ne (omega (arith, k.counted), s)
              (omega (arith, k.shorter)))
      ]

return_error-IsSound :
    (total : ℕ) (code : ParserError) (rest : Bytes) (n : ℕ)
    → code ≢ err_none
    → Within total rest n
    → IsSound total (return_error code rest n)
return_error-IsSound total code rest n ne w =
    skip_line-IsSound total (suc (length rest)) code rest n ne w (omega arith)

module _ (total : ℕ) (line : CommandLine) (t : Token) (rest : Bytes) (n : ℕ) where
  end_line-IsSound :
      Fine line → 0 < n → Within total rest n → IsSound total (end_line line t rest n)
  unfolding end_line
  end_line-IsSound (a, f) p w =
      let late = return_error-IsSound total err_too_late_arguments rest n (λ e. cc) w in
      ground (arith, late)

-- After one token at least one byte is taken.
next_token-IsSound :
    (total : ℕ) (rest : Bytes) (n : ℕ) (go : Then)
    → Within total rest n
    → ((t : Token) (r : Bytes) (m : ℕ)
        → t.type ≢ token_none
        → length r < length rest
        → 0 < m
        → Within total r m
        → IsSound total (go t r m))
    → IsSound total (next_token rest n go)
next_token-IsSound total rest n go (w, s) h =
    next_token-ind (IsSound total) rest n go (omega arith) tt tt λ t r m ne k.
      h t r m ne k.shorter (omega (arith, k.shorter, k.counted)) (omega (arith, k.counted), s)

module _ (total : ℕ) (line : CommandLine) where
  background-IsSound :
      (t : Token) (rest : Bytes) (n : ℕ)
      → Fine line
      → 0 < n
      → Within total rest n
      → IsSound total (background line t rest n)
  unfolding background
  background-IsSound t rest n f p w = elim (Bool-cases (is_amp t.type)) [
    | inl e ↦ rw e (
        next_token-IsSound total rest n _ w
          λ t r m _ _ p'. end_line-IsSound total (record line { is_background = true }) t r m f p')
    | inr e ↦ rw e (end_line-IsSound total line t rest n f p w)
  ]

redirect-IsSound :
    (total : ℕ) (line : CommandLine) (t : Token) (rest : Bytes) (n : ℕ)
    → Alternates true line.exprs
    → line.out_type ≢ stdout
    → Within total rest n
    → IsSound total (redirect line t rest n)
unfolding redirect
redirect-IsSound total line t rest n a d w = elim (Bool-cases (is_str t.type)) [
  | inl e ↦ rw e (
      next_token-IsSound total rest n _ w λ t' r m _ _ p.
        background-IsSound total (record line { out_file = t.text }) t' r m (a, λ s. absurd (d s))
          p)
  | inr e ↦ rw e (return_error-IsSound total err_output_redirect_bad_arg rest n (λ c. cc) w)
]

close_line-IsSound :
    (total : ℕ) (line : CommandLine) (ty : TokenType) (t : Token) (rest : Bytes) (n : ℕ)
    → Fine line
    → 0 < n
    → Within total rest n
    → IsSound total (close_line line ty t rest n)
unfolding close_line
close_line-IsSound total line token_out_new t rest n f p w =
    next_token-IsSound total rest n _ w λ t r m _ _ _.
      redirect-IsSound total (record line { out_type = file_new }) t r m f.0 (λ e. cc)
close_line-IsSound total line token_out_append t rest n f p w =
    next_token-IsSound total rest n _ w λ t r m _ _ _.
      redirect-IsSound total (record line { out_type = file_append }) t r m f.0 (λ e. cc)
close_line-IsSound total line _ t rest n f p w = background-IsSound total line t rest n f p w

abbrev ActionIsSound : Action → Type 0
ActionIsSound (continue exprs) = Alternates true exprs
ActionIsSound close = Unit
ActionIsSound (fail code) = code ≢ err_none
ActionIsSound unexpected = ⊥

Alternates-concat :
    (exprs : List Expr) (e : Expr)
    → Alternates true exprs
    → Alternates (expects true exprs) (e ∷ [])
    → Alternates true (exprs ++ e ∷ [])
Alternates-concat exprs e = Alternates-append true exprs (e ∷ [])

on_token-ActionIsSound :
    (exprs : List Expr) (ty : TokenType) (text : Bytes)
    → ty ≢ token_none
    → Alternates true exprs
    → ActionIsSound (on_token exprs ty text)
unfolding on_token
on_token-ActionIsSound [] token_none text ne a = absurd (ne refl)
on_token-ActionIsSound [] _ text ne a = ground arith
on_token-ActionIsSound (e ∷ es) token_none text ne a = absurd (ne refl)
on_token-ActionIsSound (e ∷ es) token_str text ne a = ground (
  arith,
  Alternates-push_arg true (e ∷ es) text a,
  expects-ends_with_command true e es a,
  Alternates-concat (e ∷ es) (command (record { exe = text; args = [] })) a,
)
on_token-ActionIsSound (e ∷ es) ty text ne a = ground (
  arith,
  expects-ends_with_command true e es a,
  Alternates-concat (e ∷ es) pipe a,
  Alternates-concat (e ∷ es) and a,
  Alternates-concat (e ∷ es) or a,
)

act-IsSound :
    (total : ℕ) (a : Action) (go : List Expr → Verdict) (closed : Verdict)
    (failed : ParserError → Verdict)
    → ActionIsSound a
    → ((exprs : List Expr) → Alternates true exprs → IsSound total (go exprs))
    → IsSound total closed
    → ((code : ParserError) → code ≢ err_none → IsSound total (failed code))
    → IsSound total (act a go closed failed)
act-IsSound total (continue exprs) go closed failed s f g h = f exprs s
act-IsSound total close go closed failed s f g h = g
act-IsSound total (fail code) go closed failed s f g h = h code s
act-IsSound total unexpected go closed failed s f g h = absurd s

-- While the expressions are read, nothing else of the line is set.
abbrev IsOpen : CommandLine → Type 0
IsOpen line = (line.out_type ≡ stdout) × (line.out_file ≡ [])

pop_loop-IsSound :
    (total f : ℕ) (line : CommandLine) (rest : Bytes) (n : ℕ)
    → Alternates true line.exprs
    → IsOpen line
    → Within total rest n
    → length rest < f
    → IsSound total (pop_loop f line rest n)
unfolding pop_loop
pop_loop-IsSound total zero line rest n a o w h = absurd (omega arith)
pop_loop-IsSound total (suc f) line [] n a o w h = tt
pop_loop-IsSound total (suc f) line (c ∷ rest) n a o w h =
    next_token-IsSound total (c ∷ rest) n _ w λ t r m ne k p w'.
      act-IsSound total (on_token line.exprs t.type t.text) _ _ _
        (on_token-ActionIsSound line.exprs t.type t.text ne a)
        (λ exprs b.
          pop_loop-IsSound total f (record line { exprs = exprs }) r m b o w' (omega arith))
        (close_line-IsSound total line t.type t r m (a, λ _. o.1) p w')
        (λ code d. return_error-IsSound total code r m d w')

pub search_line-IsSound :
    (buffer : Bytes)
    → length buffer < small
    → IsSound (length buffer) (search_line new_line buffer 0)
search_line-IsSound buffer l =
    pop_loop-IsSound (length buffer) (suc (length buffer)) new_line buffer 0 tt (refl, refl)
      (omega arith, l) (omega arith)
