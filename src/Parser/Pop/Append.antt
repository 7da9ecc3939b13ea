-- ===== src/Parser/Pop/Append.antt =====
-- An answer of the search for a line does not depend on the bytes that arrive later.
use system_prog.Common.{
  ℕ, zero, suc, ◌<◌, ◌≡◌, refl, true, List, [], ◌∷◌, ◌++◌, arith, Bytes, Bool-cases, length,
  length-append, inl, inr,
}
use system_prog.Parser.Lexer.{TokenType, Token, token_out_new, token_out_append}
use system_prog.Parser.CommandLine.{
  ParserError, err_too_late_arguments, err_output_redirect_bad_arg, Expr, CommandLine, file_new,
  file_append,
}
use system_prog.Parser.Pop.Rules.{small, Taken, IsFinal, next_token-append}
use system_prog.Parser.Pop.{
  Verdict, is_new_line, skip_line, pop_loop, search_line, return_error, end_line, background,
  redirect, close_line, act, Action, on_token, continue, close, fail, unexpected, is_amp, is_str,
}

module _ (e : Bytes) where
  skip_line-append :
      (f g : ℕ) (code : ParserError) (rest : Bytes) (n : ℕ)
      → length (rest ++ e) < small
      → length rest < f
      → length (rest ++ e) < g
      → IsFinal (skip_line f code rest n)
      → skip_line g code (rest ++ e) n ≡ skip_line f code rest n
  unfolding skip_line
  skip_line-append zero g code rest n l hf hg i = absurd i
  skip_line-append (suc f) g code [] n l hf hg i = absurd i
  skip_line-append (suc f) zero code (c ∷ rest) n l hf hg i = absurd (omega arith)
  skip_line-append (suc f) (suc g) code (c ∷ rest) n l hf hg i =
      next_token-append (c ∷ rest) e n _ _ l
        (λ t r m k. elim (Bool-cases (is_new_line t.type)) [
          | inl b ↦ rw b (λ _. refl)
          | inr b ↦ rw b (
              skip_line-append f g code r m
                (omega (arith, k.shorter, length-append r e, length-append rest e))
                (omega (arith, k.shorter))
                (omega (arith, k.shorter, length-append r e, length-append rest e)))
        ])
        i

  return_error-append :
      (code : ParserError) (rest : Bytes) (n : ℕ)
      → length (rest ++ e) < small
      → IsFinal (return_error code rest n)
      → return_error code (rest ++ e) n ≡ return_error code rest n
  return_error-append code rest n l =
      skip_line-append (suc (length rest)) (suc (length (rest ++ e))) code rest n l (omega arith)
        (omega arith)

  end_line-append :
      (line : CommandLine) (t : Token) (rest : Bytes) (n : ℕ)
      → length (rest ++ e) < small
      → IsFinal (end_line line t rest n)
      → end_line line t (rest ++ e) n ≡ end_line line t rest n
  unfolding end_line
  end_line-append line t rest n l = elim (Bool-cases (is_new_line t.type)) [
    | inl b ↦ rw b (λ _. refl)
    | inr b ↦ rw b (return_error-append err_too_late_arguments rest n l)
  ]

  shorter_small :
      (rest : Bytes) (n : ℕ) (r : Bytes) (m : ℕ)
      → length (rest ++ e) < small
      → Taken rest n r m
      → length (r ++ e) < small
  shorter_small rest n r m l k = omega (arith, k.shorter, length-append r e, length-append rest e)

  background-append :
      (line : CommandLine) (t : Token) (rest : Bytes) (n : ℕ)
      → length (rest ++ e) < small
      → IsFinal (background line t rest n)
      → background line t (rest ++ e) n ≡ background line t rest n
  unfolding background
  background-append line t rest n l = elim (Bool-cases (is_amp t.type)) [
    | inl b ↦ rw b (
        next_token-append rest e n _ _ l λ t' r m k.
          end_line-append (record line { is_background = true }) t' r m
            (shorter_small rest n r m l k))
    | inr b ↦ rw b (end_line-append line t rest n l)
  ]

  redirect-append :
      (line : CommandLine) (t : Token) (rest : Bytes) (n : ℕ)
      → length (rest ++ e) < small
      → IsFinal (redirect line t rest n)
      → redirect line t (rest ++ e) n ≡ redirect line t rest n
  unfolding redirect
  redirect-append line t rest n l = elim (Bool-cases (is_str t.type)) [
    | inl b ↦ rw b (
        next_token-append rest e n _ _ l λ t' r m k.
          background-append (record line { out_file = t.text }) t' r m
            (shorter_small rest n r m l k))
    | inr b ↦ rw b (return_error-append err_output_redirect_bad_arg rest n l)
  ]

  close_line-append :
      (line : CommandLine) (ty : TokenType) (t : Token) (rest : Bytes) (n : ℕ)
      → length (rest ++ e) < small
      → IsFinal (close_line line ty t rest n)
      → close_line line ty t (rest ++ e) n ≡ close_line line ty t rest n
  unfolding close_line
  close_line-append line token_out_new t rest n l = next_token-append rest e n _ _ l λ t' r m k.
      redirect-append (record line { out_type = file_new }) t' r m (shorter_small rest n r m l k)
  close_line-append line token_out_append t rest n l = next_token-append rest e n _ _ l λ t' r m k.
      redirect-append (record line { out_type = file_append }) t' r m (shorter_small rest n r m l k)
  close_line-append line _ t rest n l = background-append line t rest n l

  act-append :
      (a : Action) (go go' : List Expr → Verdict) (closed closed' : Verdict)
      (failed failed' : ParserError → Verdict)
      → ((exprs : List Expr) → IsFinal (go exprs) → go' exprs ≡ go exprs)
      → (IsFinal closed → closed' ≡ closed)
      → ((code : ParserError) → IsFinal (failed code) → failed' code ≡ failed code)
      → IsFinal (act a go closed failed)
      → act a go' closed' failed' ≡ act a go closed failed
  act-append (continue exprs) go go' closed closed' failed failed' f g h = f exprs
  act-append close go go' closed closed' failed failed' f g h = g
  act-append (fail code) go go' closed closed' failed failed' f g h = h code
  act-append unexpected go go' closed closed' failed failed' f g h = λ _. refl

  pop_loop-append :
      (f g : ℕ) (line : CommandLine) (rest : Bytes) (n : ℕ)
      → length (rest ++ e) < small
      → length rest < f
      → length (rest ++ e) < g
      → IsFinal (pop_loop f line rest n)
      → pop_loop g line (rest ++ e) n ≡ pop_loop f line rest n
  unfolding pop_loop
  pop_loop-append zero g line rest n l hf hg i = absurd i
  pop_loop-append (suc f) g line [] n l hf hg i = absurd i
  pop_loop-append (suc f) zero line (c ∷ rest) n l hf hg i = absurd (omega arith)
  pop_loop-append (suc f) (suc g) line (c ∷ rest) n l hf hg i =
      next_token-append (c ∷ rest) e n _ _ l
        (λ t r m k.
          act-append (on_token line.exprs t.type t.text) _ _ _ _ _ _
            (λ exprs.
              pop_loop-append f g (record line { exprs = exprs }) r m
                (shorter_small (c ∷ rest) n r m l k) (omega (arith, k.shorter))
                (omega (arith, k.shorter, length-append r e, length-append rest e)))
            (close_line-append line t.type t r m (shorter_small (c ∷ rest) n r m l k))
            (λ code. return_error-append code r m (shorter_small (c ∷ rest) n r m l k)))
        i

  -- An answer of the search stays the same whatever bytes follow.
  pub search_line-append :
      (line : CommandLine) (rest : Bytes) (n : ℕ)
      → length (rest ++ e) < small
      → IsFinal (search_line line rest n)
      → search_line line (rest ++ e) n ≡ search_line line rest n
  search_line-append line rest n l =
      pop_loop-append (suc (length rest)) (suc (length (rest ++ e))) line rest n l (omega arith)
        (omega arith)
