-- ===== src/Parser/Pop/Fuel.antt =====
-- The fuel of the two loops is enough, and more of it changes nothing.
use system_prog.Common.{
  ℕ, zero, suc, ◌<◌, ◌≡◌, inl, inr, refl, List, [], ◌∷◌, arith, Bytes, Bool-cases, length,
}
use system_prog.Parser.CommandLine.{ParserError, Expr, CommandLine}
use system_prog.Parser.Pop.Rules.{small, next_token-cong}
use system_prog.Parser.Pop.{
  Verdict, is_new_line, skip_line, pop_loop, act, Action, on_token, continue, close, fail,
  unexpected,
}

pub skip_line-fuel :
    (f g : ℕ) (code : ParserError) (rest : Bytes) (n : ℕ)
    → length rest < small
    → length rest < f
    → length rest < g
    → skip_line f code rest n ≡ skip_line g code rest n
unfolding skip_line
skip_line-fuel zero g code rest n l hf hg = absurd (omega arith)
skip_line-fuel (suc f) zero code rest n l hf hg = absurd (omega arith)
skip_line-fuel (suc f) (suc g) code [] n l hf hg = refl
skip_line-fuel (suc f) (suc g) code (c ∷ rest) n l hf hg =
    next_token-cong (c ∷ rest) n _ _ l λ t r m k. elim (Bool-cases (is_new_line t.type)) [
      | inl e ↦ rw e
      | inr e ↦ rw e (
          skip_line-fuel f g code r m (omega (arith, k.shorter)) (omega (arith, k.shorter))
            (omega (arith, k.shorter)))
    ]

pub act-cong :
    (a : Action) (go go' : List Expr → Verdict) (closed : Verdict) (failed : ParserError → Verdict)
    → ((exprs : List Expr) → go exprs ≡ go' exprs)
    → act a go closed failed ≡ act a go' closed failed
act-cong (continue exprs) go go' closed failed h = h exprs
act-cong close go go' closed failed h = refl
act-cong (fail code) go go' closed failed h = refl
act-cong unexpected go go' closed failed h = refl

-- Fuel beyond the number of bytes changes nothing.
pub pop_loop-fuel :
    (f g : ℕ) (line : CommandLine) (rest : Bytes) (n : ℕ)
    → length rest < small
    → length rest < f
    → length rest < g
    → pop_loop f line rest n ≡ pop_loop g line rest n
unfolding pop_loop
pop_loop-fuel zero g line rest n l hf hg = absurd (omega arith)
pop_loop-fuel (suc f) zero line rest n l hf hg = absurd (omega arith)
pop_loop-fuel (suc f) (suc g) line [] n l hf hg = refl
pop_loop-fuel (suc f) (suc g) line (c ∷ rest) n l hf hg =
    next_token-cong (c ∷ rest) n _ _ l λ t r m k.
      act-cong (on_token line.exprs t.type t.text) _ _ _ _ λ exprs.
        pop_loop-fuel f g (record line { exprs = exprs }) r m (omega (arith, k.shorter))
          (omega (arith, k.shorter)) (omega (arith, k.shorter))
