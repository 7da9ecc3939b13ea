-- ===== src/Parser/Pop/Pipeline.antt =====
-- Expressions that are written out are read back by the main loop.
use system_prog.Common.{
  ℕ, ◌≤◌, ◌<◌, ◌≡◌, ◌≢◌, refl, inl, inr, true, false, not, Bool, List, [], ◌∷◌, ◌++◌, arith, Bytes,
  length, append-nil, append_assoc, Bool-cases,
}
use system_prog.Parser.CommandLine.{Command, Expr, command, pipe, and, or, CommandLine, add_arg}
use system_prog.Parser.CommandLine.Grammar.{Alternates, IsBinary, expects, Alternates-append}
use system_prog.Parser.Lexer.{single_operator, double_operator}
use system_prog.Parser.Pop.Rules.{small}
use system_prog.Parser.Pop.Steps.{Reads-quoted, Reads-single, Reads-double, length-escaped}
use system_prog.Parser.Printer.{show_words, show_expr, show_exprs}
use system_prog.Parser.Pop.Leads.{
  blank, AllBlank-blank, Leads, Leads-trans, Leads-continue, on_token_arg, on_token_exe,
  on_token_binary, expects-concat,
}

abbrev on : CommandLine → List Expr → CommandLine
on line es = record line { exprs = es }

length-show_words : (ws : List Bytes) (rest : Bytes) → length rest ≤ length (show_words ws rest)
length-show_words [] rest = omega arith
length-show_words (w ∷ ws) rest =
    omega (arith, length-escaped w (show_words ws rest), length-show_words ws rest)

Alternates-expr :
    (b : Bool) (e : Expr) (es : List Expr)
    → Alternates b (e ∷ es)
    → Alternates b (e ∷ []) × Alternates (not b) es
Alternates-expr true (command c) es a = (tt, a)
Alternates-expr false pipe es a = (tt, a)
Alternates-expr false and es a = (tt, a)
Alternates-expr false or es a = (tt, a)
Alternates-expr _ _ es a = absurd a

-- Some byte comes first, and it is no bar.
abbrev pub NotBar : Bytes → Type 0
NotBar [] = ⊥
NotBar (d ∷ rest) = d ≢ b'|'

NotBar-show_exprs : (es : List Expr) (rest : Bytes) → NotBar rest → NotBar (show_exprs es rest)
NotBar-show_exprs [] rest h = h
NotBar-show_exprs (command c ∷ es) rest h = omega arith
NotBar-show_exprs (pipe ∷ es) rest h = omega arith
NotBar-show_exprs (and ∷ es) rest h = omega arith
NotBar-show_exprs (or ∷ es) rest h = omega arith

length-show_expr : (e : Expr) (rest : Bytes) → length rest ≤ length (show_expr e rest)
length-show_expr (command c) rest =
    omega (arith, length-escaped c.exe (show_words c.args rest), length-show_words c.args rest)
length-show_expr pipe rest = omega arith
length-show_expr and rest = omega arith
length-show_expr or rest = omega arith

pub length-show_exprs : (es : List Expr) (rest : Bytes) → length rest ≤ length (show_exprs es rest)
length-show_exprs [] rest = omega arith
length-show_exprs (e ∷ es) rest =
    omega (arith, length-show_expr e (show_exprs es rest), length-show_exprs es rest)

module _ (line : CommandLine) where
  Leads-show_words :
      (ws : List Bytes) (es : List Expr) (c : Command) (rest : Bytes) (n : ℕ)
      → length (show_words ws rest) < small
      → Leads
          (on line (es ++ command c ∷ []))
          (show_words ws rest)
          n
          (on line (es ++ command (record c { args = c.args ++ ws }) ∷ []))
          rest
  Leads-show_words [] es c rest n l =
      rw append-nil (record { offset = n; same = refl; counted = refl })
  Leads-show_words (w ∷ ws) es c rest n l =
      let first = Reads-quoted blank n AllBlank-blank w (show_words ws rest) l in
      let step = Leads-continue (on line (es ++ command c ∷ [])) l first (on_token_arg es c w) in
      rw (← append_assoc c.args (w ∷ []) ws) (
        Leads-trans step
          (Leads-show_words ws es (add_arg c w) rest step.offset (omega (arith, first.shorter))))

  Leads-show_command :
      (es : List Expr) (c : Command) (rest : Bytes) (n : ℕ)
      → Alternates true es
      → expects true es ≡ true
      → length (show_expr (command c) rest) < small
      → Leads (on line es) (show_expr (command c) rest) n (on line (es ++ command c ∷ [])) rest
  Leads-show_command es c rest n a x l =
      let first = Reads-quoted blank n AllBlank-blank c.exe (show_words c.args rest) l in
      let step = Leads-continue (on line es) l first (on_token_exe es c.exe a x) in
      Leads-trans step (
        Leads-show_words c.args es (record { exe = c.exe; args = [] }) rest step.offset
          (omega (arith, first.shorter)))

  -- An operator, before what is not a second bar.
  Leads-show_binary :
      (es : List Expr) (e : Expr) (rest : Bytes) (n : ℕ)
      → IsBinary e
      → Alternates true es
      → expects true es ≡ false
      → NotBar rest
      → length (show_expr e rest) < small
      → Leads (on line es) (show_expr e rest) n (on line (es ++ e ∷ [])) rest
  unfolding single_operator double_operator
  Leads-show_binary es (command c) rest n b a x ne l = absurd b
  Leads-show_binary es pipe [] n b a x ne l = absurd ne
  Leads-show_binary es pipe (d ∷ rest) n b a x ne l =
      Leads-continue (on line es) l
        (Reads-single blank n AllBlank-blank b'|' d rest (inr (inl refl)) ne l)
        (on_token_binary es pipe b a x)
  Leads-show_binary es and rest n b a x ne l =
      Leads-continue (on line es) l (Reads-double blank n AllBlank-blank b'&' rest (inl refl) l)
        (on_token_binary es and b a x)
  Leads-show_binary es or rest n b a x ne l =
      Leads-continue (on line es) l
        (Reads-double blank n AllBlank-blank b'|' rest (inr (inl refl)) l)
        (on_token_binary es or b a x)

  Leads-show_expr :
      (es : List Expr) (e : Expr) (rest : Bytes) (n : ℕ)
      → Alternates true es
      → Alternates (expects true es) (e ∷ [])
      → NotBar rest
      → length (show_expr e rest) < small
      → Leads (on line es) (show_expr e rest) n (on line (es ++ e ∷ [])) rest
  Leads-show_expr es (command c) rest n a b ne l = elim (Bool-cases (expects true es)) [
    | inl x ↦ Leads-show_command es c rest n a x l
    | inr x ↦ absurd (rw x at b)
  ]
  Leads-show_expr es e rest n a b ne l = elim (Bool-cases (expects true es)) [
    | inl x ↦ absurd (rw x at b)
    | inr x ↦ Leads-show_binary es e rest n tt a x ne l
  ]

  -- The main loop reads back expressions that follow well-formed ones.
  pub Leads-show_exprs :
      (es fs : List Expr) (rest : Bytes) (n : ℕ)
      → Alternates true es
      → Alternates (expects true es) fs
      → NotBar rest
      → length (show_exprs fs rest) < small
      → Leads (on line es) (show_exprs fs rest) n (on line (es ++ fs)) rest
  Leads-show_exprs es [] rest n a b ne l =
      rw append-nil (record { offset = n; same = refl; counted = refl })
  Leads-show_exprs es (e ∷ fs) rest n a b ne l =
      let (b', bs) = Alternates-expr (expects true es) e fs b in
      let step =
        Leads-show_expr es e (show_exprs fs rest) n a b' (NotBar-show_exprs fs rest ne) l in
      rw (← append_assoc es (e ∷ []) fs) (
        Leads-trans step (
          Leads-show_exprs (es ++ e ∷ []) fs rest step.offset
            (Alternates-append true es (e ∷ []) a b') (rw expects-concat bs) ne
            (omega (arith, length-show_expr e (show_exprs fs rest)))))
