-- ===== src/Parser/CommandLine/Grammar.antt =====
-- The shape of the expressions of a line: commands with single operators between them.
use system_prog.Common.{Bool, true, false, not, ◌≡◌, refl, List, [], ◌∷◌, ◌++◌, Bytes}
use system_prog.Parser.CommandLine.{
  Expr, command, pipe, and, or, stdout, CommandLine, ends_with_command, push_arg,
}

abbrev pub IsBinary : Expr → Type 0
IsBinary (command c) = ⊥
IsBinary _ = Unit

-- Commands and operators take turns; the flag says that a command comes first.
abbrev pub Alternates : Bool → List Expr → Type 0
Alternates first [] = Unit
Alternates true (command c ∷ es) = Alternates false es
Alternates true (_ ∷ es) = ⊥
Alternates false (command c ∷ es) = ⊥
Alternates false (_ ∷ es) = Alternates true es

-- A line as the shell runs it: commands joined by operators, from a command to a command, and a
-- file only where the output goes to one.
pub record IsCommandLine (line : CommandLine) : Type 0 where
  pub alternates : Alternates true line.exprs
  pub complete : ends_with_command line.exprs ≡ true
  pub file : line.out_type ≡ stdout → line.out_file ≡ []

pub Alternates-push_arg :
    (b : Bool) (es : List Expr) (word : Bytes) → Alternates b es → Alternates b (push_arg es word)
unfolding push_arg
Alternates-push_arg b [] word h = h
Alternates-push_arg true (command c ∷ []) word h = tt
Alternates-push_arg false (command c ∷ []) word h = h
Alternates-push_arg true (command c ∷ f ∷ es) word h = Alternates-push_arg false (f ∷ es) word h
Alternates-push_arg false (pipe ∷ f ∷ es) word h = Alternates-push_arg true (f ∷ es) word h
Alternates-push_arg false (and ∷ f ∷ es) word h = Alternates-push_arg true (f ∷ es) word h
Alternates-push_arg false (or ∷ f ∷ es) word h = Alternates-push_arg true (f ∷ es) word h
Alternates-push_arg false (pipe ∷ []) word h = h
Alternates-push_arg false (and ∷ []) word h = h
Alternates-push_arg false (or ∷ []) word h = h
Alternates-push_arg _ (_ ∷ _) word h = absurd h

-- Whether a command comes next.
abbrev pub expects : Bool → List Expr → Bool
expects first [] = first
expects first (e ∷ es) = expects (not first) es

pub Alternates-append :
    (b : Bool) (es fs : List Expr)
    → Alternates b es
    → Alternates (expects b es) fs
    → Alternates b (es ++ fs)
Alternates-append b [] fs h k = k
Alternates-append true (command c ∷ es) fs h k = Alternates-append false es fs h k
Alternates-append false (pipe ∷ es) fs h k = Alternates-append true es fs h k
Alternates-append false (and ∷ es) fs h k = Alternates-append true es fs h k
Alternates-append false (or ∷ es) fs h k = Alternates-append true es fs h k
Alternates-append _ (_ ∷ _) fs h k = absurd h

pub expects-ends_with_command :
    (b : Bool) (e : Expr) (es : List Expr)
    → Alternates b (e ∷ es)
    → expects b (e ∷ es) ≡ not (ends_with_command (e ∷ es))
unfolding ends_with_command
expects-ends_with_command true (command c) [] h = refl
expects-ends_with_command false pipe [] h = refl
expects-ends_with_command false and [] h = refl
expects-ends_with_command false or [] h = refl
expects-ends_with_command true (command c) (e ∷ es) h = expects-ends_with_command false e es h
expects-ends_with_command false pipe (e ∷ es) h = expects-ends_with_command true e es h
expects-ends_with_command false and (e ∷ es) h = expects-ends_with_command true e es h
expects-ends_with_command false or (e ∷ es) h = expects-ends_with_command true e es h
expects-ends_with_command _ _ _ h = absurd h
