-- ===== src/Parser/Printer/Append.antt =====
-- What is written stands before the rest as it is.
use system_prog.Common.{
  ◌≡◌, refl, true, false, inl, inr, Bool, List, [], ◌∷◌, ◌++◌, Bytes, Bool-cases, ◌==◌,
}
use system_prog.Parser.CommandLine.{
  Expr, command, pipe, and, or, OutputType, stdout, file_new, file_append, CommandLine,
}
use system_prog.Parser.Lexer.Words.{escaped}
use system_prog.Parser.Printer.{show_words, show_exprs, show_output, show_end, show_line}

escaped-append : (w s r : Bytes) → escaped w (s ++ r) ≡ escaped w s ++ r
escaped-append [] s r = refl
escaped-append (c ∷ w) s r = elim (Bool-cases (c == b'"')) [
  | inl h ↦ rw (h, escaped-append w s r)
  | inr h ↦ elim (Bool-cases (c == b'\\')) [
    | inl k ↦ rw (h, k, escaped-append w s r)
    | inr k ↦ rw (h, k, escaped-append w s r)
  ]
]

pub show_words-append :
    (ws : List Bytes) (s r : Bytes) → show_words ws (s ++ r) ≡ show_words ws s ++ r
show_words-append [] s r = refl
show_words-append (w ∷ ws) s r = rw (show_words-append ws s r, escaped-append w (show_words ws s) r)

pub show_exprs-append :
    (es : List Expr) (s r : Bytes) → show_exprs es (s ++ r) ≡ show_exprs es s ++ r
show_exprs-append [] s r = refl
show_exprs-append (command c ∷ es) s r = rw (
  show_exprs-append es s r,
  show_words-append c.args (show_exprs es s) r,
  escaped-append c.exe (show_words c.args (show_exprs es s)) r,
)
show_exprs-append (pipe ∷ es) s r = rw (show_exprs-append es s r)
show_exprs-append (and ∷ es) s r = rw (show_exprs-append es s r)
show_exprs-append (or ∷ es) s r = rw (show_exprs-append es s r)

show_output-append :
    (o : OutputType) (file s r : Bytes) → show_output o file (s ++ r) ≡ show_output o file s ++ r
show_output-append stdout file s r = refl
show_output-append file_new file s r = rw (escaped-append file s r)
show_output-append file_append file s r = rw (escaped-append file s r)

show_end-append : (bg : Bool) (s r : Bytes) → show_end bg (s ++ r) ≡ show_end bg s ++ r
show_end-append true s r = refl
show_end-append false s r = refl

pub show_line-append : (line : CommandLine) (r : Bytes) → show_line line r ≡ show_line line [] ++ r
unfolding show_line
show_line-append line r = rw (
  show_end-append line.is_background [] r,
  show_output-append line.out_type line.out_file (show_end line.is_background []) r,
  show_exprs-append line.exprs
      (show_output line.out_type line.out_file (show_end line.is_background [])) r,
)
