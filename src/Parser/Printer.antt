-- ===== src/Parser/Printer.antt =====
-- How a command line may be written, so that 2/parser.cpp reads it back: every word between
-- double quotes, every operator between spaces. Each piece stands before the `rest`.
pub mod Append
use system_prog.Common.{Bool, true, false, List, [], ◌∷◌, Bytes}
use system_prog.Parser.CommandLine.{
  Expr, command, pipe, and, or, OutputType, stdout, file_new, file_append, CommandLine,
}
use system_prog.Parser.Lexer.Words.{quoted}

abbrev pub show_word : Bytes → Bytes → Bytes
show_word w rest = b' ' ∷ quoted w rest

abbrev pub show_words : List Bytes → Bytes → Bytes
show_words [] rest = rest
show_words (w ∷ ws) rest = show_word w (show_words ws rest)

abbrev pub show_expr : Expr → Bytes → Bytes
show_expr (command c) rest = show_word c.exe (show_words c.args rest)
show_expr pipe rest = b' ' ∷ b'|' ∷ rest
show_expr and rest = b' ' ∷ b'&' ∷ b'&' ∷ rest
show_expr or rest = b' ' ∷ b'|' ∷ b'|' ∷ rest

abbrev pub show_exprs : List Expr → Bytes → Bytes
show_exprs [] rest = rest
show_exprs (e ∷ es) rest = show_expr e (show_exprs es rest)

abbrev pub show_output : OutputType → Bytes → Bytes → Bytes
show_output stdout file rest = rest
show_output file_new file rest = b' ' ∷ b'>' ∷ b' ' ∷ quoted file rest
show_output file_append file rest = b' ' ∷ b'>' ∷ b'>' ∷ quoted file rest

abbrev pub show_end : Bool → Bytes → Bytes
show_end true rest = b' ' ∷ b'&' ∷ b'\n' ∷ rest
show_end false rest = b'\n' ∷ rest

-- The line, its line feed included.
unfoldable pub show_line : CommandLine → Bytes → Bytes
show_line line rest =
    show_exprs line.exprs
      (show_output line.out_type line.out_file (show_end line.is_background rest))
