-- ===== src/Parser/CommandLine.antt =====
-- The command lines of 2/parser.h, and what 2/parser.cpp does to the expressions of one.
pub mod Grammar
use system_prog.Common.{Bool, true, false, List, [], ◌∷◌, ◌++◌, Bytes}

pub data ParserError : Type 0 where
  err_none : ParserError
  err_pipe_with_no_left_arg err_pipe_with_left_arg_not_a_command : ParserError
  err_and_with_no_left_arg err_and_with_left_arg_not_a_command : ParserError
  err_or_with_no_left_arg err_or_with_left_arg_not_a_command : ParserError
  err_output_redirect_bad_arg err_too_late_arguments err_ends_not_with_a_command : ParserError

pub record Command : Type 0 where
  pub exe : Bytes
  pub args : List Bytes

pub data Expr : Type 0 where
  command : Command → Expr
  pipe and or : Expr

pub data OutputType : Type 0 where
  stdout file_new file_append : OutputType

pub record CommandLine : Type 0 where
  pub exprs : List Expr
  pub out_type : OutputType
  pub out_file : Bytes
  pub is_background : Bool

abbrev pub new_line : CommandLine
new_line = record { exprs = []; out_type = stdout; out_file = []; is_background = false }

-- `exprs.back().type == EXPR_TYPE_COMMAND`, and false for no expressions.
unfoldable pub ends_with_command : List Expr → Bool
ends_with_command [] = false
ends_with_command (command c ∷ []) = true
ends_with_command (_ ∷ []) = false
ends_with_command (_ ∷ e ∷ es) = ends_with_command (e ∷ es)

abbrev pub add_arg : Command → Bytes → Command
add_arg c word = record c { args = c.args ++ word ∷ [] }

-- `exprs.back().cmd->args.emplace_back(word)`
unfoldable pub push_arg : List Expr → Bytes → List Expr
push_arg [] word = []
push_arg (command c ∷ []) word = command (add_arg c word) ∷ []
push_arg (e ∷ []) word = e ∷ []
push_arg (e ∷ f ∷ es) word = e ∷ push_arg (f ∷ es) word
