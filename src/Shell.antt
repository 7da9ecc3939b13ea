-- ===== src/Shell.antt =====
-- 2/solution.cpp: the shell that runs the command lines of 2/parser.cpp.
pub mod Execute
pub mod Main
