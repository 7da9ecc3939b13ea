-- ===== src/Parser.antt =====
-- 2/parser.cpp: the tokens of the shell's command language, and the command lines built of them.
pub mod Lexer
pub mod CommandLine
pub mod Pop
pub mod Printer
