-- ===== src/Lexer.antt =====
-- lexer.h and lexer.c: the characters of a source file become tokens.
pub mod Token
pub mod State
pub mod Keywords
pub mod Scan
pub mod Strings
pub mod Indent
pub mod Next
pub mod Rounds
pub mod Valid
pub mod Session
pub mod Text
pub mod Operators
pub mod Halts
pub mod Exits
pub mod Literals
pub mod Lines
