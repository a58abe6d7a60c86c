-- ===== src/Lexer.antt =====
-- The lexer: src/lexer.c, include/lexer.h and include/token.h. A position in the source is its
-- offset; the file's name, which the lexer only copies into tokens, is left out.
pub mod Token
pub mod State
pub mod Keyword
pub mod Literal
pub mod Symbol
pub mod Scan
pub mod Moves
pub mod Words
mod Spelling
mod Fits
mod Keywords
pub mod Plain
pub mod Read
pub mod Layout
pub mod Turned
pub mod Lines
pub mod Calls
pub mod Program
mod Tests
