-- ===== src/Sql/Parser.antt =====
-- sql/parser/: the lexer and the parser.
pub mod Token
pub mod Lexer
pub mod Grammar
pub mod Arithmetic
pub mod Total
mod Tests
