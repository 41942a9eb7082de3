-- ===== src/Core.antt =====
-- src/core and include/maxql/core: errors and results, string views and the lexer.
pub mod Error
pub mod StrView
pub mod Lexer
pub mod Result
