-- ===== src/Parser.antt =====
-- src/parser: the statements of include/maxql/parser/ast.h and the recursive descent that reads them.
pub mod Ast
pub mod State
pub mod Primitives
pub mod Query
pub mod Schema
pub mod Runs
