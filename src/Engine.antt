-- ===== src/Engine.antt =====
-- src/engine: what is done with a parsed statement.
pub mod Checks
pub mod ColumnTypes
pub mod DdlValidator
pub mod DdlPlanner
pub mod IndexPlanner
pub mod DmlExecutor
pub mod DmlAnalyzer
pub mod DmlChanges
pub mod DmlTypes
pub mod DmlPlanner
pub mod DmlValidator
pub mod Stages
