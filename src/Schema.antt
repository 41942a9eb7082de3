-- ===== src/Schema.antt =====
-- src/schema and include/maxql/schema: the columns of a table and the definitions of its indexes.
pub mod Table
pub mod Columns
pub mod Load
