-- ===== src/Engine/Stages.antt =====
-- src/engine/engine.c: the validator of each kind of statement that has one, and what it lets pass.
use maxql.Prelude.{◌≤◌, true, Option, none, some, ◌≡◌, ◌↔◌, length}
use maxql.Core.Error.{Error, error_fmt, error_is_ok, err_internal}
use maxql.Parser.Ast.{
  ParseResult, query_unknown, query_create_table, query_drop_table, query_create_index,
  query_drop_index, query_truncate_table, query_select, query_delete, query_insert, query_update,
  query_show_tables, query_show_table, query_show_index, query_show_index_types,
}
use maxql.Engine.DdlValidator.{
  validate_create_index, validate_drop_index, validate_drop_table, validate_truncate_table,
  IsIndexStmt,
}
use maxql.Engine.DmlValidator.{
  validate_select, validate_insert, validate_delete, validate_update, validate_create_table,
}
use maxql.Engine.DmlValidator.Laws.{AreShort, AreApart, IsWhere, AreAssignments, AreColumns}

-- The answer of the validator of a statement. A statement that shows something has none: its first stage
-- runs it. A statement that the parser could not tell has no stages.
unfoldable pub validate_stage : ParseResult → Option Error
unfolding validate_create_table validate_create_index validate_drop_index validate_drop_table
    validate_truncate_table validate_select validate_insert validate_delete validate_update
validate_stage query_unknown = some (error_fmt err_internal "No pipeline defined for query type")
validate_stage (query_create_table s) = some (validate_create_table s)
validate_stage (query_drop_table s) = some (validate_drop_table s)
validate_stage (query_create_index s) = some (validate_create_index s)
validate_stage (query_drop_index s) = some (validate_drop_index s)
validate_stage (query_truncate_table s) = some (validate_truncate_table s)
validate_stage (query_select s) = some (validate_select s)
validate_stage (query_delete s) = some (validate_delete s)
validate_stage (query_insert s) = some (validate_insert s)
validate_stage (query_update s) = some (validate_update s)
validate_stage query_show_tables = none
validate_stage (query_show_table s) = none
validate_stage (query_show_index s) = none
validate_stage query_show_index_types = none

-- A statement within the limits.
abbrev pub IsStmt : ParseResult → Type 0
IsStmt query_unknown = ⊥
IsStmt (query_create_table s) =
    (length s.column_defs ≤ 16) × (AreColumns s.column_defs × (s.table.len ≤ 31))
IsStmt (query_drop_table s) = s.table.len ≤ 31
IsStmt (query_create_index s) = IsIndexStmt s
IsStmt (query_drop_index s) = (s.table.len ≤ 31) × (s.index.len ≤ 31)
IsStmt (query_truncate_table s) = s.table.len ≤ 31
IsStmt (query_select s) =
    (s.table.len ≤ 31)
    × ((length s.columns ≤ 16) × (AreShort s.columns × (AreApart s.columns × IsWhere s.where_list)))
IsStmt (query_delete s) = (s.table.len ≤ 31) × IsWhere s.where_list
IsStmt (query_insert s) = (s.table.len ≤ 31) × AreAssignments s.assignments
IsStmt (query_update s) = (s.table.len ≤ 31) × (AreAssignments s.assignments × IsWhere s.where_list)
IsStmt query_show_tables = ⊥
IsStmt (query_show_table s) = ⊥
IsStmt (query_show_index s) = ⊥
IsStmt query_show_index_types = ⊥

-- A statement that shows something.
abbrev pub IsShow : ParseResult → Type 0
IsShow query_show_tables = Unit
IsShow (query_show_table s) = Unit
IsShow (query_show_index s) = Unit
IsShow query_show_index_types = Unit
IsShow _ = ⊥

-- What it means that a statement has this validator's answer.
abbrev pub Decides : ParseResult → Option Error → Type 0
Decides r none = IsShow r
Decides r (some e) = (error_is_ok e ≡ true) ↔ IsStmt r
