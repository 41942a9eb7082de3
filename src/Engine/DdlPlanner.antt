-- ===== src/Engine/DdlPlanner.antt =====
-- src/engine/ddl/planner.c: from a statement on a table to what is done. The statement has passed its
-- validator: an array has room for the list that is written to it.
pub mod Columns
use maxql.Prelude.{
  ℕ, zero, suc, ◌+◌, ◌%◌, List, [], ◌∷◌, Bool, true, false, not, ◌&&◌, ◌||◌, Option, none, some,
  length, take, ltb, leb, ◌==◌, if◌then◌else◌,
}
use maxql.Core.Error.{Error, error_fmt, err_planner, err_index}
use maxql.Core.Result.{Result, done, refused, undefined, and_then}
use maxql.Core.StrView.{StrView, sv_to_cstr}
use maxql.Parser.Ast.{
  ColumnTypeDef, ColumnDef, IndexKeyPart, CreateTableStmt, DropTableStmt, CreateIndexStmt,
  DropIndexStmt, TruncateTableStmt,
}
use maxql.Types.Value.{DataValue, value_null, value_int, value_string, value_binary, value_float}
use maxql.Types.Mapper.{TypeInfo}
use maxql.Types.Resolve.{
  ResolvedType, TypeResolveResult, resolve_ok, resolve_unknown_type, resolve_length_not_expected,
  resolve_length_required, resolve_length_too_big, resolve_length_too_small, resolve_misconfigured,
  resolve_type, resolved_type_validate, is_eq,
}
use maxql.Types.Compare.{strcmp}
use maxql.Types.Converter.{Strtof, convert_int}
use maxql.Schema.Table.{
  Column, TableSchema, TableMeta, IndexPart, IndexDefinition, index_btree, next_pos,
  table_column_pos, get_index_def,
}
use maxql.Database.{Database, database_table_by_name, copy_string}
use maxql.Index.Registry.{IndexVTable, index_vtable, index_vtable_by_name}
use maxql.Engine.ColumnTypes.{TypeErrors, column_type}
use maxql.Engine.Checks.{found, unless_found, converted, validated, raw_value}

abbrev pub column_error : Error
column_error = error_fmt err_planner "Invalid value for column '%s': %s"

abbrev pub invalid_default : Error
invalid_default = error_fmt err_planner "Invalid default column '%s' value: %s"

abbrev pub table_not_found : Error
table_not_found = error_fmt err_planner "Table '%s' not found"

abbrev pub planner_errors : TypeErrors
planner_errors = record {
  bad_length = column_error;
  out_of_range = error_fmt err_planner "Column '%s' length is out of range";
  unresolved = error_fmt err_planner "Column '%s': %s '%s'";
}

-- A column without a default has a default value of zeros.
unfoldable pub plain_column : ColumnDef → ResolvedType → Column
unfolding sv_to_cstr
plain_column d rt = record {
  column_name = copy_string 32 (sv_to_cstr d.column 32);
  resolved_type = rt;
  has_default = false;
  default_value = value_null;
}

unfoldable pub default_column : ColumnDef → ResolvedType → DataValue → Column
unfolding sv_to_cstr
default_column d rt v = record {
  column_name = copy_string 32 (sv_to_cstr d.column 32);
  resolved_type = rt;
  has_default = true;
  default_value = v;
}

module _ (strtof : List ℕ → Strtof) where
  unfoldable pub column_default : ResolvedType → ColumnDef → Result DataValue
  unfolding resolved_type_validate raw_value
  column_default rt d =
      and_then (raw_value strtof column_error d.default_value)
        (λ v. validated invalid_default (resolved_type_validate rt v) v)

  -- The body of the loop over the definitions.
  unfoldable pub plan_column : ColumnDef → Result Column
  unfolding column_type column_default
  plan_column d = and_then (column_type planner_errors d.type) (λ rt.
      if d.has_default
      then and_then (column_default rt d) (λ v. done (default_column d rt v))
      else done (plain_column d rt))

  unfoldable pub plan_columns : List ColumnDef → Result (List Column)
  unfolding plan_column
  plan_columns [] = done []
  plan_columns (d ∷ ds) =
      and_then (plan_column d) (λ c. and_then (plan_columns ds) (λ cs. done (c ∷ cs)))

  -- The schema of the new table. The number of definitions is a byte.
  unfoldable pub plan_create_table : Database → CreateTableStmt → Result TableSchema
  unfolding database_table_by_name plan_columns sv_to_cstr
  plan_create_table db stmt =
      let table_name = sv_to_cstr stmt.table 32 in
      let defs = take (length stmt.column_defs % 256) stmt.column_defs in
      unless_found (error_fmt err_planner "Table '%s' already exists")
        (database_table_by_name db table_name)
        (and_then (plan_columns defs)
          (λ columns. done (record { table_name = copy_string 32 table_name; columns = columns })))

-- The table of a statement, by its name.
unfoldable pub planned_table : Database → StrView → Result TableMeta
unfolding database_table_by_name sv_to_cstr
planned_table db table = found table_not_found (database_table_by_name db (sv_to_cstr table 32))

unfoldable pub plan_drop_table : Database → DropTableStmt → Result TableMeta
unfolding planned_table
plan_drop_table db stmt = planned_table db stmt.table

unfoldable pub plan_truncate_table : Database → TruncateTableStmt → Result TableMeta
unfolding planned_table
plan_truncate_table db stmt = planned_table db stmt.table
