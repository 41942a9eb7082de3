-- ===== src/Engine/ColumnTypes.antt =====
-- The type of a column by its definition, as src/engine/ddl/planner.c and src/schema/schema_io.c resolve
-- it, each with its own errors.
pub mod Laws
use maxql.Prelude.{
  ℕ, zero, suc, ◌+◌, ◌%◌, List, [], ◌∷◌, Bool, true, false, not, ◌&&◌, ◌||◌, Option, none, some,
  length, take, ltb, leb, ◌==◌, if◌then◌else◌,
}
use maxql.Core.Error.{Error, error_fmt, err_planner, err_index}
use maxql.Core.Result.{Result, done, refused, undefined, and_then}
use maxql.Core.StrView.{StrView, sv_to_cstr}
use maxql.Parser.Ast.{
  ColumnTypeDef, ColumnDef, IndexKeyPart, CreateTableStmt, DropTableStmt, CreateIndexStmt,
  DropIndexStmt, TruncateTableStmt,
}
use maxql.Types.Value.{DataValue, value_null, value_int, value_string, value_binary, value_float}
use maxql.Types.Mapper.{TypeInfo}
use maxql.Types.Resolve.{
  ResolvedType, TypeResolveResult, resolve_ok, resolve_unknown_type, resolve_length_not_expected,
  resolve_length_required, resolve_length_too_big, resolve_length_too_small, resolve_misconfigured,
  resolve_type, resolved_type_validate, is_eq,
}
use maxql.Types.Compare.{strcmp}
use maxql.Types.Converter.{Strtof, convert_int}
use maxql.Schema.Table.{
  Column, TableSchema, TableMeta, IndexPart, IndexDefinition, index_btree, next_pos,
  table_column_pos, get_index_def,
}
use maxql.Database.{Database, database_table_by_name, copy_string}
use maxql.Index.Registry.{IndexVTable, index_vtable, index_vtable_by_name}
use maxql.Engine.Checks.{found, unless_found, converted, validated, raw_value}

-- The errors of the type of a column.
pub record TypeErrors : Type 0 where
  pub bad_length : Error
  pub out_of_range : Error
  pub unresolved : Error

abbrev pub resolved : Error → TypeResolveResult → Result ResolvedType
resolved e (resolve_ok rt) = done rt
resolved e resolve_unknown_type = refused e
resolved e resolve_length_not_expected = refused e
resolved e resolve_length_required = refused e
resolved e resolve_length_too_big = refused e
resolved e resolve_length_too_small = refused e
resolved e resolve_misconfigured = refused e

-- The length of an integer, where a negative one has a pattern above 255; `convert_int` makes no other value.
abbrev pub length_of : Error → DataValue → Result ℕ
length_of e (value_int w) = if ltb 255 w then refused e else done w
length_of e value_null = undefined
length_of e (value_string s) = undefined
length_of e (value_binary b) = undefined
length_of e (value_float w) = undefined

unfoldable pub column_type_length : TypeErrors → ColumnTypeDef → Result ℕ
unfolding convert_int
column_type_length errors type =
    if type.has_len
    then and_then (converted errors.bad_length (convert_int type.len))
        (length_of errors.out_of_range)
    else done 0

unfoldable pub column_type : TypeErrors → ColumnTypeDef → Result ResolvedType
unfolding column_type_length resolve_type sv_to_cstr
column_type errors type =
    and_then (column_type_length errors type)
      (λ len. resolved errors.unresolved (resolve_type (sv_to_cstr type.name 16) type.has_len len))
