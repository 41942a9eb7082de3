-- ===== src/Engine/DmlValidator.antt =====
-- src/engine/dml/validator.c, and `validate_create_table` of src/engine/ddl/validator.c.
pub mod Laws
use maxql.Prelude.{
  ℕ, ◌≤◌, List, [], ◌∷◌, Bool, true, false, ◌||◌, Option, none, some, ◌≡◌, ◌↔◌, ltb, length, arith,
  All, ltb→le, le→ltb, refl, map,
}
use Prim.Native.String.{String}
use maxql.Core.Error.{Error, error_ok, error_is_ok}
use maxql.Core.StrView.{StrView, sv_equal, sv_to_cstr}
use maxql.Parser.Ast.{
  Assignment, Condition, ColumnDef, SelectStmt, InsertStmt, DeleteStmt, UpdateStmt, CreateTableStmt,
}
use maxql.Types.Value.{ColumnType}
use maxql.Types.Resolve.{type_by_name}
use maxql.Engine.DdlValidator.{max_table_name_size, max_column_name_size, reject_if, passed}

abbrev pub max_columns_per_table : ℕ
max_columns_per_table = 16

abbrev pub max_columns_in_select : ℕ
max_columns_in_select = 16

abbrev pub max_where_conditions : ℕ
max_where_conditions = 8

abbrev pub max_type_name_size : ℕ
max_type_name_size = 15

-- The loop over the lengths of names.
unfoldable pub some_long : List StrView → Bool
some_long [] = false
some_long (c ∷ cs) = ltb max_column_name_size c.len || some_long cs

-- The inner loop over the names behind one, and the outer loop.
unfoldable pub same_later : StrView → List StrView → Bool
same_later c [] = false
same_later c (d ∷ ds) = sv_equal c d || same_later c ds

unfoldable pub some_same : List StrView → Bool
unfolding same_later
some_same [] = false
some_same (c ∷ cs) = same_later c cs || some_same cs

abbrev pub assigned : List Assignment → List StrView
assigned xs = map (λ (a : Assignment). a.column) xs

abbrev pub compared : List Condition → List StrView
compared cs = map (λ (c : Condition). c.column) cs

-- The checks of a list of conditions, which end three of the functions.
unfoldable pub validate_where : List Condition → Error
unfolding reject_if some_long
validate_where cs =
    reject_if (ltb max_where_conditions (length cs)) "Too many where conditions"
      (reject_if (some_long (compared cs)) "Column name is too long" error_ok)

unfoldable pub validate_select : SelectStmt → Error
unfolding reject_if some_long some_same validate_where
validate_select s = reject_if (ltb max_table_name_size s.table.len) "Table name is too long" (
    reject_if (ltb max_columns_in_select (length s.columns)) "Too many columns" (
      reject_if (some_long s.columns) "Column name is too long"
        (reject_if (some_same s.columns) "Duplicate column" (validate_where s.where_list))))

-- The checks of a list of assignments, and what is done after them.
unfoldable pub validate_assignments : List Assignment → Error → Error
unfolding reject_if some_long some_same
validate_assignments xs rest =
    reject_if (ltb max_columns_per_table (length xs)) "Too many assignments" (
      reject_if (some_long (assigned xs)) "Column name is too long"
        (reject_if (some_same (assigned xs)) "Duplicate column" rest))

unfoldable pub validate_insert : InsertStmt → Error
unfolding reject_if validate_assignments
validate_insert s =
    reject_if (ltb max_table_name_size s.table.len) "Table name is too long"
      (validate_assignments s.assignments error_ok)

unfoldable pub validate_delete : DeleteStmt → Error
unfolding reject_if validate_where
validate_delete s =
    reject_if (ltb max_table_name_size s.table.len) "Table name is too long"
      (validate_where s.where_list)

unfoldable pub validate_update : UpdateStmt → Error
unfolding reject_if validate_assignments validate_where
validate_update s =
    reject_if (ltb max_table_name_size s.table.len) "Table name is too long"
      (validate_assignments s.assignments (validate_where s.where_list))

abbrev pub is_unknown : Option ColumnType → Bool
is_unknown none = true
is_unknown (some c) = false

abbrev pub defined : List ColumnDef → List StrView
defined ds = map (λ (d : ColumnDef). d.column) ds

-- The loop over the definitions, and what is done after it.
unfoldable pub validate_column_defs : List ColumnDef → Error → Error
unfolding reject_if same_later type_by_name sv_to_cstr
validate_column_defs [] rest = rest
validate_column_defs (d ∷ ds) rest =
    let later = validate_column_defs ds rest in
    reject_if (same_later d.column (defined ds)) "Duplicate column name in definition" (
      reject_if (ltb max_column_name_size d.column.len) "Column name is too long" (
        reject_if (ltb max_type_name_size d.type.name.len) "Column type is too long" (
          reject_if (is_unknown (type_by_name (sv_to_cstr d.type.name 16))) "Unknown column type"
            later)))

unfoldable pub validate_create_table : CreateTableStmt → Error
unfolding reject_if validate_column_defs
validate_create_table s =
    reject_if (ltb max_columns_per_table (length s.column_defs))
      "Too many columns definitions for table"
      (validate_column_defs s.column_defs
        (reject_if (ltb max_table_name_size s.table.len) "Table name is too long" error_ok))
