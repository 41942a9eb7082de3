-- ===== src/Engine/IndexPlanner.antt =====
-- src/engine/ddl/planner.c: from a statement on an index to what is done. The statement has passed its
-- validator: an array has room for the list that is written to it.
pub mod Parts
pub mod Create
pub mod Drop
use maxql.Prelude.{
  ℕ, zero, suc, ◌+◌, ◌%◌, List, [], ◌∷◌, Bool, true, false, not, ◌&&◌, ◌||◌, Option, none, some,
  length, take, ltb, leb, ◌==◌, if◌then◌else◌,
}
use maxql.Core.Error.{Error, error_fmt, err_planner, err_index}
use maxql.Core.Result.{Result, done, refused, undefined, and_then}
use maxql.Core.StrView.{StrView, sv_to_cstr}
use maxql.Parser.Ast.{
  ColumnTypeDef, ColumnDef, IndexKeyPart, CreateTableStmt, DropTableStmt, CreateIndexStmt,
  DropIndexStmt, TruncateTableStmt,
}
use maxql.Types.Value.{DataValue, value_null, value_int, value_string, value_binary, value_float}
use maxql.Types.Mapper.{TypeInfo}
use maxql.Types.Resolve.{
  ResolvedType, TypeResolveResult, resolve_ok, resolve_unknown_type, resolve_length_not_expected,
  resolve_length_required, resolve_length_too_big, resolve_length_too_small, resolve_misconfigured,
  resolve_type, resolved_type_validate, is_eq,
}
use maxql.Types.Compare.{strcmp}
use maxql.Types.Converter.{Strtof, convert_int}
use maxql.Schema.Table.{
  Column, TableSchema, TableMeta, IndexPart, IndexDefinition, index_btree, next_pos,
  table_column_pos, get_index_def,
}
use maxql.Database.{Database, database_table_by_name, copy_string}
use maxql.Index.Registry.{IndexVTable, index_vtable, index_vtable_by_name}
use maxql.Engine.Checks.{found, unless_found, converted, validated, raw_value}
use maxql.Engine.DdlPlanner.{planned_table}

-- The errors of a part of a key.
pub record PartErrors : Type 0 where
  pub no_column : Error
  pub bad_length : Error
  pub not_positive : Error
  pub too_big : Error

abbrev pub planner_errors : PartErrors
planner_errors = record {
  no_column = error_fmt err_planner "Column '%s' is not present in table '%s'";
  bad_length = error_fmt err_planner "Incorrect key part length for column '%s': %s";
  not_positive = error_fmt err_planner "Key part length must be positive for column '%s'";
  too_big = error_fmt err_planner "Key part length is too big for column '%s'";
}

-- The length of an integer that is positive and within the column.
abbrev pub part_length_of : PartErrors → ℕ → DataValue → Result ℕ
part_length_of errors schema_size (value_int w) =
    if w == 0 || leb 2147483648 w
    then refused errors.not_positive
    else if ltb schema_size w
    then refused errors.too_big
    else done w
part_length_of errors schema_size value_null = undefined
part_length_of errors schema_size (value_string s) = undefined
part_length_of errors schema_size (value_binary b) = undefined
part_length_of errors schema_size (value_float w) = undefined

unfoldable pub key_part_length : PartErrors → IndexKeyPart → ℕ → Result ℕ
unfolding convert_int
key_part_length errors part schema_size =
    if part.has_key_len
    then and_then (converted errors.bad_length (convert_int part.key_len))
        (part_length_of errors schema_size)
    else done schema_size

-- The column at its index; `table_column_pos` gives no other.
abbrev pub column_at : List Column → ℕ → Result Column
column_at [] i = undefined
column_at (c ∷ cs) zero = done c
column_at (c ∷ cs) (suc i) = column_at cs i

-- One part of a key, in the loops over the parts here and in src/index/index_io.c.
unfoldable pub plan_part : PartErrors → TableSchema → IndexKeyPart → Result IndexPart
unfolding table_column_pos key_part_length sv_to_cstr
plan_part errors schema part =
    let column_name = sv_to_cstr part.column 32 in
    and_then (found errors.no_column (table_column_pos schema column_name)) (λ pos.
      and_then (column_at schema.columns pos) (λ c.
        and_then (key_part_length errors part c.resolved_type.byte_len) (λ len.
          let type_info = c.resolved_type.type_info in
          done (record {
            column = copy_string 32 column_name;
            column_pos = pos;
            part_len = len;
            part_type = type_info.value_type;
            part_compare = type_info.comparator;
          }))))

unfoldable pub plan_parts : TableSchema → List IndexKeyPart → Result (List IndexPart)
unfolding plan_part
plan_parts schema [] = done []
plan_parts schema (k ∷ ks) =
    and_then (plan_part planner_errors schema k)
      (λ p. and_then (plan_parts schema ks) (λ ps. done (p ∷ ps)))

-- The sum of the lengths, as it grows in 16 bits.
abbrev pub key_size_of : ℕ → List IndexPart → ℕ
key_size_of size [] = size
key_size_of size (p ∷ ps) = key_size_of ((size + p.part_len) % 65536) ps

-- The read of a pointer that may be null.
abbrev pub present {ℓ} : {A : Type ℓ} → Option A → Result A
present none = undefined
present (some a) = done a

module _ {D : Type 0} (registry : List (IndexVTable D)) where
  -- Without a type, the index has the default one, which is not there if it is not registered.
  unfoldable pub planned_vtable : StrView → Result (IndexVTable D)
  unfolding index_vtable_by_name index_vtable sv_to_cstr
  planned_vtable type =
      if ltb 0 (type.len % 256)
      then found (error_fmt err_planner "Unknown index type: '%s'")
          (index_vtable_by_name registry (sv_to_cstr type 17))
      else present (index_vtable registry index_btree)

  unfoldable pub checked_vtable : CreateIndexStmt → Result (IndexVTable D)
  unfolding planned_vtable
  checked_vtable stmt = and_then (planned_vtable stmt.type) (λ vt.
      if not stmt.is_unique && not vt.accepts_non_unique
      then refused (error_fmt err_planner "Index type '%s' must be declared unique")
      else done vt)

  -- The definition on a table that is there. The number of parts is a byte.
  unfoldable pub planned_index : TableMeta → CreateIndexStmt → Result IndexDefinition
  unfolding get_index_def checked_vtable plan_parts sv_to_cstr
  planned_index t stmt =
      let index_name = sv_to_cstr stmt.name 32 in
      if leb 8 (length t.index_meta)
      then refused (error_fmt err_planner "Table '%s' already has %d indexes (max %d)")
      else unless_found (error_fmt err_index "Index '%s' already exists on table '%s'")
          (get_index_def t.index_meta index_name)
          (and_then (checked_vtable stmt) (λ vt.
            and_then (plan_parts t.schema (take (length stmt.key_parts % 256) stmt.key_parts))
              (λ parts. done (record {
                name = copy_string 32 index_name;
                type = vt.type;
                node_size = vt.default_node_size;
                key_size = key_size_of 0 parts;
                is_unique = stmt.is_unique;
                parts = parts;
              }))))

  unfoldable pub plan_create_index :
      Database → CreateIndexStmt → Result (TableMeta × IndexDefinition)
  unfolding planned_table planned_index
  plan_create_index db stmt =
      and_then (planned_table db stmt.table)
        (λ t. and_then (planned_index t stmt) (λ d. done (t, d)))

-- `get_index_def`, with the distance of its answer from the first definition.
unfoldable pub index_pos_in : List IndexDefinition → List ℕ → Option ℕ
unfolding strcmp
index_pos_in [] name = none
index_pos_in (d ∷ ds) name =
    let rest = index_pos_in ds name in if is_eq (strcmp d.name name) then some 0 else next_pos rest

-- The table, the position of the index, and its name.
unfoldable pub plan_drop_index : Database → DropIndexStmt → Result (TableMeta × (ℕ × List ℕ))
unfolding planned_table index_pos_in sv_to_cstr
plan_drop_index db stmt =
    let index_name = sv_to_cstr stmt.index 32 in
    and_then (planned_table db stmt.table) (λ t.
      and_then
        (found (error_fmt err_planner "Index '%s' is not present in table '%s'")
          (index_pos_in t.index_meta index_name))
        (λ pos. done (t, (pos, copy_string 32 index_name))))
