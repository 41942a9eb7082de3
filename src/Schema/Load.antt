-- ===== src/Schema/Load.antt =====
-- `schema_load_table` of src/schema/schema_io.c and `index_resolve` of src/index/index_io.c: from the text
-- of a schema file to the columns and the indexes of a table.
pub mod Laws
pub mod Parts
use maxql.Prelude.{
  ℕ, zero, suc, List, [], ◌∷◌, Bool, true, false, ◌&&◌, ◌||◌, Option, none, some, leb, ltb, ◌==◌,
  if◌then◌else◌,
}
use maxql.Core.Error.{Error, error_ok, error_is_ok, error_fmt, error_fatal_fmt, err_storage}
use maxql.Core.Result.{Result, done, refused, undefined, and_then}
use maxql.Core.StrView.{strlen, until_nul, sv_to_cstr, sv_from_cstr}
use maxql.Parser.Ast.{ColumnDef, IndexKeyPart, IndexDef, SchemaParseResult}
use maxql.Parser.State.{Parser}
use maxql.Parser.Query.{parser_init}
use maxql.Parser.Schema.{parse_schema}
use maxql.Types.Converter.{Strtof}
use maxql.Schema.Table.{Column, TableSchema, IndexPart, IndexDefinition}
use maxql.Database.{copy_string}
use maxql.Index.Registry.{IndexVTable, index_vtable_by_name}
use maxql.Engine.Checks.{found, raw_value}
use maxql.Engine.ColumnTypes.{TypeErrors, column_type}
use maxql.Engine.DdlPlanner.{plain_column, default_column}
use maxql.Engine.IndexPlanner.{PartErrors, plan_part, key_size_of}

abbrev all_valid : List ℕ → Bool
all_valid [] = true
all_valid (c ∷ cs) = ((leb 97 c && leb c 122) || c == 95) && all_valid cs

unfoldable pub schema_validate_column_name : List ℕ → Error
schema_validate_column_name column_name =
    if ltb 31 (strlen column_name)
    then error_fmt err_storage "Column name too long"
    else if strlen column_name == 0
    then error_fmt err_storage "Column name is empty"
    else if all_valid (until_nul column_name)
    then error_ok
    else error_fmt err_storage "Invalid column name"

-- The return on an error.
abbrev pub unless_error {ℓ} : {A : Type ℓ} → Error → Result A → Result A
unless_error e rest = if error_is_ok e then rest else refused e

abbrev pub stored_errors : TypeErrors
stored_errors = record {
  bad_length = error_fmt err_storage "Invalid type length for '%s': %s";
  out_of_range = error_fmt err_storage "Type length out of range for '%s'";
  unresolved = error_fmt err_storage "Resolving type for '%s.%s': %s";
}

-- The errors of a part of a key, where one range is checked.
abbrev pub stored_part_errors : PartErrors
stored_part_errors = record {
  no_column = error_fmt err_storage "Index column '%s' not found in schema";
  bad_length = error_fmt err_storage "Invalid key part length for '%s': %s";
  not_positive = error_fmt err_storage "Key part length out of range for '%s'";
  too_big = error_fmt err_storage "Key part length out of range for '%s'";
}

abbrev pub default_error : Error
default_error = error_fmt err_storage "Invalid default for '%s': %s"

module _ (strtof : List ℕ → Strtof) where
  -- The default of a column is converted, but not checked against the column's type.
  unfoldable pub load_column : ColumnDef → Result Column
  unfolding schema_validate_column_name column_type raw_value plain_column default_column sv_to_cstr
  load_column cd = unless_error (schema_validate_column_name (sv_to_cstr cd.column 32)) (
      and_then (column_type stored_errors cd.type) (λ rt.
        if cd.has_default
        then and_then (raw_value strtof default_error cd.default_value)
            (λ v. done (default_column cd rt v))
        else done (plain_column cd rt)))

  -- The loop over the definitions, with the room that is left in the array.
  unfoldable pub load_columns : ℕ → List ColumnDef → Result (List Column)
  unfolding load_column
  load_columns room [] = done []
  load_columns zero (cd ∷ cds) = refused (error_fmt err_storage "Too many columns in table")
  load_columns (suc room) (cd ∷ cds) =
      and_then (load_column cd) (λ c. and_then (load_columns room cds) (λ cs. done (c ∷ cs)))

-- The loop over the parts of an index, with the room that is left in the arrays. `resolve_index_part` finds
-- the column that `table_column_pos` has found.
unfoldable pub resolve_parts : ℕ → TableSchema → List IndexKeyPart → Result (List IndexPart)
unfolding plan_part
resolve_parts room schema [] = done []
resolve_parts zero schema (k ∷ ks) =
    refused (error_fmt err_storage "Too many key parts in index '%s'")
resolve_parts (suc room) schema (k ∷ ks) =
    and_then (plan_part stored_part_errors schema k)
      (λ p. and_then (resolve_parts room schema ks) (λ ps. done (p ∷ ps)))

module _ {D : Type 0} (registry : List (IndexVTable D)) where
  -- The body of the loop over the definitions of indexes.
  unfoldable pub resolve_index : TableSchema → IndexDef → Result IndexDefinition
  unfolding index_vtable_by_name resolve_parts sv_to_cstr
  resolve_index schema def =
      and_then
        (found (error_fmt err_storage "Unknown index type '%s'")
          (index_vtable_by_name registry (sv_to_cstr def.type 17)))
        (λ vt. and_then (resolve_parts 4 schema def.key_parts) (λ parts. done (record {
          name = copy_string 32 (sv_to_cstr def.name 32);
          type = vt.type;
          node_size = vt.default_node_size;
          key_size = key_size_of 0 parts;
          is_unique = def.is_unique;
          parts = parts;
        })))

  -- The loop over the definitions, with the room that is left in the array.
  unfoldable pub index_resolve : ℕ → TableSchema → List IndexDef → Result (List IndexDefinition)
  unfolding resolve_index
  index_resolve room schema [] = done []
  index_resolve zero schema (def ∷ defs) = refused (error_fmt err_storage "Too many indexes")
  index_resolve (suc room) schema (def ∷ defs) =
      and_then (resolve_index schema def)
        (λ d. and_then (index_resolve room schema defs) (λ ds. done (d ∷ ds)))

  module _ (strtof : List ℕ → Strtof) where
    -- What is made of the definitions in the file.
    unfoldable pub load_parsed :
        List ℕ → SchemaParseResult → Result (TableSchema × List IndexDefinition)
    unfolding load_columns index_resolve
    load_parsed table_name parsed = and_then (load_columns strtof 16 parsed.column_defs) (λ columns.
        let schema : TableSchema = record {
          table_name = copy_string 32 table_name;
          columns = columns;
        } in
        and_then (index_resolve 8 schema parsed.index_defs) (λ ds. done (schema, ds)))

    -- A parser that runs out of fuel has no counterpart in the program.
    abbrev pub after_parse :
        List ℕ → Option (SchemaParseResult × Parser) → Result (TableSchema × List IndexDefinition)
    after_parse table_name none = undefined
    after_parse table_name (some (parsed, parser)) =
        unless_error parser.error (load_parsed table_name parsed)

    -- The text of the schema file, or none where it cannot be opened.
    unfoldable pub schema_load_table :
        List ℕ → Option (List ℕ) → Result (TableSchema × List IndexDefinition)
    unfolding load_parsed parse_schema parser_init sv_from_cstr
    schema_load_table table_name none =
        refused (error_fatal_fmt err_storage "Schema file do not exists")
    schema_load_table table_name (some content) =
        after_parse table_name (parse_schema (parser_init (sv_from_cstr content)))
