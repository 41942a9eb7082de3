-- ===== src/Schema/Load/Laws.antt =====
-- What `schema_load_table` of src/schema/schema_io.c gives.
use maxql.Prelude.{ℕ, ◌≤◌, List, true, some, ◌≡◌, length}
use maxql.Core.Error.{error_is_ok}
use maxql.Core.StrView.{sv_from_cstr}
use maxql.Parser.Ast.{SchemaParseResult}
use maxql.Parser.State.{Parser}
use maxql.Parser.Query.{parser_init}
use maxql.Parser.Schema.{parse_schema}
use maxql.Types.Converter.{Strtof}
use maxql.Schema.Table.{TableSchema, IndexDefinition}
use maxql.Database.{copy_string}
use maxql.Index.Registry.{IndexVTable}
use maxql.Schema.Load.Parts.{AreLoaded, AreLoadedIndexes}

-- The table of a file, by the name given: at most 16 columns and at most 8 indexes, as the file says.
pub record IsStored {D : Type 0} (registry : List (IndexVTable D)) (strtof : List ℕ → Strtof)
    (table_name content : List ℕ) (p : TableSchema × List IndexDefinition) : Type 0 where
  pub parsed : SchemaParseResult
  pub behind : Parser
  pub read : parse_schema (parser_init (sv_from_cstr content)) ≡ some (parsed, behind)
  pub no_error : error_is_ok behind.error ≡ true
  pub table_named : p.0.table_name ≡ copy_string 32 table_name
  pub columns : AreLoaded strtof parsed.column_defs p.0.columns
  pub few_columns : length p.0.columns ≤ 16
  pub indexes : AreLoadedIndexes registry p.0 parsed.index_defs p.1
  pub few_indexes : length p.1 ≤ 8
