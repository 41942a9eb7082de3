-- ===== src/Tests/Analysis.antt =====
-- Literals, the catalogue and the resolution of statements, at a table of an int with a default and a
-- varchar(5).
use maxql.Prelude.{
  suc, ◌-◌, ◌%◌, ltb, if◌then◌else◌, ℕ, [], ◌∷◌, ◌++◌, List, true, false, some, ◌≡◌, ◌<◌, refl,
  arith, All, length, get_elem?,
}
use maxql.Core.Result.{Result, done, Holds}
use maxql.Core.StrView.{StrView, codes}
use maxql.Parser.Ast.{
  lit_number, lit_string, op_equals, SelectStmt, InsertStmt, CreateTableStmt, CreateIndexStmt,
  DropIndexStmt,
}
use maxql.Types.Value.{type_int, type_varchar, DataValue, value_int, value_string, value_binary}
use maxql.Types.Mapper.{type_mapping}
use maxql.Types.Converter.{
  Strtof, strtoll, convert_ok, convert_out_of_range, convert_int, convert_hex,
}
use maxql.Types.Converter.RoundTrip.{
  convert_int-print_int, convert_int-print_number, convert_hex-print_bytes,
}
use maxql.Types.Formatter.{print_int, print_number, last_digits, print_bytes}
use maxql.Schema.Table.{Column, TableSchema, TableMeta, IndexDefinition, index_btree}
use maxql.Schema.Columns.{IsColumn}
use maxql.Storage.Rows.{FitsRow}
use maxql.Database.{Database, database_save, database_load}
use maxql.Database.RoundTrip.{database_save-database_load}
use maxql.Btree.Handle.{Btree, builtin_index}
use maxql.Index.Registry.{IndexVTable, index_vtable}
use maxql.Engine.Checks.{raw_value}
use maxql.Engine.DmlAnalyzer.{named_table, analyze_select, analyze_insert}
use maxql.Engine.DmlAnalyzer.Insert.{IsAnalyzer, IsMeta, analyze_insert-FitsRow}
use maxql.Engine.DmlAnalyzer.Values.{IsGiven, last_assignment, analyze_insert-IsGiven}
use maxql.Engine.DmlAnalyzer.Select.{Shows, analyze_select-Shows}
use maxql.Engine.DdlPlanner.{plan_create_table}
use maxql.Engine.DdlPlanner.Columns.{IsPlanner, IsNew, plan_create_table-IsNew}
use maxql.Engine.IndexPlanner.{plan_create_index, plan_drop_index}
use maxql.Engine.IndexPlanner.Parts.{IsRefusal}
use maxql.Engine.IndexPlanner.Create.{IsNewIndex, plan_create_index-IsNewIndex}
use maxql.Engine.IndexPlanner.Drop.{IsDrop, plan_drop_index-IsDrop}

abbrev view : List ℕ → StrView
view s = record { ptr = s; len = length s }

-- A `strtof` that reads nothing.
abbrev no_float : List ℕ → Strtof
no_float s = record { value = 0; rest = s; out_of_range = false }

no_float-single : (s : List ℕ) → (no_float s).value < 4294967296
no_float-single s = omega arith

abbrev column_a : Column
column_a = record {
  column_name = codes "a";
  resolved_type = record {
    type_info = type_mapping type_int;
    byte_len = 4;
    resolved_type_name = codes "int";
  };
  has_default = true;
  default_value = value_int 7;
}

abbrev column_b : Column
column_b = record {
  column_name = codes "b";
  resolved_type = record {
    type_info = type_mapping type_varchar;
    byte_len = 5;
    resolved_type_name = codes "varchar(5)";
  };
  has_default = false;
  default_value = value_int 0;
}

abbrev index_i : IndexDefinition
index_i = record {
  name = codes "i";
  type = index_btree;
  node_size = 80;
  key_size = 4;
  is_unique = true;
  parts = [];
}

abbrev table_t : TableMeta
table_t = record {
  name = codes "t";
  schema = record { table_name = codes "t"; columns = column_a ∷ column_b ∷ [] };
  index_meta = index_i ∷ [];
}

abbrev db : Database
db = record { tables = table_t ∷ []; catalog = [] }

columns-IsColumn : All IsColumn (column_a ∷ column_b ∷ [])
unfolding type_mapping
columns-IsColumn = (
  record { typed = record { entry = refl; width = refl }; default = λ _. (refl, omega arith) },
  (
    record {
      typed = record { entry = refl; width = (omega arith, omega arith) };
      default = λ h. cc;
    },
    tt,
  ),
)

db-IsMeta : All IsMeta db.tables
db-IsMeta = (columns-IsColumn, tt)

-- insert t (b = "xy")
abbrev insert_b : InsertStmt
insert_b = record {
  table = view (codes "t");
  assignments =
      record {
        column = view (codes "b");
        value = record { type = lit_string; value = view (codes "xy") };
      }
      ∷ [];
}

insert_b_run :
    analyze_insert no_float db insert_b
    ≡ done (table_t, value_int 7 ∷ value_string (codes "xy") ∷ [])
unfolding analyze_insert type_mapping named_table raw_value
insert_b_run = refl

analyze_insert-FitsRow_example :
    Holds IsAnalyzer
      (λ (p : TableMeta × List DataValue). IsMeta p.0 × FitsRow p.0.schema.columns p.1)
      (analyze_insert no_float db insert_b)
analyze_insert-FitsRow_example =
    analyze_insert-FitsRow no_float no_float-single db insert_b db-IsMeta (omega arith)

analyze_insert-IsGiven_example :
    (v : DataValue) × (get_elem? (value_int 7 ∷ value_string (codes "xy") ∷ []) 1 ≡ some v)
    × IsGiven no_float (last_assignment table_t.schema.columns 1 insert_b.assignments) column_b v
analyze_insert-IsGiven_example =
    analyze_insert-IsGiven no_float db insert_b table_t
      (value_int 7 ∷ value_string (codes "xy") ∷ []) insert_b_run 1 column_b refl

-- select from t where a = 7
abbrev select_7 : SelectStmt
select_7 = record {
  columns = [];
  table = view (codes "t");
  ignore_index = false;
  where_list =
      record {
        column = view (codes "a");
        op = op_equals;
        value = record { type = lit_number; value = view (codes "7") };
      }
      ∷ [];
}

analyze_select-Shows_example :
    Holds IsAnalyzer (Shows Btree select_7) (analyze_select no_float db select_7)
analyze_select-Shows_example =
    analyze_select-Shows Btree no_float no_float-single db select_7 db-IsMeta
      (record { text = omega arith; known = λ h. cc }, tt)

-- 2147483648 is one more than the largest integer.
convert_int-print_number_example :
    (convert_int
        (record { ptr = print_number 2147483648 ++ []; len = length (print_number 2147483648) })
      ≡ (if ltb 2147483647 2147483648
          then convert_out_of_range
          else convert_ok (value_int 2147483648)))
    × (convert_int (record {
      ptr = 45 ∷ print_number 2147483648 ++ [];
      len = suc (length (print_number 2147483648));
    })
        ≡ (if ltb 2147483648 2147483648
            then convert_out_of_range
            else convert_ok (value_int ((4294967296 - 2147483648) % 4294967296))))
convert_int-print_number_example = convert_int-print_number 2147483648 [] (omega arith)

convert_int-print_int_example :
    convert_int
      (record { ptr = print_int 4294967254 ++ codes ")"; len = length (print_int 4294967254) })
    ≡ convert_ok (value_int 4294967254)
convert_int-print_int_example = convert_int-print_int 4294967254 (codes ")") (omega arith)

minus_42 : print_int 4294967254 ≡ codes "-42"
unfolding print_int print_number last_digits
minus_42 = refl

convert_hex-print_bytes_example :
    convert_hex (record {
      ptr = print_bytes (1 ∷ 171 ∷ []) ++ codes ",";
      len = length (print_bytes (1 ∷ 171 ∷ []));
    })
    ≡ convert_ok (value_binary (1 ∷ 171 ∷ []))
convert_hex-print_bytes_example =
    convert_hex-print_bytes (1 ∷ 171 ∷ []) (codes ",") (omega arith, (omega arith, tt))
      (omega arith)

odd_digits : convert_hex (view (codes "1ab")) ≡ convert_ok (value_binary (1 ∷ 171 ∷ []))
unfolding convert_hex
odd_digits = refl

-- The literal of 19 digits is cut to 15 bytes.
cut_literal : convert_int (view (codes "0000000000000000123")) ≡ convert_ok (value_int 0)
unfolding convert_int strtoll
cut_literal = refl

-- The schema file of the table.
abbrev loader : List ℕ → Result (TableSchema × List IndexDefinition)
loader name = done (table_t.schema, table_t.index_meta)

database_save-database_load_example :
    (text : List ℕ) × (database_save true db ≡ done (record db { catalog = text }))
    × (database_load loader (some text) ≡ done (record db { catalog = text }))
database_save-database_load_example =
    database_save-database_load loader db (omega arith)
      (record { some_character = omega arith; short = omega arith; visible = omega arith }, tt)
      (omega arith) (refl, tt)

-- create table u (a int default 3)
abbrev create_u : CreateTableStmt
create_u = record {
  table = view (codes "u");
  column_defs =
      record {
        column = view (codes "a");
        type = record { name = view (codes "int"); len = view []; has_len = false };
        has_default = true;
        default_value = record { type = lit_number; value = view (codes "3") };
      }
      ∷ [];
}

plan_create_table-IsNew_example :
    Holds IsPlanner (IsNew no_float db create_u) (plan_create_table no_float db create_u)
plan_create_table-IsNew_example =
    plan_create_table-IsNew no_float no_float-single db create_u (omega arith, tt)

-- create unique index j on t (b(2))
abbrev create_j : CreateIndexStmt
create_j = record {
  is_unique = true;
  name = view (codes "j");
  type = view [];
  table = view (codes "t");
  key_parts =
      record { column = view (codes "b"); key_len = view (codes "2"); has_key_len = true } ∷ [];
}

abbrev registry : List (IndexVTable Btree)
registry = builtin_index ∷ []

default_there : index_vtable registry index_btree ≡ some builtin_index
unfolding index_vtable builtin_index
default_there = refl

plan_create_index-IsNewIndex_example :
    Holds IsRefusal (IsNewIndex registry create_j) (plan_create_index registry db create_j)
plan_create_index-IsNewIndex_example =
    plan_create_index-IsNewIndex registry default_there db create_j db-IsMeta (omega arith)

abbrev drop_i : DropIndexStmt
drop_i = record { table = view (codes "t"); index = view (codes "i") }

plan_drop_index-IsDrop_example : Holds IsPlanner (IsDrop db drop_i) (plan_drop_index db drop_i)
plan_drop_index-IsDrop_example = plan_drop_index-IsDrop db drop_i

abbrev schema_text : List ℕ
schema_text = codes "table (columns (a int,),indexes (),)"
