-- ===== src/Tests/Storage.antt =====
-- Types, rows and data files, at a table of an int and a varchar(5).
use maxql.Prelude.{ℕ, [], ◌∷◌, ◌++◌, List, some, true, false, ◌≡◌, refl, arith, inl, All}
use maxql.Core.StrView.{codes}
use maxql.Types.Value.{
  DataValue, value_int, value_string, ColumnType, type_int, type_varchar, type_char,
}
use maxql.Types.Mapper.{type_mapping}
use maxql.Types.Mapper.RoundTrip.{Written, serialize-Written}
use maxql.Types.Resolve.{resolve_type, Resolves, resolve_type-Resolves}
use maxql.Schema.Table.{Column, TableSchema}
use maxql.Storage.{StoredRow, storage_insert_row, storage_delete_row, storage_load_row}
use maxql.Storage.Rows.{WrittenRow, serialize_columns-WrittenRow, stored_row, FitsRow}
use maxql.Storage.Slots.{kept, removed, file_bytes}
use maxql.Scan.{scan_table}
use maxql.Scan.Writes.{IsData, storage_insert_row-scan_table}
use maxql.Scan.Deletes.{storage_delete_row-scan_table, storage_load_row-scan_table, remove_offset}

abbrev column : ColumnType → ℕ → Column
column c n = record {
  column_name = codes "c";
  resolved_type = record { type_info = type_mapping c; byte_len = n; resolved_type_name = [] };
  has_default = false;
  default_value = value_int 0;
}

abbrev pub two_columns : TableSchema
two_columns = record {
  table_name = codes "t";
  columns = column type_int 4 ∷ column type_varchar 5 ∷ [];
}

-- Two rows, the first deleted.
abbrev pub two_rows : List ℕ
two_rows = 1 ∷ 10 ∷ 0 ∷ 7 ∷ 0 ∷ 0 ∷ 0 ∷ 2 ∷ 97 ∷ 98 ∷ 0 ∷ 10 ∷ 0 ∷ 8 ∷ 0 ∷ 0 ∷ 0 ∷ 2 ∷ 97 ∷ 98 ∷ []

abbrev pub nine : List DataValue
nine = value_int 9 ∷ value_string (99 ∷ []) ∷ []

pub two_rows-IsData : IsData two_rows
unfolding file_bytes
two_rows-IsData = record {
  slots = removed (7 ∷ 0 ∷ 0 ∷ 0 ∷ 2 ∷ 97 ∷ 98 ∷ []) ∷ kept (8 ∷ 0 ∷ 0 ∷ 0 ∷ 2 ∷ 97 ∷ 98 ∷ []) ∷ [];
  whole = refl;
  small = omega arith;
}

abbrev pub row_8 : StoredRow
row_8 = record { row = value_int 8 ∷ value_string (97 ∷ 98 ∷ []) ∷ []; offset = 10 }

pub sees_8 : scan_table two_rows two_columns ≡ some (row_8 ∷ [])
unfolding scan_table storage_load_row type_mapping
sees_8 = refl

pub nine-FitsRow : FitsRow two_columns.columns nine
unfolding type_mapping
nine-FitsRow = (refl, omega arith, (refl, omega arith, tt))

storage_insert_row-scan_table_example :
    (file' : List ℕ) × (offset : ℕ) × (rows : List StoredRow) × (storage_insert_row two_rows nine
        two_columns
      ≡ some (file', offset))
    × IsData file'
    × (scan_table two_rows two_columns ≡ some rows)
    × (scan_table file' two_columns
        ≡ some (rows ++ record { row = stored_row two_columns.columns nine; offset = offset } ∷ []))
storage_insert_row-scan_table_example =
    storage_insert_row-scan_table two_rows two_columns nine two_rows-IsData (omega arith)
      nine-FitsRow

storage_delete_row-scan_table_example :
    IsData (storage_delete_row two_rows 10)
    × (scan_table (storage_delete_row two_rows 10) two_columns
        ≡ some (remove_offset 10 (row_8 ∷ [])))
storage_delete_row-scan_table_example =
    storage_delete_row-scan_table two_rows two_columns (row_8 ∷ []) 10 two_rows-IsData sees_8
      (inl refl)

storage_load_row-scan_table_example :
    (rows : List StoredRow) × (scan_table two_rows two_columns ≡ some rows)
    × All
        (λ (r : StoredRow).
          (next : ℕ) × (storage_load_row two_rows two_columns r.offset ≡ some (some r.row, next)))
        rows
storage_load_row-scan_table_example =
    storage_load_row-scan_table two_rows two_columns two_rows-IsData

serialize_columns-WrittenRow_example : WrittenRow two_columns.columns nine
serialize_columns-WrittenRow_example =
    serialize_columns-WrittenRow two_columns.columns nine nine-FitsRow

serialize-Written_example : Written type_char 4 (value_string (97 ∷ 32 ∷ []))
serialize-Written_example =
    serialize-Written type_char 4 (value_string (97 ∷ 32 ∷ [])) (omega arith)

resolve_type-Resolves_example : Resolves (codes "char") true 8 (resolve_type (codes "char") true 8)
resolve_type-Resolves_example = resolve_type-Resolves (codes "char") true 8
