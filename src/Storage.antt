-- ===== src/Storage.antt =====
-- src/storage/storage.c, src/serializer/serializer.c and src/scan/table_scan.c: the rows in a table's
-- data file. A file is its bytes with the position of its reader; a read of bytes that are not there
-- gives zeros, and what a row would write or read beyond its buffer of `max_row_size` gives `none`.
pub mod Rows
pub mod Slots
use maxql.Prelude.{
  ℕ, zero, suc, ◌+◌, ◌-◌, ◌*◌, ◌/◌, ◌%◌, ◌≤◌, List, [], ◌∷◌, ◌++◌, Bool, true, false, Option, none,
  some, min, length, get_or, take, drop, replicate, ltb, ◌==◌, if◌then◌else◌,
}
use maxql.Core.StrView.{take_bytes}
use maxql.Types.Value.{DataValue, value_null}
use maxql.Schema.Table.{Column, TableSchema}

abbrev pub header_size : ℕ
header_size = 3

abbrev pub max_row_size : ℕ
max_row_size = 4099

abbrev pub append_bytes : Option (List ℕ) → Option (List ℕ) → Option (List ℕ)
append_bytes (some a) (some b) = some (a ++ b)
append_bytes _ _ = none

-- The loop over the columns, with their values.
unfoldable pub serialize_columns : List Column → List DataValue → Option (List ℕ)
serialize_columns [] values = some []
serialize_columns (c ∷ cs) [] = none
serialize_columns (c ∷ cs) (v ∷ vs) =
    append_bytes (c.resolved_type.type_info.serialize v c.resolved_type.byte_len)
      (serialize_columns cs vs)

unfoldable pub serialize_row_data : List DataValue → TableSchema → Option (List ℕ)
unfolding serialize_columns
serialize_row_data values schema = serialize_columns schema.columns values

unfoldable pub deserialize_columns : List ℕ → List Column → List DataValue
deserialize_columns buf [] = []
deserialize_columns buf (c ∷ cs) =
    let (v, size) = c.resolved_type.type_info.deserialize buf c.resolved_type.byte_len in
    v ∷ deserialize_columns (drop size buf) cs

unfoldable pub deserialize_row_data : List ℕ → TableSchema → List DataValue
unfolding deserialize_columns
deserialize_row_data buf schema = deserialize_columns buf schema.columns

-- `uint16_t` in memory.
abbrev pub half_bytes : ℕ → List ℕ
half_bytes n = (n % 256) ∷ (n / 256 % 256) ∷ []

-- The bytes of a row: its flags, its size and its data.
abbrev pub row_bytes : ℕ → List ℕ → List ℕ
row_bytes flags bytes =
    let size = (header_size + length bytes) % 65536 in flags ∷ half_bytes size ++ bytes

-- The file with the row at its end, and the row's offset.
unfoldable pub storage_insert_row : List ℕ → List DataValue → TableSchema → Option (List ℕ × ℕ)
unfolding serialize_row_data
storage_insert_row file values schema = elim (serialize_row_data values schema) [
  | none ↦ none
  | some bytes ↦
      if ltb max_row_size (header_size + length bytes)
      then none
      else some (file ++ row_bytes 0 bytes, length file)
]

-- A byte is written at an offset; a gap before it is filled with zeros.
abbrev pub write_byte : List ℕ → ℕ → ℕ → List ℕ
write_byte file offset b =
    take offset file ++ (replicate (offset - length file) 0 ++ b ∷ drop (suc offset) file)

unfoldable pub storage_delete_row : List ℕ → ℕ → List ℕ
storage_delete_row file offset = write_byte file offset 1

unfoldable pub storage_delete_rows : List ℕ → List ℕ → List ℕ
unfolding storage_delete_row
storage_delete_rows file [] = file
storage_delete_rows file (o ∷ os) = storage_delete_rows (storage_delete_row file o) os

-- A row by its header and the bytes behind it: its values or none where it is deleted, and the
-- position afterwards. A row that the file does not hold whole leaves the buffer unset in part.
unfoldable pub read_row : List ℕ → List ℕ → TableSchema → ℕ → Option (Option (List DataValue) × ℕ)
unfolding deserialize_row_data
read_row header behind schema pos =
    let row_size = (get_or header 1 0 + 256 * get_or header 2 0 + 65536 - header_size) % 65536 in
    let next = pos + header_size + row_size in
    if get_or header 0 0 % 2 == 1
    then some (none, next)
    else if ltb max_row_size row_size
    then none
    else if ltb (length behind) row_size
    then none
    else some (some (deserialize_row_data (take_bytes row_size behind) schema), next)

unfoldable pub storage_read_current_row :
    List ℕ → TableSchema → ℕ → Option (Option (List DataValue) × ℕ)
unfolding read_row
storage_read_current_row file schema pos =
    if ltb (length (drop pos file)) header_size
    then none
    else read_row (take_bytes header_size (drop pos file)) (drop (pos + header_size) file) schema
        pos

unfoldable pub storage_load_row : List ℕ → TableSchema → ℕ → Option (Option (List DataValue) × ℕ)
unfolding storage_read_current_row
storage_load_row file schema offset = storage_read_current_row file schema offset

pub record StoredRow : Type 0 where
  pub row : List DataValue
  pub offset : ℕ

-- `table_scan_next`: the next row from a position on, or none at the end of the file; fuel for the
-- rows that are passed over.
unfoldable pub table_scan_next : ℕ → List ℕ → TableSchema → ℕ → Option (Option StoredRow × ℕ)
table_scan_next zero file schema pos = none
table_scan_next (suc fuel) file schema pos = elim (ltb pos (length file)) [
  | false ↦ some (none, pos)
  | true ↦ elim (storage_read_current_row file schema pos) [
    | none ↦ none
    | some (row, next) ↦ elim row [
      | some values ↦ some (some (record { row = values; offset = pos }), next)
      | none ↦ table_scan_next fuel file schema next
    ]
  ]
]
