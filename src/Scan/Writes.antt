-- ===== src/Scan/Writes.antt =====
-- What a table scan sees after src/storage/storage.c inserts a row: a data file refines a list of rows
-- with their offsets.
use maxql.Prelude.{
  ℕ, ◌+◌, ◌≤◌, List, [], ◌∷◌, ◌++◌, some, ◌≡◌, refl, sym, ap, ◌∙◌, arith, length, All, All-append,
  append_assoc, append-nil, length-append, le→ltb,
}
use maxql.Types.Value.{DataValue}
use maxql.Schema.Table.{TableSchema}
use maxql.Storage.{
  StoredRow, deserialize_columns, header_size, max_row_size, serialize_row_data,
  deserialize_row_data, storage_insert_row,
}
use maxql.Storage.Rows.{FitsRow, stored_row, WrittenRow, serialize_columns-WrittenRow}
use maxql.Storage.Slots.{Slot, kept, removed, IsSlot, slot_bytes, file_bytes, live_rows}
use maxql.Scan.{scan_table}
use maxql.Scan.Slots.{scan_table-live_rows}

-- A data file of the program: whole rows, each within the buffer.
pub record IsData (file : List ℕ) : Type 0 where
  pub slots : List Slot
  pub whole : file ≡ file_bytes slots
  pub small : All IsSlot slots

file_bytes-append : (ss ts : List Slot) → file_bytes (ss ++ ts) ≡ file_bytes ss ++ file_bytes ts
unfolding file_bytes
file_bytes-append [] ts = refl
file_bytes-append (s ∷ ss) ts =
    ap (λ t. slot_bytes s ++ t) (file_bytes-append ss ts)
    ∙ sym (append_assoc (slot_bytes s) (file_bytes ss) (file_bytes ts))

-- A row at the end of the slots is seen last.
live_rows-append_kept :
    (schema : TableSchema) (ss : List Slot) (pos at_end : ℕ) (bs : List ℕ)
    → at_end ≡ pos + length (file_bytes ss)
    → live_rows schema pos (ss ++ kept bs ∷ [])
      ≡ live_rows schema pos ss
        ++ record { row = deserialize_row_data bs schema; offset = at_end } ∷ []
unfolding live_rows file_bytes
live_rows-append_kept schema [] pos at_end bs h =
    ap (λ t. record { row = deserialize_row_data bs schema; offset = t } ∷ []) (omega arith)
live_rows-append_kept schema (removed cs ∷ ss) pos at_end bs h =
    live_rows-append_kept schema ss (pos + (header_size + length cs)) at_end bs
      (omega (arith, length-append cs (file_bytes ss)))
live_rows-append_kept schema (kept cs ∷ ss) pos at_end bs h =
    ap (λ t. record { row = deserialize_row_data cs schema; offset = pos } ∷ t)
      (live_rows-append_kept schema ss (pos + (header_size + length cs)) at_end bs
        (omega (arith, length-append cs (file_bytes ss))))

insert_written :
    (file : List ℕ) (schema : TableSchema) (values : List DataValue) (bs : List ℕ)
    → serialize_row_data values schema ≡ some bs
    → header_size + length bs ≤ max_row_size
    → storage_insert_row file values schema ≡ some (file ++ slot_bytes (kept bs), length file)
unfolding storage_insert_row
insert_written file schema values bs made fit =
    rw (storage_insert_row, made, le→ltb max_row_size (header_size + length bs) fit) refl

-- The file with one more slot.
with_slot :
    {file : List ℕ} (d : IsData file) (bs : List ℕ)
    → header_size + length bs ≤ max_row_size
    → IsData (file ++ slot_bytes (kept bs))
unfolding file_bytes
with_slot {file} d bs fit = record {
  slots = d.slots ++ kept bs ∷ [];
  whole =
      ap (λ t. t ++ slot_bytes (kept bs)) d.whole
      ∙ ap (λ t. file_bytes d.slots ++ t) (sym (append-nil (slot_bytes (kept bs))))
      ∙ sym (file_bytes-append d.slots (kept bs ∷ []));
  small = All-append IsSlot d.slots (kept bs ∷ []) d.small (fit, tt);
}

pub scan_data :
    {file : List ℕ} (schema : TableSchema) (d : IsData file)
    → scan_table file schema ≡ some (live_rows schema 0 d.slots)
scan_data schema d =
    ap (λ t. scan_table t schema) d.whole ∙ scan_table-live_rows schema d.slots d.small

scan_with_slot :
    {file : List ℕ} (schema : TableSchema) (d : IsData file) (bs : List ℕ)
    → header_size + length bs ≤ max_row_size
    → scan_table (file ++ slot_bytes (kept bs)) schema
      ≡ some (
          live_rows schema 0 d.slots
          ++ record { row = deserialize_row_data bs schema; offset = length file } ∷ [])
unfolding with_slot
scan_with_slot {file} schema d bs fit =
    let e = with_slot d bs fit in
    ap (λ t. scan_table t schema) e.whole
    ∙ scan_table-live_rows schema (d.slots ++ kept bs ∷ [])
        (All-append IsSlot d.slots (kept bs ∷ []) d.small (fit, tt))
    ∙ ap some
        (live_rows-append_kept schema d.slots 0 (length file) bs (omega (arith, ap length d.whole)))

read_back :
    (schema : TableSchema) (values : List DataValue) (w : WrittenRow schema.columns values)
    → (serialize_row_data values schema ≡ some w.bytes)
      × (deserialize_row_data w.bytes schema ≡ stored_row schema.columns values)
unfolding serialize_row_data deserialize_row_data
read_back schema values w =
    (w.made, ap (λ t. deserialize_columns t schema.columns) (sym (append-nil w.bytes)) ∙ w.back [])

-- Insertion of a row that fits the columns of a table of at most 16 appends a row to the file; a scan
-- sees what it saw before, and last the new row as the columns store it, at the offset returned.
pub storage_insert_row-scan_table :
    (file : List ℕ) (schema : TableSchema) (values : List DataValue)
    → IsData file
    → length schema.columns ≤ 16
    → FitsRow schema.columns values
    → (file' : List ℕ) × (offset : ℕ) × (rows : List StoredRow) × (storage_insert_row file values
          schema
        ≡ some (file', offset))
      × IsData file'
      × (scan_table file schema ≡ some rows)
      × (scan_table file' schema
          ≡ some (rows ++ record { row = stored_row schema.columns values; offset = offset } ∷ []))
storage_insert_row-scan_table file schema values d few fits =
    let w = serialize_columns-WrittenRow schema.columns values fits in
    let (made, back) = read_back schema values w in
    let fit : header_size + length w.bytes ≤ max_row_size = omega (arith, w.short) in
    (
      file ++ slot_bytes (kept w.bytes),
      length file,
      live_rows schema 0 d.slots,
      insert_written file schema values w.bytes made fit,
      with_slot d w.bytes fit,
      scan_data schema d,
      scan_with_slot schema d w.bytes fit
          ∙ ap
              (λ t.
                some (live_rows schema 0 d.slots ++ record { row = t; offset = length file } ∷ []))
              back,
    )
