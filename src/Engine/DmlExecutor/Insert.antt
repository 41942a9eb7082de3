-- ===== src/Engine/DmlExecutor/Insert.antt =====
-- What `execute_insert` of src/engine/dml/executor.c does to a table and its indexes.
use maxql.Prelude.{
  ℕ, ◌≤◌, List, [], ◌∷◌, ◌++◌, true, false, Option, none, some, ◌≡◌, ◌⊎◌, inl, inr, refl, sym, ◌∙◌,
  All, length,
}
use maxql.Core.Error.{Error, error_ok, error_is_ok}
use maxql.Btree.Order.{KeyComparator}
use maxql.Types.Value.{DataValue}
use maxql.Schema.Table.{TableSchema, IndexDefinition}
use maxql.Storage.{StoredRow, storage_insert_row}
use maxql.Storage.Rows.{FitsRow, stored_row}
use maxql.Scan.{scan_table}
use maxql.Scan.Writes.{IsData, storage_insert_row-scan_table}
use maxql.Index.Registry.{IndexVTable}
use maxql.Index.Mirror.{Mirrors}
use maxql.Index.Set.{IndexSet, index_set_load, index_set_insert, index_set_has_duplicate}
use maxql.Index.Set.Mirrors.{
  KeepsKey, Clashes, Tells, index_set_has_duplicate-Tells, index_set_load-Mirrors,
  index_set_insert-Mirrors,
}
use maxql.Engine.DmlExecutor.{Table, execute_insert, duplicate_error}

module _ {D : Type 0} (registry : List (IndexVTable D)) (comparator : D → KeyComparator)
    (IsValid : D → Type 0) (schema : TableSchema) where
  -- A table with its rows: whole rows in the file, which a scan sees, and unique indexes that answer
  -- as the rows do.
  pub record IsTable (t : Table D) (rows : List StoredRow) : Type 0 where
    pub whole : IsData t.file
    pub seen : scan_table t.file schema ≡ some rows
    pub mirrored : All (λ i. Mirrors registry comparator IsValid i rows) t.indexes
    pub unique : All (λ i. i.index_def.is_unique ≡ true) t.indexes

  -- The new row is last, or the statement is refused since an index has a row with its key.
  abbrev pub Inserted : Table D → List StoredRow → List DataValue → Error → Table D → Type 0
  Inserted t rows values error t' =
      ((error_is_ok error ≡ true)
        × (offset : ℕ) × IsTable t'
            (rows ++ record { row = stored_row schema.columns values; offset = offset } ∷ []))
      ⊎ ((error_is_ok error ≡ false)
          × (t' ≡ t)
          × Clashes registry comparator IsValid t.indexes rows values)

  insert_refused :
      (t : Table D) (values : List DataValue) (index_def : IndexDefinition)
      → index_set_load t.indexes ≡ some t.indexes
      → index_set_has_duplicate registry t.indexes values ≡ some (some index_def)
      → execute_insert registry schema t values ≡ some (duplicate_error, t)
  unfolding execute_insert
  insert_refused t values index_def loaded told = rw (execute_insert, loaded, told) refl

  insert_made :
      (t : Table D) (values : List DataValue) {file : List ℕ} {offset : ℕ} {indexes : IndexSet D}
      → index_set_load t.indexes ≡ some t.indexes
      → index_set_has_duplicate registry t.indexes values ≡ some none
      → storage_insert_row t.file values schema ≡ some (file, offset)
      → index_set_insert t.indexes values offset ≡ some indexes
      → execute_insert registry schema t values
        ≡ some (error_ok, record { file = file; indexes = indexes })
  unfolding execute_insert
  insert_made t values loaded told written put =
      rw (execute_insert, loaded, told, written, put) refl

  -- Insertion of a row that fits the columns of a table of at most 16, which has a row already or no
  -- index, and where each index makes the same key of the row as stored, gives a table: with the new row last, or, if an index has a row
  -- whose key compares equal, the same as before with an error.
  pub execute_insert-Inserted :
      (t : Table D) (rows : List StoredRow) (values : List DataValue)
      → length schema.columns ≤ 16
      → IsTable t rows
      → FitsRow schema.columns values
      → All (KeepsKey values (stored_row schema.columns values)) t.indexes
      → (t.indexes ≡ []) ⊎ (1 ≤ length rows)
      → (error : Error) × (t' : Table D) × (execute_insert registry schema t values
          ≡ some (error, t'))
        × Inserted t rows values error t'
  execute_insert-Inserted t rows values few is_table fits keys stored =
      let (answer, told, tells) =
        index_set_has_duplicate-Tells registry comparator IsValid t.indexes rows values
          (stored_row schema.columns values) is_table.mirrored keys is_table.unique in
      go answer told tells
    where
      loaded : index_set_load t.indexes ≡ some t.indexes
      loaded =
          index_set_load-Mirrors registry comparator IsValid t.indexes rows is_table.mirrored stored

      go :
          (answer : Option IndexDefinition)
          → index_set_has_duplicate registry t.indexes values ≡ some answer
          → Tells registry comparator IsValid t.indexes rows values answer
          → (error : Error) × (t' : Table D) × (execute_insert registry schema t values
              ≡ some (error, t'))
            × Inserted t rows values error t'
      go (some index_def) told clash = (
        duplicate_error,
        t,
        insert_refused t values index_def loaded told,
        inr (refl, refl, clash),
      )
      go none told fresh =
          let (file, offset, rows', written, whole, seen', seen) =
            storage_insert_row-scan_table t.file schema values is_table.whole few fits in
          let shown : some rows' ≡ some rows = sym seen' ∙ is_table.seen in
          let same : rows' ≡ rows = cc in
          let (indexes, put, mirrored, unique) =
            index_set_insert-Mirrors registry comparator IsValid t.indexes rows values
              (record { row = stored_row schema.columns values; offset = offset }) is_table.mirrored
              keys is_table.unique fresh in
          (
            error_ok,
            record { file = file; indexes = indexes },
            insert_made t values loaded told written put,
            inl (
              refl,
              offset,
              record {
                whole = whole;
                seen = rw same at seen;
                mirrored = mirrored;
                unique = unique;
              },
            ),
          )
