-- ===== src/Engine/DmlChanges.antt =====
-- src/engine/dml/executor.c: the removal and the change of rows. The state is a table's data file and its
-- indexes; what is printed is the number of rows.
pub mod Delete
pub mod Update
pub mod Offsets
use maxql.Prelude.{
  ℕ, zero, suc, List, [], ◌∷◌, Bool, true, false, Option, none, some, map, length, get_elem?, set,
  if◌then◌else◌,
}
use maxql.Core.Error.{Error, error_ok, error_fmt, err_index}
use maxql.Types.Value.{DataValue}
use maxql.Types.Compare.{compare_value}
use maxql.Types.Resolve.{is_eq}
use maxql.Schema.Table.{TableSchema, IndexPart, IndexDefinition}
use maxql.Storage.{StoredRow, storage_delete_row, storage_delete_rows, storage_insert_row}
use maxql.Index.Registry.{IndexVTable}
use maxql.Index.Keys.{Index}
use maxql.Index.Set.{
  IndexSet, index_set_load, index_set_insert, index_set_delete, index_set_has_conflict,
}
use maxql.Engine.DmlTypes.{DeleteExecPlan, WhereFilter, IndexDecision}
use maxql.Engine.DmlExecutor.{Table, duplicate_error, matching_rows, row_source}

-- The deletions in the indexes, of each row that matches.
unfoldable pub delete_keys : {D : Type 0} → IndexSet D → List StoredRow → Option (IndexSet D)
unfolding index_set_delete
delete_keys indexes [] = some indexes
delete_keys indexes (r ∷ rs) = elim (index_set_delete indexes r.row r.offset) [
  | none ↦ none
  | some (deleted, indexes') ↦ delete_keys indexes' rs
]

abbrev pub offsets_of : List StoredRow → List ℕ
offsets_of rs = map (λ (r : StoredRow). r.offset) rs

-- What is written for the rows that match: nothing, if there are none.
unfoldable pub delete_matching : {D : Type 0} → Table D → List StoredRow → Option (ℕ × Table D)
unfolding delete_keys storage_delete_rows
delete_matching t [] = some (0, t)
delete_matching t (r ∷ rs) = elim (delete_keys t.indexes (r ∷ rs)) [
  | none ↦ none
  | some indexes ↦ some (
    length (r ∷ rs),
    record { file = storage_delete_rows t.file (offsets_of (r ∷ rs)); indexes = indexes },
  )
]

abbrev pub delete_from : {D : Type 0} → Table D → Option (List StoredRow) → Option (ℕ × Table D)
delete_from t none = none
delete_from t (some rows) = delete_matching t rows

abbrev pub matching_of : WhereFilter → Option (List StoredRow) → Option (List StoredRow)
matching_of where_filter none = none
matching_of where_filter (some rows) = matching_rows where_filter rows

-- The number of rows that are deleted, and the table.
unfoldable pub execute_delete :
    {D : Type 0} → TableSchema → Table D → DeleteExecPlan → Option (ℕ × Table D)
unfolding index_set_load row_source delete_matching matching_rows
execute_delete schema t plan = elim (index_set_load t.indexes) [
  | none ↦ none
  | some loaded ↦
      delete_from (record { file = t.file; indexes = loaded })
        (matching_of plan.where_filter (row_source plan.index_decision schema t))
]

-- An assignment of an update: the column and its value.
abbrev pub Change : Type 0
Change = ℕ × DataValue

-- The values changed, and whether one of them differs from what it was.
unfoldable pub fill_update_row : List Change → List DataValue → Option (Bool × List DataValue)
unfolding compare_value
fill_update_row [] row = some (false, row)
fill_update_row (c ∷ cs) row = elim (get_elem? row c.0) [
  | none ↦ none
  | some v ↦ elim (compare_value c.1 v) [
    | none ↦ none
    | some o ↦
        if is_eq o then fill_update_row cs row else elim (fill_update_row cs (set row c.0 c.1)) [
          | none ↦ none
          | some (changed, row') ↦ some (true, row')
        ]
  ]
]

pub record UpdatePair : Type 0 where
  pub original : StoredRow
  pub updated : List DataValue

abbrev pub push_pair :
    StoredRow → Option (Bool × List DataValue) → Option (List UpdatePair) → Option (List UpdatePair)
push_pair r none rest = none
push_pair r (some (false, row)) rest = rest
push_pair r (some (true, row)) none = none
push_pair r (some (true, row)) (some ps) = some (record { original = r; updated = row } ∷ ps)

-- The rows that match and that the update changes.
unfoldable pub update_pairs : List Change → List StoredRow → Option (List UpdatePair)
unfolding fill_update_row
update_pairs changes [] = some []
update_pairs changes (r ∷ rs) =
    push_pair r (fill_update_row changes r.row) (update_pairs changes rs)

-- Whether the values of each part of an index compare equal in two rows.
unfoldable pub same_key_values : List IndexPart → List DataValue → List DataValue → Option Bool
unfolding compare_value
same_key_values [] a b = some true
same_key_values (p ∷ ps) a b = elim (get_elem? a p.column_pos) [
  | none ↦ none
  | some x ↦ elim (get_elem? b p.column_pos) [
    | none ↦ none
    | some y ↦ elim (compare_value x y) [
      | none ↦ none
      | some o ↦ if is_eq o then same_key_values ps a b else some false
    ]
  ]
]

-- The first answer that is not false.
abbrev pub or_else : Option Bool → Option Bool → Option Bool
or_else none rest = none
or_else (some true) rest = some true
or_else (some false) rest = rest

-- The inner loop over the pairs behind one, and the outer loop.
unfoldable pub duplicate_later : List IndexPart → List DataValue → List UpdatePair → Option Bool
unfolding same_key_values
duplicate_later parts a [] = some false
duplicate_later parts a (p ∷ ps) =
    or_else (same_key_values parts a p.updated) (duplicate_later parts a ps)

unfoldable pub index_batch_has_duplicates : List UpdatePair → IndexDefinition → Option Bool
unfolding duplicate_later
index_batch_has_duplicates [] index_def = some false
index_batch_has_duplicates (p ∷ ps) index_def =
    or_else (duplicate_later index_def.parts p.updated ps) (index_batch_has_duplicates ps index_def)

-- The loop over all indexes, also those that are not unique.
unfoldable pub batch_check_unique_keys : {D : Type 0} → List UpdatePair → IndexSet D → Option Bool
unfolding index_batch_has_duplicates
batch_check_unique_keys pairs [] = some false
batch_check_unique_keys pairs (i ∷ is) =
    or_else (index_batch_has_duplicates pairs i.index_def) (batch_check_unique_keys pairs is)

abbrev pub batch_error : Error
batch_error = error_fmt err_index "Update contains duplicates for unique index '%s'"

-- One pair: the row deleted, the new one appended, and the indexes changed.
unfoldable pub update_row : {D : Type 0} → TableSchema → Table D → UpdatePair → Option (Table D)
unfolding storage_delete_row storage_insert_row index_set_delete index_set_insert
update_row schema t p =
    elim (storage_insert_row (storage_delete_row t.file p.original.offset) p.updated schema) [
      | none ↦ none
      | some (file, offset) ↦ elim (index_set_delete t.indexes p.original.row p.original.offset) [
        | none ↦ none
        | some (deleted, indexes) ↦ elim (index_set_insert indexes p.updated offset) [
          | none ↦ none
          | some indexes' ↦ some (record { file = file; indexes = indexes' })
        ]
      ]
    ]

unfoldable pub update_rows :
    {D : Type 0} → TableSchema → Table D → List UpdatePair → Option (Table D)
unfolding update_row
update_rows schema t [] = some t
update_rows schema t (p ∷ ps) = elim (update_row schema t p) [
  | none ↦ none
  | some t' ↦ update_rows schema t' ps
]

module _ {D : Type 0} (registry : List (IndexVTable D)) where
  -- The first pair that an index has already, at another row.
  unfoldable pub has_conflict : IndexSet D → List UpdatePair → Option Bool
  unfolding index_set_has_conflict
  has_conflict indexes [] = some false
  has_conflict indexes (p ∷ ps) =
      elim (index_set_has_conflict registry indexes p.updated p.original.offset) [
        | none ↦ none
        | some (some index_def) ↦ some true
        | some none ↦ has_conflict indexes ps
      ]

  -- The checks of the pairs, and then the changes.
  unfoldable pub update_checked : TableSchema → Table D → List UpdatePair → Option (Error × Table D)
  unfolding has_conflict batch_check_unique_keys update_rows
  update_checked schema t pairs = elim (has_conflict t.indexes pairs) [
    | none ↦ none
    | some true ↦ some (duplicate_error, t)
    | some false ↦ elim (batch_check_unique_keys pairs t.indexes) [
      | none ↦ none
      | some true ↦ some (batch_error, t)
      | some false ↦ elim (update_rows schema t pairs) [
        | none ↦ none
        | some t' ↦ some (error_ok, t')
      ]
    ]
  ]

  unfoldable pub execute_update :
      TableSchema → Table D → IndexDecision → WhereFilter → List Change → Option (Error × Table D)
  unfolding index_set_load row_source matching_rows update_pairs update_checked
  execute_update schema t decision where_filter changes = elim (index_set_load t.indexes) [
    | none ↦ none
    | some loaded ↦ elim (matching_of where_filter (row_source decision schema t)) [
      | none ↦ none
      | some rows ↦ elim (update_pairs changes rows) [
        | none ↦ none
        | some pairs ↦ update_checked schema (record { file = t.file; indexes = loaded }) pairs
      ]
    ]
  ]
