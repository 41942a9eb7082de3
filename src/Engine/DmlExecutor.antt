-- ===== src/Engine/DmlExecutor.antt =====
-- src/engine/dml/executor.c: the execution of statements on rows. The state is a table's data file and
-- its indexes, as they are saved in their files; what is printed is not modelled.
pub mod Insert
pub mod Keys
pub mod Select
pub mod IndexSelect
pub mod Planned
use maxql.Prelude.{
  get_elem?, if◌then◌else◌, ℕ, List, [], ◌∷◌, Bool, true, false, Option, none, some,
}
use maxql.Core.Error.{Error, error_ok, error_fmt, err_executor}
use maxql.Types.Value.{DataValue}
use maxql.Schema.Table.{TableSchema}
use maxql.Types.Compare.{strcmp, compare_value, compare_matches_op}
use maxql.Types.Resolve.{is_eq}
use maxql.Storage.{StoredRow, storage_insert_row}
use maxql.Scan.{push_row, scan_table}
use maxql.Scan.IndexScan.{scan_index}
use maxql.Index.Keys.{Index}
use maxql.Engine.DmlTypes.{WhereFilter, IndexDecision, SelectExecPlan}
use maxql.Index.Registry.{IndexVTable}
use maxql.Index.Set.{IndexSet, index_set_load, index_set_insert, index_set_has_duplicate}

pub record Table (D : Type 0) : Type 0 where
  pub file : List ℕ
  pub indexes : IndexSet D

abbrev pub duplicate_error : Error
duplicate_error = error_fmt err_executor "Duplicate value(s) for unique index '%s'"

-- `none` is a value that is not there or of another type.
unfoldable pub matches_where : List DataValue → WhereFilter → Option Bool
unfolding compare_value compare_matches_op
matches_where row [] = some true
matches_where row (p ∷ ps) =
    let rest = matches_where row ps in
    elim (get_elem? row p.column_index) [
      | none ↦ none
      | some v ↦ elim (compare_value v p.value) [
        | none ↦ none
        | some c ↦ elim (compare_matches_op p.op c) [
          | none ↦ none
          | some true ↦ rest
          | some false ↦ some false
        ]
      ]
    ]

abbrev pub keep_row : Option Bool → StoredRow → Option (List StoredRow) → Option (List StoredRow)
keep_row none r rest = none
keep_row (some true) r rest = push_row r rest
keep_row (some false) r rest = rest

-- The body of the loop over the rows, for those that match.
unfoldable pub matching_rows : WhereFilter → List StoredRow → Option (List StoredRow)
unfolding matches_where
matching_rows where_filter [] = some []
matching_rows where_filter (r ∷ rs) =
    keep_row (matches_where r.row where_filter) r (matching_rows where_filter rs)

-- The index that is opened by its name.
unfoldable pub index_named : {D : Type 0} → IndexSet D → List ℕ → Option (Index D)
unfolding strcmp
index_named [] name = none
index_named (i ∷ is) name =
    if is_eq (strcmp i.index_def.name name) then some i else index_named is name

-- All rows of the source.
unfoldable pub row_source :
    {D : Type 0} → IndexDecision → TableSchema → Table D → Option (List StoredRow)
unfolding scan_table scan_index index_named
row_source decision schema t = elim decision.use_index [
  | false ↦ scan_table t.file schema
  | true ↦ elim decision.index_def [
    | none ↦ none
    | some d ↦ elim (index_named t.indexes d.name) [
      | none ↦ none
      | some index ↦ scan_index t.file schema index decision.conditions
    ]
  ]
]

-- `print_row` shows the values at these columns.
unfoldable pub shown_values : List ℕ → List DataValue → Option (List DataValue)
shown_values [] row = some []
shown_values (c ∷ cs) row = elim (get_elem? row c) [
  | none ↦ none
  | some v ↦ elim (shown_values cs row) [ none ↦ none | some vs ↦ some (v ∷ vs) ]
]

unfoldable pub shown_rows : List ℕ → List StoredRow → Option (List (List DataValue))
unfolding shown_values
shown_rows cs [] = some []
shown_rows cs (r ∷ rs) = elim (shown_values cs r.row) [
  | none ↦ none
  | some vs ↦ elim (shown_rows cs rs) [ none ↦ none | some rest ↦ some (vs ∷ rest) ]
]

unfoldable pub show_matching : List ℕ → Option (List StoredRow) → Option (List (List DataValue))
unfolding shown_rows
show_matching cs none = none
show_matching cs (some matching) = shown_rows cs matching

-- What the loop prints of the rows of its source.
unfoldable pub select_from :
    SelectExecPlan → Option (List StoredRow) → Option (List (List DataValue))
unfolding matching_rows show_matching
select_from plan none = none
select_from plan (some rows) =
    show_matching plan.query_column_order (matching_rows plan.where_filter rows)

-- The rows that are printed.
unfoldable pub execute_select :
    {D : Type 0} → TableSchema → Table D → SelectExecPlan → Option (List (List DataValue))
unfolding row_source select_from
execute_select schema t plan = select_from plan (row_source plan.index_decision schema t)

module _ {D : Type 0} (registry : List (IndexVTable D)) where
  -- The indexes are saved on success only.
  unfoldable pub execute_insert : TableSchema → Table D → List DataValue → Option (Error × Table D)
  unfolding index_set_load index_set_has_duplicate storage_insert_row index_set_insert
  execute_insert schema t values = elim (index_set_load t.indexes) [
    | none ↦ none
    | some loaded ↦ elim (index_set_has_duplicate registry loaded values) [
      | none ↦ none
      | some (some index_def) ↦ some (duplicate_error, t)
      | some none ↦ elim (storage_insert_row t.file values schema) [
        | none ↦ none
        | some (file, offset) ↦ elim (index_set_insert loaded values offset) [
          | none ↦ none
          | some indexes ↦ some (error_ok, record { file = file; indexes = indexes })
        ]
      ]
    ]
  ]
