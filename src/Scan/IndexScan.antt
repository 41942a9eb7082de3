-- ===== src/Scan/IndexScan.antt =====
-- src/scan/index_scan.c: the row that an index finds. The search is in the index's file, as it was
-- saved.
use maxql.Prelude.{ℕ, List, Bool, true, false, Option, none, some, map}
use maxql.Schema.Table.{TableSchema}
use maxql.Storage.{StoredRow, storage_load_row}
use maxql.Scan.{drain}
use maxql.Index.Keys.{Index, prepare_index_key}
use maxql.Engine.DmlTypes.{IndexCondition}

-- `offset` with `has_result`.
pub record IndexScanState : Type 0 where
  pub offset : Option ℕ
  pub consumed : Bool

unfoldable pub init_index_scan_state :
    {D : Type 0} → Index D → List IndexCondition → Option IndexScanState
unfolding prepare_index_key
init_index_scan_state index conditions =
    elim (prepare_index_key index.index_def (map (λ (c : IndexCondition). c.value) conditions)) [
      | none ↦ none
      | some key ↦ elim (index.vtable.search_stream index.tree key) [
        | none ↦ none
        | some offset ↦ some (record { offset = offset; consumed = false })
      ]
    ]

abbrev consume : IndexScanState → IndexScanState
consume s = record { offset = s.offset; consumed = true }

unfoldable pub index_scan_next :
    List ℕ → TableSchema → IndexScanState → Option (Option StoredRow × IndexScanState)
unfolding storage_load_row
index_scan_next file schema s = elim s.consumed [
  | true ↦ some (none, s)
  | false ↦ elim s.offset [
    | none ↦ some (none, s)
    | some offset ↦ elim (storage_load_row file schema offset) [
      | none ↦ none
      | some (row, next) ↦ elim row [
        | none ↦ some (none, consume s)
        | some values ↦ some (some (record { row = values; offset = offset }), consume s)
      ]
    ]
  ]
]

-- All rows of an index scan; there is one at most.
unfoldable pub scan_index :
    {D : Type 0} → List ℕ → TableSchema → Index D → List IndexCondition → Option (List StoredRow)
unfolding init_index_scan_state drain index_scan_next
scan_index file schema index conditions = elim (init_index_scan_state index conditions) [
  | none ↦ none
  | some s ↦ drain (index_scan_next file schema) 2 s
]
