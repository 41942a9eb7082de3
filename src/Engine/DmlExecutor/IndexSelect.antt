-- ===== src/Engine/DmlExecutor/IndexSelect.antt =====
-- A select of src/engine/dml/executor.c through an index shows what it shows by a scan of the table.
use maxql.Prelude.{
  ℕ, ◌≤◌, List, [], ◌∷◌, true, none, some, ◌≡◌, ◌⊎◌, inl, inr, refl, sym, ap, ◌∙◌, All, map, length,
  Bool-cases,
}
use maxql.Btree.Order.{Key, KeyComparator}
use maxql.Types.Compare.{strcmp}
use maxql.Types.Resolve.{is_eq}
use maxql.Schema.Table.{TableSchema, IndexDefinition}
use maxql.Storage.{StoredRow, storage_load_row}
use maxql.Scan.Deletes.{storage_load_row-scan_table}
use maxql.Scan.IndexScan.{scan_index}
use maxql.Index.Keys.{Index, prepare_index_key}
use maxql.Index.Keys.Equal.{IsBitwise}
use maxql.Index.Mirror.{find_row, Mirrors, Mirrors-stored}
use maxql.Index.Registry.{IndexVTable}
use maxql.Engine.DmlTypes.{WhereFilter, IndexCondition, IndexDecision, SelectExecPlan}
use maxql.Engine.DmlPlanner.{no_decision, with_decision}
use maxql.Engine.DmlPlanner.Conditions.{Among, AreConditions}
use maxql.Engine.DmlExecutor.{
  Table, matching_rows, index_named, row_source, execute_select, show_matching, select_from,
}
use maxql.Engine.DmlExecutor.Insert.{IsTable}
use maxql.Engine.DmlExecutor.Keys.{row_key-conditions}
use maxql.Engine.DmlExecutor.Select.{IsTested, find_row-Answer, scan_index-none, scan_index-some}

pub All-Among : {A : Type 0} (P : A → Type 0) (x : A) (xs : List A) → All P xs → Among x xs → P x
All-Among P x [] h a = absurd a
All-Among P x (y ∷ ys) h (inl same) = rw (← same) h.0
All-Among P x (y ∷ ys) h (inr a) = All-Among P x ys h.1 a

module _ {D : Type 0} (registry : List (IndexVTable D)) (comparator : D → KeyComparator)
    (IsValid : D → Type 0) (schema : TableSchema) where
  pub index_named-Mirrors :
      (is : List (Index D)) (rows : List StoredRow) (name : List ℕ) (i : Index D)
      → All (λ i. Mirrors registry comparator IsValid i rows) is
      → index_named is name ≡ some i
      → Mirrors registry comparator IsValid i rows
  unfolding index_named
  index_named-Mirrors [] rows name i ms h = cc
  index_named-Mirrors (j ∷ is) rows name i ms h =
      elim (Bool-cases (is_eq (strcmp j.index_def.name name))) [
        | inl here ↦
            let one : some j ≡ some i = rw (index_named, here) at h in
            let same : j ≡ i = cc in rw same at ms.0
        | inr other ↦ index_named-Mirrors is rows name i ms.1 (rw (index_named, other) at h)
      ]

  load_seen :
      (t : Table D) (rows : List StoredRow) (r : StoredRow)
      → IsTable registry comparator IsValid schema t rows
      → Among r rows
      → (next : ℕ) × (storage_load_row t.file schema r.offset ≡ some (some r.row, next))
  load_seen t rows r is_table among =
      let (rows', seen, loads) = storage_load_row-scan_table t.file schema is_table.whole in
      let shown : some rows' ≡ some rows = sym seen ∙ is_table.seen in
      let same : rows' ≡ rows = cc in
      All-Among
        (λ (r : StoredRow).
          (next : ℕ) × (storage_load_row t.file schema r.offset ≡ some (some r.row, next)))
        r rows (rw same at loads) among

  -- The rows of an index scan match as those of the table do.
  scan_index-matching_rows :
      (t : Table D) (rows : List StoredRow) (where_filter : WhereFilter) (i : Index D)
      (cs : List IndexCondition) (q : Key)
      → IsTable registry comparator IsValid schema t rows
      → Mirrors registry comparator IsValid i rows
      → AreConditions registry where_filter i.index_def.type i.index_def.parts cs
      → length cs ≡ length i.index_def.parts
      → All (IsTested where_filter) rows
      → All (λ p. IsBitwise p.value) where_filter
      → prepare_index_key i.index_def (map (λ (c : IndexCondition). c.value) cs) ≡ some q
      → 1 ≤ length rows
      → (found : List StoredRow) × (scan_index t.file schema i cs ≡ some found)
        × (matching_rows where_filter found ≡ matching_rows where_filter rows)
  unfolding matching_rows
  scan_index-matching_rows t rows where_filter i cs q is_table m are full tested bits made
        some_row =
      go (
        find_row-Answer where_filter i.index_def (comparator i.tree) (m.laws.ordered i.tree m.valid)
          q
          (λ r h.
            row_key-conditions registry i.vtable m.laws.equality where_filter r.row i.index_def cs
              m.registered bits h are full
            ∙ made)
          rows m.apart tested)
    where
      streamed : (k : Key) → i.vtable.search_stream i.tree k ≡ i.vtable.search i.tree k
      streamed = (Mirrors-stored registry comparator IsValid i rows m some_row).1

      go :
          ((find_row i.index_def (comparator i.tree) q rows ≡ none)
              × (matching_rows where_filter rows ≡ some []))
            ⊎ ((r : StoredRow) × Among r rows
                × (find_row i.index_def (comparator i.tree) q rows ≡ some r.offset)
                × (matching_rows where_filter rows ≡ matching_rows where_filter (r ∷ [])))
          → (found : List StoredRow) × (scan_index t.file schema i cs ≡ some found)
            × (matching_rows where_filter found ≡ matching_rows where_filter rows)
      go (inl (absent, empty)) = (
        [],
        scan_index-none t.file schema i cs q made (streamed q ∙ m.answers q ∙ ap some absent),
        sym empty,
      )
      go (inr (r, among, found, same)) =
          let (next, loaded) = load_seen t rows r is_table among in
          (
            r ∷ [],
            scan_index-some t.file schema i cs q r next made
                (streamed q ∙ m.answers q ∙ ap some found) loaded,
            sym same,
          )

  row_source-index :
      (t : Table D) (decision : IndexDecision) (d : IndexDefinition) (i : Index D)
      → decision.use_index ≡ true
      → decision.index_def ≡ some d
      → index_named t.indexes d.name ≡ some i
      → row_source decision schema t ≡ scan_index t.file schema i decision.conditions
  unfolding row_source
  row_source-index t decision d i used chosen named = rw (row_source, used, chosen, named) refl

  execute_select-rows :
      (t : Table D) (plan : SelectExecPlan) (rows : List StoredRow)
      → row_source plan.index_decision schema t ≡ some rows
      → execute_select schema t plan
        ≡ show_matching plan.query_column_order (matching_rows plan.where_filter rows)
  unfolding execute_select
  execute_select-rows t plan rows h = ap (select_from plan) h

  -- A select shows through an index what it shows by a scan of the table: where the table has a row, the
  -- conditions given to the index are conditions of the statement, one for each part of the index, and make a key, no
  -- condition has a float or a null, and each can be tested on each row.
  pub execute_select-scan :
      (t : Table D) (rows : List StoredRow) (plan : SelectExecPlan) (i : Index D) (q : Key)
      → IsTable registry comparator IsValid schema t rows
      → plan.index_decision.use_index ≡ true
      → plan.index_decision.index_def ≡ some i.index_def
      → index_named t.indexes i.index_def.name ≡ some i
      → AreConditions registry plan.where_filter i.index_def.type i.index_def.parts
          plan.index_decision.conditions
      → length plan.index_decision.conditions ≡ length i.index_def.parts
      → prepare_index_key i.index_def
          (map (λ (c : IndexCondition). c.value) plan.index_decision.conditions)
        ≡ some q
      → All (λ p. IsBitwise p.value) plan.where_filter
      → All (IsTested plan.where_filter) rows
      → 1 ≤ length rows
      → execute_select schema t plan ≡ execute_select schema t (with_decision plan no_decision)
  unfolding row_source
  execute_select-scan t rows plan i q is_table used chosen named are full made bits tested
        some_row =
      let m = index_named-Mirrors t.indexes rows i.index_def.name i is_table.mirrored named in
      let (found, scanned, same) =
        scan_index-matching_rows t rows plan.where_filter i plan.index_decision.conditions q
          is_table m are full tested bits made some_row in
      execute_select-rows t plan found
        (row_source-index t plan.index_decision i.index_def i used chosen named ∙ scanned)
      ∙ ap (show_matching plan.query_column_order) same
      ∙ sym (execute_select-rows t (with_decision plan no_decision) rows is_table.seen)
