-- ===== src/Engine/DmlChanges/Delete.antt =====
-- What `execute_delete` of src/engine/dml/executor.c leaves of a table.
use maxql.Prelude.{ℕ, ◌+◌, List, [], ◌∷◌, false, some, ◌≡◌, refl, sym, ap, ◌∙◌, All, length}
use mathlib.Core.Path.{subst}
use maxql.Schema.Table.{TableSchema}
use maxql.Storage.{StoredRow, storage_delete_rows}
use maxql.Storage.Slots.{live_rows}
use maxql.Scan.{scan_table}
use maxql.Scan.Writes.{IsData, scan_data}
use maxql.Engine.DmlTypes.{IndexDecision, DeleteExecPlan}
use maxql.Engine.DmlExecutor.{Table, row_source}
use maxql.Engine.DmlExecutor.Select.{IsTested}
use maxql.Engine.DmlChanges.{
  delete_keys, offsets_of, delete_matching, delete_from, matching_of, execute_delete,
}
use maxql.Engine.DmlChanges.Offsets.{
  matched, remaining, matching_rows-matched, Grows, live_rows-Grows, matched-HasOffset,
  matched-Grows, remove_offsets-remaining, storage_delete_rows-remove_offsets, matched-remaining,
}

pub row_source-scan :
    {D : Type 0} (decision : IndexDecision) (schema : TableSchema) (t : Table D)
    → decision.use_index ≡ false
    → row_source decision schema t ≡ scan_table t.file schema
unfolding row_source
row_source-scan decision schema t h = rw (row_source, h) refl

module _ (D : Type 0) where
  -- A table without indexes.
  abbrev pub plain_table : List ℕ → Table D
  plain_table file = record { file = file; indexes = [] }

  delete_keys-plain : (ms : List StoredRow) → delete_keys {D = D} [] ms ≡ some []
  unfolding delete_keys
  delete_keys-plain [] = refl
  delete_keys-plain (m ∷ ms) = delete_keys-plain ms

  delete_matching-plain :
      (file : List ℕ) (ms : List StoredRow)
      → delete_matching (plain_table file) ms
        ≡ some (length ms, plain_table (storage_delete_rows file (offsets_of ms)))
  unfolding delete_matching storage_delete_rows
  delete_matching-plain file [] = refl
  delete_matching-plain file (m ∷ ms) = rw (delete_matching, delete_keys-plain (m ∷ ms)) refl

  -- A delete by a scan of a table without indexes, whose conditions can be tested on each row, leaves in
  -- the file exactly the rows that do not match, in their order, and tells the number of the others.
  pub execute_delete-scan_table :
      (schema : TableSchema) (file : List ℕ) (rows : List StoredRow) (plan : DeleteExecPlan)
      → IsData file
      → scan_table file schema ≡ some rows
      → plan.index_decision.use_index ≡ false
      → All (IsTested plan.where_filter) rows
      → (n : ℕ) × (file' : List ℕ) × (execute_delete schema (plain_table file) plan
          ≡ some (n, plain_table file'))
        × IsData file'
        × (scan_table file' schema ≡ some (remaining plan.where_filter rows))
        × (n + length (remaining plan.where_filter rows) ≡ length rows)
  unfolding execute_delete
  execute_delete-scan_table schema file rows plan d seen by_scan tested =
      let ps = plan.where_filter in
      let ms = matched ps rows in
      let both : some (live_rows schema 0 d.slots) ≡ some rows = sym (scan_data schema d) ∙ seen in
      let same : live_rows schema 0 d.slots ≡ rows = cc in
      let grows : Grows rows = subst Grows same (live_rows-Grows schema d.slots 0) in
      let (d', left) =
        storage_delete_rows-remove_offsets schema ms file rows d seen (matched-Grows ps rows grows)
          (matched-HasOffset ps rows) in
      (
        length ms,
        storage_delete_rows file (offsets_of ms),
        ap (λ o. delete_from (plain_table file) (matching_of ps o))
              (row_source-scan plan.index_decision schema (plain_table file) by_scan)
            ∙ ap (λ o. delete_from (plain_table file) (matching_of ps o)) seen
            ∙ ap (delete_from (plain_table file)) (matching_rows-matched ps rows tested)
            ∙ delete_matching-plain file ms,
        d',
        left ∙ ap some (remove_offsets-remaining ps rows grows),
        matched-remaining ps rows,
      )
