-- ===== src/Scan.antt =====
-- src/scan: the sources of rows, and the loop over one.
pub mod Slots
pub mod Writes
pub mod Deletes
pub mod IndexScan
use maxql.Prelude.{ℕ, zero, suc, List, [], ◌∷◌, Option, none, some, length, Bool, true, false}
use maxql.Schema.Table.{TableSchema}
use maxql.Storage.{StoredRow, table_scan_next}

-- `next` of a row source: the next row or none, and the source afterwards.
abbrev pub Next : Type 0 → Type 0
Next S = S → Option (Option StoredRow × S)

abbrev pub push_row : StoredRow → Option (List StoredRow) → Option (List StoredRow)
push_row r none = none
push_row r (some rs) = some (r ∷ rs)

-- `while (row_source->next(row_source, &stored_row))`, with the rows that it sees; fuel for the rows.
unfoldable pub drain : {S : Type 0} → Next S → ℕ → S → Option (List StoredRow)
drain next zero s = none
drain next (suc fuel) s = elim (next s) [
  | none ↦ none
  | some (row, s') ↦ elim row [ none ↦ some [] | some r ↦ push_row r (drain next fuel s') ]
]

-- All rows of a table scan. Each row takes a byte of the file at least.
unfoldable pub scan_table : List ℕ → TableSchema → Option (List StoredRow)
unfolding drain table_scan_next
scan_table file schema =
    drain (table_scan_next (suc (length file)) file schema) (suc (length file)) 0
