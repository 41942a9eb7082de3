-- ===== src/Tests/Changes.antt =====
-- Deletion and update of rows, at the table of Tests/Storage.
use maxql.Prelude.{ℕ, ◌+◌, List, length, [], ◌∷◌, some, true, ◌≡◌, refl, arith, All, ◌++◌}
use maxql.Scan.{scan_table}
use maxql.Scan.Writes.{IsData}
use maxql.Engine.DmlTypes.{DeleteExecPlan}
use maxql.Engine.DmlChanges.{execute_delete, Change, UpdatePair, update_pairs, execute_update}
use maxql.Engine.DmlChanges.Offsets.{remaining, matched, remove_offsets}
use maxql.Engine.DmlChanges.Delete.{plain_table, execute_delete-scan_table}
use maxql.Engine.DmlPlanner.{no_decision}
use maxql.Core.Error.{error_ok}
use maxql.Btree.Handle.{Btree, index_register_builtin_types}
use maxql.Types.Value.{value_int, value_string}
use maxql.Types.Mapper.{type_mapping}
use maxql.Storage.Rows.{FitsRow}
use maxql.Engine.DmlExecutor.{matches_where}
use maxql.Parser.Ast.{op_equals}
use maxql.Engine.DmlExecutor.Select.{IsTested}
use maxql.Tests.Storage.{two_columns, two_rows, two_rows-IsData, row_8, sees_8}
use maxql.Storage.{StoredRow}
use maxql.Engine.DmlChanges.Update.{pair_offsets, AreNew, execute_update-scan_table}

-- delete t (c = 8)
abbrev delete_8 : DeleteExecPlan
delete_8 = record {
  where_filter = record { column_index = 0; value = value_int 8; op = op_equals } ∷ [];
  index_decision = no_decision;
}

row_8-IsTested : All (IsTested delete_8.where_filter) (row_8 ∷ [])
unfolding matches_where
row_8-IsTested = ((true, refl), tt)

execute_delete-scan_table_example :
    (n : ℕ) × (file' : List ℕ) × (execute_delete two_columns (plain_table Btree two_rows) delete_8
      ≡ some (n, plain_table Btree file'))
    × IsData file'
    × (scan_table file' two_columns ≡ some (remaining delete_8.where_filter (row_8 ∷ [])))
    × (n + length (remaining delete_8.where_filter (row_8 ∷ [])) ≡ length (row_8 ∷ []))
execute_delete-scan_table_example =
    execute_delete-scan_table Btree two_columns two_rows (row_8 ∷ []) delete_8 two_rows-IsData
      sees_8 refl row_8-IsTested

none_left : remaining delete_8.where_filter (row_8 ∷ []) ≡ []
unfolding matches_where
none_left = refl

-- The varchar of the row is changed.
abbrev to_cd : List Change
to_cd = (1, value_string (99 ∷ 100 ∷ [])) ∷ []

abbrev pair_cd : UpdatePair
pair_cd = record { original = row_8; updated = value_int 8 ∷ value_string (99 ∷ 100 ∷ []) ∷ [] }

fills_cd : update_pairs to_cd (matched delete_8.where_filter (row_8 ∷ [])) ≡ some (pair_cd ∷ [])
unfolding update_pairs matches_where
fills_cd = refl

pair_cd-FitsRow : FitsRow two_columns.columns pair_cd.updated
unfolding type_mapping
pair_cd-FitsRow = (refl, omega arith, (refl, omega arith, tt))

execute_update-scan_table_example :
    (file' : List ℕ) × (news : List StoredRow) × (execute_update index_register_builtin_types
        two_columns
        (plain_table Btree two_rows)
        no_decision
        delete_8.where_filter
        to_cd
      ≡ some (error_ok, plain_table Btree file'))
    × IsData file'
    × (scan_table file' two_columns
        ≡ some (remove_offsets (pair_offsets (pair_cd ∷ [])) (row_8 ∷ []) ++ news))
    × AreNew two_columns (pair_cd ∷ []) news
execute_update-scan_table_example =
    execute_update-scan_table index_register_builtin_types two_columns (omega arith) two_rows
      (row_8 ∷ []) no_decision delete_8.where_filter to_cd (pair_cd ∷ []) two_rows-IsData sees_8
      refl row_8-IsTested fills_cd (pair_cd-FitsRow, tt)
