-- ===== src/Tests/Execution.antt =====
-- Execution of statements, at a table of an int and a varchar(5) with a B-tree index on the int.
use maxql.Prelude.{inr, [], ◌∷◌, some, true, ◌≡◌, refl, arith, All}
use maxql.Index.Comparator.{compare_fields}
use maxql.Core.StrView.{codes}
use maxql.Engine.DmlPlanner.{plan_select}
use maxql.Engine.DmlExecutor.Planned.{Opens, plan_select-execute_select}
use maxql.Core.Error.{Error}
use maxql.Btree.Node.{leaf}
use maxql.Btree.Layout.{btree_layout_create, btree_layout_create-IsLayout}
use maxql.Btree.Handle.{Btree, builtin_index, index_register_builtin_types}
use maxql.Btree.Handle.Laws.{IsValidTree, builtin_index-IsIndex, registered_btree}
use maxql.Btree.Search.{btree_search}
use maxql.Types.Value.{value_int, int_type}
use maxql.Types.Mapper.{type_mapping}
use maxql.Types.KeyCompare.{compare_int_keys}
use maxql.Schema.Table.{IndexPart, IndexDefinition, index_btree}
use maxql.Storage.Rows.{stored_row}
use maxql.Btree.Inorder.{inorder}
use maxql.Index.Keys.{Index, row_key}
use maxql.Index.Mirror.{Mirrors, find_row}
use maxql.Index.Set.Mirrors.{KeepsKey}
use maxql.Engine.DmlExecutor.{Table, execute_insert}
use maxql.Engine.DmlExecutor.Insert.{IsTable, Inserted, execute_insert-Inserted}
use maxql.Parser.Ast.{op_equals}
use maxql.Engine.DmlTypes.{WhereFilter, IndexDecision}
use maxql.Engine.DmlPlanner.{select_best_index}
use maxql.Engine.DmlPlanner.Best.{IsBest, select_best_index-IsBest}
use maxql.Prelude.{inr, false, inl}
use maxql.Types.Value.{value_string}
use maxql.Index.Keys.{prepare_index_key}
use maxql.Index.Registry.{index_supports_op}
use maxql.Engine.DmlTypes.{SelectExecPlan}
use maxql.Engine.DmlPlanner.{no_decision, with_decision}
use maxql.Engine.DmlPlanner.Conditions.{AreConditions}
use maxql.Engine.DmlExecutor.{matches_where, index_named, execute_select}
use maxql.Engine.DmlExecutor.Select.{IsTested}
use maxql.Engine.DmlExecutor.IndexSelect.{execute_select-scan}
use maxql.Tests.Btree.{by_int, by_int-IsKeyOrder}
use maxql.Tests.Storage.{two_columns, two_rows, two_rows-IsData, row_8, sees_8, nine, nine-FitsRow}

abbrev int_part : IndexPart
int_part = record {
  column = codes "c";
  column_pos = 0;
  part_len = 4;
  part_type = int_type;
  part_compare = λ _. compare_int_keys;
}

abbrev by_first : IndexDefinition
by_first = record {
  name = codes "i";
  type = index_btree;
  node_size = 80;
  key_size = 4;
  is_unique = true;
  parts = int_part ∷ [];
}

abbrev eight : Btree
eight = record {
  root = some (leaf (record { key = 8 ∷ 0 ∷ 0 ∷ 0 ∷ []; offset = 10 } ∷ []));
  layout = btree_layout_create 80 4;
  comparator = by_int;
}

abbrev index_eight : Index Btree
index_eight = record { index_def = by_first; vtable = builtin_index; tree = eight }

abbrev table : Table Btree
table = record { file = two_rows; indexes = index_eight ∷ [] }

eight-IsValidTree : IsValidTree eight
unfolding btree_layout_create inorder
eight-IsValidTree = record {
  layout_fits = btree_layout_create-IsLayout 80 4 (omega arith) (omega arith);
  ordered = by_int-IsKeyOrder;
  tree = record { tree = (0, omega arith); sorted = (tt, tt) };
}

index_eight-Mirrors :
    Mirrors index_register_builtin_types (λ t. t.comparator) IsValidTree index_eight (row_8 ∷ [])
unfolding builtin_index find_row row_key btree_search
index_eight-Mirrors = record {
  registered = registered_btree;
  laws = builtin_index-IsIndex;
  valid = eight-IsValidTree;
  apart = ((8 ∷ 0 ∷ 0 ∷ 0 ∷ [], refl, refl), tt);
  answers = λ q. ground arith;
}

table-IsTable :
    IsTable index_register_builtin_types
      (λ t. t.comparator)
      IsValidTree
      two_columns
      table
      (row_8 ∷ [])
table-IsTable = record {
  whole = two_rows-IsData;
  seen = sees_8;
  mirrored = (index_eight-Mirrors, tt);
  unique = (refl, tt);
}

nine-KeepsKey : All (KeepsKey nine (stored_row two_columns.columns nine)) (index_eight ∷ [])
unfolding row_key stored_row type_mapping
nine-KeepsKey = ((9 ∷ 0 ∷ 0 ∷ 0 ∷ [], refl, refl), tt)

execute_insert-Inserted_example :
    (error : Error) × (t' : Table Btree) × (execute_insert index_register_builtin_types two_columns
        table nine
      ≡ some (error, t'))
    × Inserted index_register_builtin_types
        (λ t. t.comparator)
        IsValidTree
        two_columns
        table
        (row_8 ∷ [])
        nine
        error
        t'
execute_insert-Inserted_example =
    execute_insert-Inserted index_register_builtin_types (λ t. t.comparator) IsValidTree two_columns
      table (row_8 ∷ []) nine (omega arith) table-IsTable nine-FitsRow nine-KeepsKey
      (inr (omega arith))

-- The condition that the first column is 8.
abbrev is_8 : WhereFilter
is_8 = record { column_index = 0; value = value_int 8; op = op_equals } ∷ []

chooses_by_first :
    select_best_index index_register_builtin_types is_8 (by_first ∷ [])
    ≡ some (record {
      index_def = some by_first;
      conditions = record { value = value_int 8; op = op_equals; column_position = 0 } ∷ [];
      use_index = true;
    })
unfolding select_best_index index_register_builtin_types builtin_index
chooses_by_first = refl

select_best_index-IsBest_example :
    (decision : IndexDecision) × (select_best_index index_register_builtin_types is_8
        (by_first ∷ [])
      ≡ some decision)
    × IsBest index_register_builtin_types is_8 (by_first ∷ []) decision
select_best_index-IsBest_example =
    select_best_index-IsBest index_register_builtin_types is_8 (by_first ∷ [])
      ((builtin_index, registered_btree), tt)

abbrev select_8 : SelectExecPlan
select_8 = record {
  query_column_order = 1 ∷ 0 ∷ [];
  where_filter = is_8;
  index_decision = record {
    index_def = some by_first;
    conditions = record { value = value_int 8; op = op_equals; column_position = 0 } ∷ [];
    use_index = true;
  };
  ignore_index = false;
}

shows_8 :
    execute_select two_columns table select_8
    ≡ some ((value_string (97 ∷ 98 ∷ []) ∷ value_int 8 ∷ []) ∷ [])
unfolding execute_select builtin_index btree_search type_mapping prepare_index_key compare_fields
shows_8 = refl

is_8-AreConditions :
    AreConditions index_register_builtin_types is_8 index_btree
      (int_part ∷ [])
      select_8.index_decision.conditions
unfolding index_supports_op index_register_builtin_types builtin_index
is_8-AreConditions = (
  record {
    predicate = record { column_index = 0; value = value_int 8; op = op_equals };
    among = inl refl;
    on_column = refl;
    at_column = refl;
    same_value = refl;
    same_op = refl;
    supported = refl;
  },
  tt,
)

makes_key : prepare_index_key by_first (value_int 8 ∷ []) ≡ some (8 ∷ 0 ∷ 0 ∷ 0 ∷ [])
unfolding prepare_index_key
makes_key = refl

finds_table : index_named table.indexes by_first.name ≡ some index_eight
unfolding index_named
finds_table = refl

row_8-IsTested : IsTested is_8 row_8
unfolding matches_where
row_8-IsTested = (true, refl)

execute_select-scan_example :
    execute_select two_columns table select_8
    ≡ execute_select two_columns table (with_decision select_8 no_decision)
execute_select-scan_example =
    execute_select-scan index_register_builtin_types (λ t. t.comparator) IsValidTree two_columns
      table (row_8 ∷ []) select_8 index_eight (8 ∷ 0 ∷ 0 ∷ 0 ∷ []) table-IsTable refl refl
      finds_table is_8-AreConditions refl makes_key (tt, tt) (row_8-IsTested, tt) (omega arith)

abbrev unplanned_8 : SelectExecPlan
unplanned_8 = with_decision select_8 no_decision

table-Opens : Opens table by_first
unfolding index_named builtin_index
table-Opens = record {
  index = index_eight;
  named = refl;
  same = refl;
  sized = omega arith;
  full = refl;
}

plan_select-execute_select_example :
    (plan' : SelectExecPlan) × (plan_select index_register_builtin_types unplanned_8 (by_first ∷ [])
      ≡ some plan')
    × (execute_select two_columns table plan'
        ≡ execute_select two_columns table (with_decision unplanned_8 no_decision))
plan_select-execute_select_example =
    plan_select-execute_select index_register_builtin_types (λ t. t.comparator) IsValidTree
      two_columns table (row_8 ∷ []) unplanned_8 (by_first ∷ []) table-IsTable
      ((builtin_index, registered_btree), tt) (table-Opens, tt) (tt, tt) (row_8-IsTested, tt) refl
      (omega arith)
