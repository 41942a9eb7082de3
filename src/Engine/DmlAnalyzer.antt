-- ===== src/Engine/DmlAnalyzer.antt =====
-- src/engine/dml/analyzer.c: the names and the literals of a statement, resolved in the schema of its
-- table. The statement has passed its validator: an array has room for the list that is written to it.
pub mod Insert
pub mod Values
pub mod Where
pub mod Select
use maxql.Prelude.{
  ℕ, zero, suc, ◌%◌, List, [], ◌∷◌, Bool, true, false, Option, none, some, length, take, set,
  replicate, ltb, ◌==◌, if◌then◌else◌,
}
use maxql.Core.Error.{Error, error_fmt, err_analyzer}
use maxql.Core.Result.{Result, done, refused, undefined, and_then}
use maxql.Core.StrView.{StrView, sv_equal_cstr, sv_to_cstr}
use maxql.Parser.Ast.{
  Ident, RawValue, Assignment, Condition, SelectStmt, InsertStmt, DeleteStmt, UpdateStmt,
}
use maxql.Types.Value.{DataValue, ValueType, value_type}
use maxql.Types.Resolve.{same_type, resolved_type_validate}
use maxql.Types.Converter.{Strtof}
use maxql.Schema.Table.{Column, TableSchema, TableMeta}
use maxql.Database.{Database, database_table_by_name}
use maxql.Engine.Checks.{found, validated, raw_value}
use maxql.Engine.DmlTypes.{WherePredicate, WhereFilter}

-- A column with its index.
abbrev next_column : Option (ℕ × Column) → Option (ℕ × Column)
next_column none = none
next_column (some (i, c)) = some (suc i, c)

-- The loop over the columns: the index of the first one of the name, and that column.
unfoldable pub find_column_index : List Column → Ident → Option (ℕ × Column)
unfolding sv_equal_cstr
find_column_index [] column_name = none
find_column_index (c ∷ cs) column_name =
    let rest = find_column_index cs column_name in
    if sv_equal_cstr column_name c.column_name then some (0, c) else next_column rest

abbrev pub no_column : Error
no_column = error_fmt err_analyzer "Column '%.*s' is not present in table '%s'"

abbrev pub no_table : Error
no_table = error_fmt err_analyzer "Table '%s' not exist"

abbrev pub convert_error : Error
convert_error = error_fmt err_analyzer "Invalid value for column '%s': %s"

abbrev pub view_error : Error
view_error = error_fmt err_analyzer "Invalid value for column '%.*s': %s"

unfoldable pub column_indexes : List Column → List Ident → Result (List ℕ)
unfolding find_column_index
column_indexes columns [] = done []
column_indexes columns (n ∷ ns) =
    and_then (found no_column (find_column_index columns n))
      (λ at. and_then (column_indexes columns ns) (λ is. done (at.0 ∷ is)))

-- The columns from an index on.
abbrev pub indexes_from : ℕ → List Column → List ℕ
indexes_from i [] = []
indexes_from i (c ∷ cs) = i ∷ indexes_from (suc i) cs

-- The number of columns is a byte.
unfoldable pub analyze_select_columns : List Ident → TableSchema → Result (List ℕ)
unfolding column_indexes
analyze_select_columns [] schema = done (indexes_from 0 schema.columns)
analyze_select_columns (n ∷ ns) schema =
    column_indexes schema.columns (take (length (n ∷ ns) % 256) (n ∷ ns))

-- The values of the columns so far; one that is not assigned has none.
abbrev pub Slots : Type 0
Slots = List (Option DataValue)

abbrev pub fill_defaults : List Column → Slots → Result (List DataValue)
fill_defaults [] slots = done []
fill_defaults (c ∷ cs) [] = undefined
fill_defaults (c ∷ cs) (some v ∷ slots) = and_then (fill_defaults cs slots) (λ vs. done (v ∷ vs))
fill_defaults (c ∷ cs) (none ∷ slots) =
    if c.has_default
    then and_then (fill_defaults cs slots) (λ vs. done (c.default_value ∷ vs))
    else refused (error_fmt err_analyzer "Column '%s' have no default value")

unfoldable pub named_table : Database → Ident → Result TableMeta
unfolding database_table_by_name sv_to_cstr
named_table db table = found no_table (database_table_by_name db (sv_to_cstr table 32))

module _ (strtof : List ℕ → Strtof) where
  -- One condition, as a predicate on the column.
  unfoldable pub analyze_condition : List Column → Condition → Result WherePredicate
  unfolding find_column_index
  analyze_condition columns c =
      and_then (found no_column (find_column_index columns c.column)) (λ at.
        and_then (raw_value strtof view_error c.value) (λ v.
          if same_type at.1.resolved_type.type_info.value_type (value_type v)
          then done (record { column_index = at.0; value = v; op = c.op })
          else refused
              (error_fmt err_analyzer "Column '%s' type (%s) do not match provided value")))

  unfoldable pub analyze_conditions : List Column → List Condition → Result WhereFilter
  unfolding analyze_condition
  analyze_conditions columns [] = done []
  analyze_conditions columns (c ∷ cs) =
      and_then (analyze_condition columns c)
        (λ p. and_then (analyze_conditions columns cs) (λ ps. done (p ∷ ps)))

  -- The number of conditions is a byte.
  unfoldable pub analyze_where_conditions : List Condition → TableSchema → Result WhereFilter
  unfolding analyze_conditions
  analyze_where_conditions where_list schema =
      analyze_conditions schema.columns (take (length where_list % 256) where_list)

  -- The table, `query_column_order` and the predicates.
  unfoldable pub analyze_select :
      Database → SelectStmt → Result (TableMeta × (List ℕ × WhereFilter))
  unfolding analyze_select_columns analyze_where_conditions
  analyze_select db stmt = and_then (named_table db stmt.table) (λ t.
      and_then (analyze_select_columns stmt.columns t.schema) (λ order.
        and_then (analyze_where_conditions stmt.where_list t.schema)
          (λ filter. done (t, (order, filter)))))

  -- The index of the column, and its value.
  unfoldable pub analyze_assignment : List Column → Assignment → Result (ℕ × DataValue)
  unfolding find_column_index resolved_type_validate
  analyze_assignment columns a =
      and_then (found no_column (find_column_index columns a.column)) (λ at.
        and_then (raw_value strtof convert_error a.value) (λ v.
          and_then (validated convert_error (resolved_type_validate at.1.resolved_type v) v)
            (λ w. done (at.0, w))))

  unfoldable pub assign_all : List Column → List Assignment → Slots → Result Slots
  unfolding analyze_assignment
  assign_all columns [] slots = done slots
  assign_all columns (a ∷ as') slots =
      and_then (analyze_assignment columns a)
        (λ p. assign_all columns as' (set slots p.0 (some p.1)))

  -- The values of a table's columns.
  unfoldable pub insert_values : List Column → List Assignment → Result (List DataValue)
  unfolding assign_all
  insert_values columns assignments =
      if ltb (length columns) (length assignments)
      then refused (error_fmt err_analyzer "Too many assignments for table '%s'")
      else and_then (assign_all columns assignments (replicate (length columns) none))
          (fill_defaults columns)

  -- The table and the values of its columns.
  unfoldable pub analyze_insert : Database → InsertStmt → Result (TableMeta × List DataValue)
  unfolding insert_values
  analyze_insert db stmt =
      and_then (named_table db stmt.table)
        (λ t. and_then (insert_values t.schema.columns stmt.assignments) (λ vs. done (t, vs)))

  unfoldable pub analyze_delete : Database → DeleteStmt → Result (TableMeta × WhereFilter)
  unfolding analyze_where_conditions
  analyze_delete db stmt = and_then (named_table db stmt.table) (λ t.
      and_then (analyze_where_conditions stmt.where_list t.schema) (λ filter. done (t, filter)))

  -- The column of an assignment of an update, and its value, whose type is not checked.
  unfoldable pub analyze_change : List Column → Assignment → Result (ℕ × DataValue)
  unfolding find_column_index
  analyze_change columns a =
      and_then (found no_column (find_column_index columns a.column))
        (λ at. and_then (raw_value strtof view_error a.value) (λ v. done (at.0, v)))

  unfoldable pub analyze_changes : List Column → List Assignment → Result (List (ℕ × DataValue))
  unfolding analyze_change
  analyze_changes columns [] = done []
  analyze_changes columns (a ∷ as') =
      and_then (analyze_change columns a)
        (λ p. and_then (analyze_changes columns as') (λ ps. done (p ∷ ps)))

  -- `column_positions` and `values`, as pairs, and the predicates. The number of pairs is a byte.
  unfoldable pub analyze_update :
      Database → UpdateStmt → Result (TableMeta × (List (ℕ × DataValue) × WhereFilter))
  unfolding analyze_changes analyze_where_conditions
  analyze_update db stmt = and_then (named_table db stmt.table) (λ t.
      and_then
        (analyze_changes t.schema.columns (take (length stmt.assignments % 256) stmt.assignments))
        (λ changes.
          and_then (analyze_where_conditions stmt.where_list t.schema)
            (λ filter. done (t, (changes, filter)))))
