-- ===== src/Engine/DmlAnalyzer/Select.antt =====
-- What `analyze_select` of src/engine/dml/analyzer.c makes, executed by src/engine/dml/executor.c.
use maxql.Prelude.{
  ℕ, suc, ◌+◌, ◌%◌, ◌≤◌, ◌<◌, List, [], ◌∷◌, Bool, true, false, some, ◌≡◌, refl, ap, ◌∙◌, arith,
  length, take, All, All-imp, get_elem?-lt, get_elem?-some,
}
use maxql.Core.Result.{Holds, Holds-and_then}
use maxql.Parser.Ast.{Ident, SelectStmt}
use maxql.Types.Value.{DataValue}
use maxql.Types.Converter.{Strtof}
use maxql.Schema.Table.{Column, TableSchema, TableMeta}
use maxql.Schema.Columns.{IsColumn}
use maxql.Storage.{StoredRow, deserialize_row_data}
use maxql.Storage.Slots.{Slot, kept, removed, live_rows}
use maxql.Scan.{push_row}
use maxql.Scan.Writes.{IsData, scan_data}
use maxql.Database.{Database}
use maxql.Engine.DmlTypes.{WhereFilter, SelectExecPlan}
use maxql.Engine.DmlPlanner.{no_decision}
use maxql.Engine.DmlExecutor.{
  Table, matches_where, keep_row, matching_rows, shown_values, shown_rows, show_matching,
  select_from, row_source, execute_select,
}
use maxql.Engine.DmlExecutor.Select.{IsTested}
use maxql.Engine.DmlAnalyzer.{column_indexes, indexes_from, analyze_select_columns, analyze_select}
use maxql.Engine.DmlAnalyzer.Insert.{
  IsAnalyzer, At, find_column_index-At, IsMeta, named_table-IsMeta,
}
use maxql.Engine.DmlAnalyzer.Where.{
  HasTypes, deserialize_columns-HasTypes, IsPredicate, matches_where-IsTested, IsCondition,
  analyze_where_conditions-IsPredicate,
}

-- The columns that are shown are columns of the table.
abbrev pub AreIndexes : List Column → List ℕ → Type 0
AreIndexes columns is = All (λ i. i < length columns) is

indexes_from-lt :
    (i n : ℕ) (columns : List Column)
    → i + length columns ≤ n
    → All (λ j. j < n) (indexes_from i columns)
indexes_from-lt i n [] h = tt
indexes_from-lt i n (c ∷ cs) h = (omega (arith, h), indexes_from-lt (suc i) n cs (omega (arith, h)))

column_indexes-AreIndexes :
    (columns : List Column) (names : List Ident)
    → Holds IsAnalyzer (AreIndexes columns) (column_indexes columns names)
unfolding column_indexes
column_indexes-AreIndexes columns [] = tt
column_indexes-AreIndexes columns (n ∷ ns) =
    Holds-and_then IsAnalyzer (At columns) (AreIndexes columns) _ _ (find_column_index-At columns n)
      (λ at _ here.
        Holds-and_then IsAnalyzer (AreIndexes columns) (AreIndexes columns) _ _
          (column_indexes-AreIndexes columns ns)
          (λ is _ rest. (get_elem?-lt columns at.0 here, rest)))

analyze_select_columns-AreIndexes :
    (names : List Ident) (schema : TableSchema)
    → Holds IsAnalyzer (AreIndexes schema.columns) (analyze_select_columns names schema)
unfolding analyze_select_columns
analyze_select_columns-AreIndexes [] schema =
    indexes_from-lt 0 (length schema.columns) schema.columns (omega arith)
analyze_select_columns-AreIndexes (n ∷ ns) schema =
    column_indexes-AreIndexes schema.columns (take (length (n ∷ ns) % 256) (n ∷ ns))

-- The rows of a file have the types of its columns.
live_rows-HasTypes :
    (schema : TableSchema) (slots : List Slot) (pos : ℕ)
    → All IsColumn schema.columns
    → All (λ (r : StoredRow). HasTypes schema.columns r.row) (live_rows schema pos slots)
unfolding live_rows deserialize_row_data
live_rows-HasTypes schema [] pos h = tt
live_rows-HasTypes schema (removed bs ∷ ss) pos h = live_rows-HasTypes schema ss _ h
live_rows-HasTypes schema (kept bs ∷ ss) pos h =
    (deserialize_columns-HasTypes bs schema.columns h, live_rows-HasTypes schema ss _ h)

HasTypes-length :
    (columns : List Column) (row : List DataValue)
    → HasTypes columns row
    → length row ≡ length columns
HasTypes-length [] [] h = refl
HasTypes-length [] (v ∷ vs) h = absurd h
HasTypes-length (c ∷ cs) [] h = absurd h
HasTypes-length (c ∷ cs) (v ∷ vs) h = ap suc (HasTypes-length cs vs h.1)

shown_values-some :
    (order : List ℕ) (row : List DataValue)
    → All (λ i. i < length row) order
    → (vs : List DataValue) × (shown_values order row ≡ some vs)
unfolding shown_values
shown_values-some [] row h = ([], refl)
shown_values-some (i ∷ is) row h =
    let (v, at) = get_elem?-some row i h.0 in
    let (vs, rest) = shown_values-some is row h.1 in (v ∷ vs, rw (shown_values, at, rest) refl)

module _ (schema : TableSchema) (order : List ℕ) (ps : WhereFilter)
    (indexes : AreIndexes schema.columns order)
    (predicates : All (IsPredicate schema.columns) ps) where
  abbrev Typed : List StoredRow → Type 0
  Typed rows = All (λ (r : StoredRow). HasTypes schema.columns r.row) rows

  matching_rows-some :
      (rows : List StoredRow)
      → Typed rows
      → (ms : List StoredRow) × (matching_rows ps rows ≡ some ms) × Typed ms
  unfolding matching_rows
  matching_rows-some [] h = ([], refl, tt)
  matching_rows-some (r ∷ rs) h =
      let (b, tested) = matches_where-IsTested schema.columns ps r predicates h.0 in
      let (ms, rest, typed) = matching_rows-some rs h.1 in go b tested ms rest typed
    where
      go :
          (b : Bool)
          → matches_where r.row ps ≡ some b
          → (ms : List StoredRow) → matching_rows ps rs ≡ some ms
          → Typed ms
          → (ms' : List StoredRow) × (keep_row (matches_where r.row ps) r (matching_rows ps rs)
              ≡ some ms')
            × Typed ms'
      go true tested ms rest typed = (
        r ∷ ms,
        ap (λ o. keep_row o r (matching_rows ps rs)) tested ∙ ap (push_row r) rest,
        (h.0, typed),
      )
      go false tested ms rest typed =
          (ms, ap (λ o. keep_row o r (matching_rows ps rs)) tested ∙ rest, typed)

  shown_rows-some :
      (rows : List StoredRow)
      → Typed rows
      → (shown : List (List DataValue)) × (shown_rows order rows ≡ some shown)
  unfolding shown_rows
  shown_rows-some [] h = ([], refl)
  shown_rows-some (r ∷ rs) h =
      let len = HasTypes-length schema.columns r.row h.0 in
      let (vs, now) =
        shown_values-some order r.row (All-imp (λ i lt'. omega (arith, lt', len)) order indexes) in
      let (shown, rest) = shown_rows-some rs h.1 in (vs ∷ shown, rw (shown_rows, now, rest) refl)

  select_from-some :
      (plan : SelectExecPlan) (rows : List StoredRow)
      → plan.query_column_order ≡ order
      → plan.where_filter ≡ ps
      → Typed rows
      → (shown : List (List DataValue)) × (select_from plan (some rows) ≡ some shown)
  unfolding select_from show_matching
  select_from-some plan rows same_order same_filter h =
      let (ms, matched, typed) = matching_rows-some rows h in
      let (shown, all) = shown_rows-some ms typed in
      (
        shown,
        ap (λ o. show_matching o (matching_rows plan.where_filter rows)) same_order
            ∙ ap (λ f. show_matching order (matching_rows f rows)) same_filter
            ∙ ap (show_matching order) matched
            ∙ all,
      )

-- The plan of an analysed select before it is planned.
abbrev pub select_plan : SelectStmt → List ℕ → WhereFilter → SelectExecPlan
select_plan stmt order ps = record {
  query_column_order = order;
  where_filter = ps;
  index_decision = no_decision;
  ignore_index = stmt.ignore_index;
}

module _ (D : Type 0) where
  -- The plan shows rows of any table with whole rows in its file, and can test each of them.
  abbrev pub Shows : SelectStmt → TableMeta × (List ℕ × WhereFilter) → Type 0
  Shows stmt (meta, (order, ps)) =
      (t : Table D) (d : IsData t.file)
      → All (IsTested ps) (live_rows meta.schema 0 d.slots)
        × ((shown : List (List DataValue)) × (execute_select meta.schema t
                (select_plan stmt order ps)
              ≡ some shown))

  select_plan-Shows :
      (stmt : SelectStmt) (meta : TableMeta) (order : List ℕ) (ps : WhereFilter)
      → IsMeta meta
      → AreIndexes meta.schema.columns order
      → All (IsPredicate meta.schema.columns) ps
      → Shows stmt (meta, (order, ps))
  unfolding execute_select row_source
  select_plan-Shows stmt meta order ps columns indexes predicates t d =
      let schema = meta.schema in
      let typed = live_rows-HasTypes schema d.slots 0 columns in
      let (shown, all) =
        select_from-some schema order ps indexes predicates (select_plan stmt order ps)
          (live_rows schema 0 d.slots) refl refl typed in
      (
        All-imp (λ r h. matches_where-IsTested schema.columns ps r predicates h)
            (live_rows schema 0 d.slots) typed,
        (shown, ap (select_from (select_plan stmt order ps)) (scan_data schema d) ∙ all),
      )

module _ (D : Type 0) (strtof : List ℕ → Strtof)
    (single : (s : List ℕ) → (strtof s).value < 4294967296) where
  -- Where the columns of the tables are of the types of the table of types, and the conditions have
  -- literals that are bytes and known operators, the analysis of a select refuses it with its own error
  -- code, or gives a plan that never reads another member of a union than the one stored: for each file
  -- of whole rows its conditions can be tested on each row, and its execution by a scan shows rows.
  pub analyze_select-Shows :
      (db : Database) (stmt : SelectStmt)
      → All IsMeta db.tables
      → All IsCondition stmt.where_list
      → Holds IsAnalyzer (Shows D stmt) (analyze_select strtof db stmt)
  unfolding analyze_select
  analyze_select-Shows db stmt metas conditions =
      Holds-and_then IsAnalyzer IsMeta (Shows D stmt) _ _ (named_table-IsMeta db stmt.table metas)
        (λ t _ columns.
          Holds-and_then IsAnalyzer (AreIndexes t.schema.columns) (Shows D stmt) _ _
            (analyze_select_columns-AreIndexes stmt.columns t.schema)
            (λ order _ indexes.
              Holds-and_then IsAnalyzer (All (IsPredicate t.schema.columns)) (Shows D stmt) _ _
                (analyze_where_conditions-IsPredicate strtof single stmt.where_list t.schema
                  conditions)
                (λ ps _ predicates.
                  select_plan-Shows D stmt t order ps columns indexes predicates)))
