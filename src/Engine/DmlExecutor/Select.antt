-- ===== src/Engine/DmlExecutor/Select.antt =====
-- Which rows of a table match when an index finds one, in src/engine/dml/executor.c.
use maxql.Prelude.{
  ℕ, List, [], ◌∷◌, Bool, true, false, Option, none, some, ◌≡◌, ◌≢◌, ◌⊎◌, Ordering, inl, inr, refl,
  sym, ap, ◌∙◌, arith, All, map,
}
use Prim.Native.Nat.Ordering.{lt, eq, gt}
use maxql.Btree.Order.{Key, KeyComparator, IsKeyOrder, eq_symm}
use maxql.Schema.Table.{TableSchema, IndexDefinition}
use maxql.Storage.{StoredRow, storage_load_row}
use maxql.Scan.{drain, push_row}
use maxql.Scan.IndexScan.{init_index_scan_state, index_scan_next, scan_index}
use maxql.Index.Keys.{Index, row_key, prepare_index_key}
use maxql.Index.Mirror.{find_row, find_row-eq, put_key, KeysApart}
use maxql.Engine.DmlTypes.{WhereFilter, IndexCondition}
use maxql.Engine.DmlPlanner.Conditions.{Among}
use maxql.Engine.DmlExecutor.{matches_where, keep_row, matching_rows}

-- The conditions can be tested on a row.
abbrev pub IsTested : WhereFilter → StoredRow → Type 0
IsTested where_filter r = (b : Bool) × (matches_where r.row where_filter ≡ some b)

eq-cases : (c : Ordering) → (c ≡ eq) ⊎ (c ≢ eq)
eq-cases lt = inr (λ h. cc)
eq-cases eq = inl refl
eq-cases gt = inr (λ h. cc)

module _ (where_filter : WhereFilter) where
  matching_rows-hit :
      (r : StoredRow) (rs : List StoredRow)
      → matches_where r.row where_filter ≡ some true
      → matching_rows where_filter (r ∷ rs) ≡ push_row r (matching_rows where_filter rs)
  unfolding matching_rows
  matching_rows-hit r rs h = rw (matching_rows, h) refl

  matching_rows-miss :
      (r : StoredRow) (rs : List StoredRow)
      → matches_where r.row where_filter ≡ some false
      → matching_rows where_filter (r ∷ rs) ≡ matching_rows where_filter rs
  unfolding matching_rows
  matching_rows-miss r rs h = rw (matching_rows, h) refl

module _ (where_filter : WhereFilter) (index_def : IndexDefinition) (compare : KeyComparator)
    (o : IsKeyOrder compare) (q : Key)
    (hit : (r : StoredRow)
      → matches_where r.row where_filter ≡ some true
      → row_key index_def r.row ≡ some q) where
  -- What the index finds and what matches: nothing, or one row.
  abbrev pub Answer : List StoredRow → Type 0
  Answer rows =
      ((find_row index_def compare q rows ≡ none) × (matching_rows where_filter rows ≡ some []))
      ⊎ ((r : StoredRow) × Among r rows
          × (find_row index_def compare q rows ≡ some r.offset)
          × (matching_rows where_filter rows ≡ matching_rows where_filter (r ∷ [])))

  put_key-eq :
      (key : Key) (offset : ℕ) (before : Option ℕ)
      → compare q key ≡ eq
      → put_key compare key offset q before ≡ some offset
  put_key-eq key offset before h = ground arith

  put_key-ne :
      (key : Key) (offset : ℕ) (before : Option ℕ)
      → compare q key ≢ eq
      → put_key compare key offset q before ≡ before
  put_key-ne key offset before h = ground arith

  matching_rows-alone :
      (r : StoredRow) (rs : List StoredRow)
      → matching_rows where_filter rs ≡ some []
      → matching_rows where_filter (r ∷ rs) ≡ matching_rows where_filter (r ∷ [])
  unfolding matching_rows
  matching_rows-alone r rs h = ap (keep_row (matches_where r.row where_filter) r) h

  -- A row with an equal key is the answer.
  Answer-here :
      (r : StoredRow) (rs : List StoredRow) (key : Key)
      → row_key index_def r.row ≡ some key
      → find_row index_def compare key rs ≡ none
      → compare q key ≡ eq
      → Answer rs
      → Answer (r ∷ rs)
  unfolding find_row
  Answer-here r rs key made alone same (inl (absent, empty)) = inr (
    r,
    inl refl,
    rw (find_row, made) (put_key-eq key r.offset _ same),
    matching_rows-alone r rs empty,
  )
  Answer-here r rs key made alone same (inr (r', among, found, m)) =
      let absent = find_row-eq index_def compare o key q rs (eq_symm compare o q key same) alone in
      cc

  -- A row with another key does not match, and is not the answer.
  Answer-cons :
      (r : StoredRow) (rs : List StoredRow) (key : Key) (b : Bool)
      → row_key index_def r.row ≡ some key
      → matches_where r.row where_filter ≡ some b
      → compare q key ≢ eq
      → Answer rs
      → Answer (r ∷ rs)
  unfolding find_row
  Answer-cons r rs key true made test other rest =
      let both : some q ≡ some key = sym (hit r test) ∙ made in
      let same : q ≡ key = cc in absurd (other (ap (compare q) (sym same) ∙ o.compare_refl q))
  Answer-cons r rs key false made test other (inl (absent, empty)) = inl (
    rw (find_row, made) (put_key-ne key r.offset _ other ∙ absent),
    matching_rows-miss where_filter r rs test ∙ empty,
  )
  Answer-cons r rs key false made test other (inr (r', among, found, m)) = inr (
    r',
    inr among,
    rw (find_row, made) (put_key-ne key r.offset _ other ∙ found),
    matching_rows-miss where_filter r rs test ∙ m,
  )

  pub find_row-Answer :
      (rows : List StoredRow)
      → KeysApart index_def compare rows
      → All (IsTested where_filter) rows
      → Answer rows
  unfolding find_row matching_rows
  find_row-Answer [] apart tested = inl (refl, refl)
  find_row-Answer (r ∷ rs) ((key, made, alone), apart) ((b, test), tested) =
      let rest = find_row-Answer rs apart tested in
      elim (eq-cases (compare q key)) [
        | inl same ↦ Answer-here r rs key made alone same rest
        | inr other ↦ Answer-cons r rs key b made test other rest
      ]

-- The rows of an index scan.
pub scan_index-none :
    {D : Type 0} (file : List ℕ) (schema : TableSchema) (index : Index D) (cs : List IndexCondition)
    (q : Key)
    → prepare_index_key index.index_def (map (λ (c : IndexCondition). c.value) cs) ≡ some q
    → index.vtable.search_stream index.tree q ≡ some none
    → scan_index file schema index cs ≡ some []
unfolding scan_index init_index_scan_state index_scan_next drain
scan_index-none file schema index cs q made absent =
    rw (scan_index, init_index_scan_state, made, absent) refl

pub scan_index-some :
    {D : Type 0} (file : List ℕ) (schema : TableSchema) (index : Index D) (cs : List IndexCondition)
    (q : Key) (r : StoredRow) (next : ℕ)
    → prepare_index_key index.index_def (map (λ (c : IndexCondition). c.value) cs) ≡ some q
    → index.vtable.search_stream index.tree q ≡ some (some r.offset)
    → storage_load_row file schema r.offset ≡ some (some r.row, next)
    → scan_index file schema index cs ≡ some (r ∷ [])
unfolding scan_index init_index_scan_state index_scan_next drain
scan_index-some file schema index cs q r next made found loaded =
    rw (scan_index, init_index_scan_state, made, found, drain, index_scan_next, loaded) refl
