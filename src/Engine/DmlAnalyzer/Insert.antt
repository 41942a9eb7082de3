-- ===== src/Engine/DmlAnalyzer/Insert.antt =====
-- The values that `analyze_insert` of src/engine/dml/analyzer.c gives a row.
use maxql.Prelude.{
  ℕ, zero, suc, ◌<◌, List, [], ◌∷◌, Option, none, some, ◌≡◌, refl, Bool-cases, inl, inr, length,
  get_elem?, set, replicate, All, All-get_elem?, ltb,
}
use maxql.Core.Error.{Error, err_analyzer}
use maxql.Core.Result.{Holds, Holds-and_then, Holds-if}
use maxql.Core.StrView.{sv_equal_cstr, sv_to_cstr}
use maxql.Parser.Ast.{Ident, Assignment, InsertStmt}
use maxql.Types.Value.{DataValue}
use maxql.Types.Compare.{strcmp}
use maxql.Types.Resolve.{is_eq}
use maxql.Types.Converter.{Strtof}
use maxql.Schema.Table.{Column, TableMeta}
use maxql.Schema.Columns.{IsColumn, FitsColumn, resolved_type_validate-Validated}
use maxql.Storage.Rows.{FitsRow}
use maxql.Database.{Database, database_table_by_name, table_named}
use maxql.Engine.Checks.{found, IsText, IsLiteral, validated-Fits, raw_value-IsLiteral}
use maxql.Engine.DmlAnalyzer.{
  next_column, find_column_index, no_column, no_table, convert_error, Slots, fill_defaults,
  named_table, analyze_assignment, assign_all, insert_values, analyze_insert,
}

-- An error of the analyzer.
abbrev pub IsAnalyzer : Error → Type 0
IsAnalyzer e = e.code ≡ err_analyzer

-- A column at its index.
abbrev pub At : List Column → ℕ × Column → Type 0
At columns p = get_elem? columns p.0 ≡ some p.1

abbrev AtIf : List Column → Option (ℕ × Column) → Type 0
AtIf columns none = Unit
AtIf columns (some p) = At columns p

next_column-AtIf :
    (columns : List Column) (c : Column) (o : Option (ℕ × Column))
    → AtIf columns o
    → AtIf (c ∷ columns) (next_column o)
next_column-AtIf columns c none h = tt
next_column-AtIf columns c (some p) h = h

find_column_index-AtIf :
    (columns : List Column) (name : Ident) → AtIf columns (find_column_index columns name)
unfolding find_column_index
find_column_index-AtIf [] name = tt
find_column_index-AtIf (c ∷ cs) name =
    let rest = next_column-AtIf cs c (find_column_index cs name) (find_column_index-AtIf cs name) in
    elim (Bool-cases (sv_equal_cstr name c.column_name)) [
      | inl same ↦ rw (find_column_index, same) refl
      | inr other ↦ rw (find_column_index, other) rest
    ]

found-At :
    (columns : List Column) (o : Option (ℕ × Column))
    → AtIf columns o
    → Holds IsAnalyzer (At columns) (found no_column o)
found-At columns none h = refl
found-At columns (some p) h = h

-- A name is resolved to a column at its index.
pub find_column_index-At :
    (columns : List Column) (name : Ident)
    → Holds IsAnalyzer (At columns) (found no_column (find_column_index columns name))
find_column_index-At columns name = found-At columns _ (find_column_index-AtIf columns name)

-- The values of the slots fit their columns.
abbrev FitsSlot : Column → Option DataValue → Type 0
FitsSlot c none = Unit
FitsSlot c (some v) = FitsColumn c v

abbrev FitsSlots : List Column → Slots → Type 0
FitsSlots [] slots = Unit
FitsSlots (c ∷ cs) [] = ⊥
FitsSlots (c ∷ cs) (s ∷ slots) = FitsSlot c s × FitsSlots cs slots

FitsSlots-set :
    (columns : List Column) (slots : Slots) (i : ℕ) {c : Column} (s : Option DataValue)
    → FitsSlots columns slots
    → get_elem? columns i ≡ some c
    → FitsSlot c s
    → FitsSlots columns (set slots i s)
FitsSlots-set [] slots i s h at k = tt
FitsSlots-set (d ∷ cs) [] i s h at k = h
FitsSlots-set (d ∷ cs) (t ∷ slots) zero {c} s h at k = let same : d ≡ c = cc in (rw (same) k, h.1)
FitsSlots-set (d ∷ cs) (t ∷ slots) (suc i) s h at k = (h.0, FitsSlots-set cs slots i s h.1 at k)

FitsSlots-none : (columns : List Column) → FitsSlots columns (replicate (length columns) none)
FitsSlots-none [] = tt
FitsSlots-none (c ∷ cs) = (tt, FitsSlots-none cs)

fill_defaults-FitsRow :
    (columns : List Column) (slots : Slots)
    → All IsColumn columns
    → FitsSlots columns slots
    → Holds IsAnalyzer (FitsRow columns) (fill_defaults columns slots)
fill_defaults-FitsRow [] slots h k = tt
fill_defaults-FitsRow (c ∷ cs) [] h k = k
fill_defaults-FitsRow (c ∷ cs) (some v ∷ slots) h k =
    Holds-and_then IsAnalyzer (FitsRow cs) (FitsRow (c ∷ cs)) (fill_defaults cs slots) _
      (fill_defaults-FitsRow cs slots h.1 k.1) (λ vs _ fits. (h.0.typed.entry, k.0, fits))
fill_defaults-FitsRow (c ∷ cs) (none ∷ slots) h k =
    Holds-if IsAnalyzer (FitsRow (c ∷ cs)) c.has_default _ _
      (λ has.
        Holds-and_then IsAnalyzer (FitsRow cs) (FitsRow (c ∷ cs)) (fill_defaults cs slots) _
          (fill_defaults-FitsRow cs slots h.1 k.1)
          (λ vs _ fits. (h.0.typed.entry, h.0.default has, fits)))
      (λ _. refl)

-- A table whose columns are as the resolution of types makes them.
abbrev pub IsMeta : TableMeta → Type 0
IsMeta t = All IsColumn t.schema.columns

named_or :
    (tables : List TableMeta) (name : List ℕ)
    → All IsMeta tables
    → Holds IsAnalyzer IsMeta (found no_table (table_named tables name))
unfolding table_named
named_or [] name h = refl
named_or (t ∷ ts) name h = elim (Bool-cases (is_eq (strcmp name t.name))) [
  | inl same ↦ rw (table_named, same) h.0
  | inr other ↦ rw (table_named, other) (named_or ts name h.1)
]

pub named_table-IsMeta :
    (db : Database) (table : Ident)
    → All IsMeta db.tables
    → Holds IsAnalyzer IsMeta (named_table db table)
unfolding named_table database_table_by_name
named_table-IsMeta db table h = named_or db.tables (sv_to_cstr table 32) h

-- An index with a value that fits the column there.
abbrev FitsAt : List Column → ℕ × DataValue → Type 0
FitsAt columns p = (c : Column) × (get_elem? columns p.0 ≡ some c) × FitsColumn c p.1

module _ (strtof : List ℕ → Strtof) (single : (s : List ℕ) → (strtof s).value < 4294967296) where
  analyze_assignment-FitsAt :
      (columns : List Column) (a : Assignment)
      → All IsColumn columns
      → IsText a.value
      → Holds IsAnalyzer (FitsAt columns) (analyze_assignment strtof columns a)
  unfolding analyze_assignment
  analyze_assignment-FitsAt columns a h text =
      Holds-and_then IsAnalyzer (At columns) (FitsAt columns) _ _
        (find_column_index-At columns a.column)
        (λ at _ here.
          Holds-and_then IsAnalyzer (IsLiteral a.value.type) (FitsAt columns) _ _
            (raw_value-IsLiteral IsAnalyzer convert_error refl strtof a.value single text)
            (λ v _ value.
              let typed = (All-get_elem? IsColumn columns at.0 h here).typed in
              Holds-and_then IsAnalyzer (FitsColumn at.1) (FitsAt columns) _ _
                (validated-Fits IsAnalyzer convert_error refl at.1.resolved_type _ v
                  (resolved_type_validate-Validated at.1.resolved_type v typed value.0))
                (λ w _ fits. (at.1, here, fits))))

  assign_all-FitsSlots :
      (columns : List Column) (as' : List Assignment) (slots : Slots)
      → All IsColumn columns
      → All (λ (a : Assignment). IsText a.value) as'
      → FitsSlots columns slots
      → Holds IsAnalyzer (FitsSlots columns) (assign_all strtof columns as' slots)
  unfolding assign_all
  assign_all-FitsSlots columns [] slots h texts fits = fits
  assign_all-FitsSlots columns (a ∷ as') slots h texts fits =
      Holds-and_then IsAnalyzer (FitsAt columns) (FitsSlots columns) _ _
        (analyze_assignment-FitsAt columns a h texts.0)
        (λ p _ at.
          assign_all-FitsSlots columns as' (set slots p.0 (some p.1)) h texts.1
            (FitsSlots-set columns slots p.0 (some p.1) fits at.1 at.2))

  pub insert_values-FitsRow :
      (columns : List Column) (as' : List Assignment)
      → All IsColumn columns
      → All (λ (a : Assignment). IsText a.value) as'
      → Holds IsAnalyzer (FitsRow columns) (insert_values strtof columns as')
  unfolding insert_values
  insert_values-FitsRow columns as' h texts =
      Holds-if IsAnalyzer (FitsRow columns) (ltb (length columns) (length as')) _ _ (λ _. refl)
        (λ _.
          Holds-and_then IsAnalyzer (FitsSlots columns) (FitsRow columns) _ _
            (assign_all-FitsSlots columns as' (replicate (length columns) none) h texts
              (FitsSlots-none columns))
            (λ slots _ fits. fill_defaults-FitsRow columns slots h fits))

  -- Where the columns of the tables are of the types of the table of types, with defaults that fit, and
  -- the literals are bytes, the analysis of an insert is never undefined: it refuses the statement with
  -- its own error code, or gives such a table and a value for each of its columns that fits the column.
  pub analyze_insert-FitsRow :
      (db : Database) (stmt : InsertStmt)
      → All IsMeta db.tables
      → All (λ (a : Assignment). IsText a.value) stmt.assignments
      → Holds IsAnalyzer
          (λ (p : TableMeta × List DataValue). IsMeta p.0 × FitsRow p.0.schema.columns p.1)
          (analyze_insert strtof db stmt)
  unfolding analyze_insert
  analyze_insert-FitsRow db stmt metas texts =
      Holds-and_then IsAnalyzer IsMeta _ _ _ (named_table-IsMeta db stmt.table metas)
        (λ t _ columns.
          Holds-and_then IsAnalyzer (FitsRow t.schema.columns) _ _ _
            (insert_values-FitsRow t.schema.columns stmt.assignments columns texts)
            (λ vs _ fits. (columns, fits)))
