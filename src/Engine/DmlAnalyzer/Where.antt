-- ===== src/Engine/DmlAnalyzer/Where.antt =====
-- The predicates of `analyze_where_conditions` of src/engine/dml/analyzer.c, on the rows of their table.
use maxql.Prelude.{
  ℕ, zero, suc, ◌%◌, ◌<◌, List, [], ◌∷◌, Bool, true, false, some, ◌≡◌, ◌≢◌, refl, sym, ap, ◌∙◌,
  Bool-cases, inl, inr, length, take, get_elem?, All, All-take, Ordering,
}
use mathlib.Core.Path.{subst}
use maxql.Core.Result.{Holds, Holds-and_then, Holds-if}
use maxql.Parser.Ast.{
  Condition, ConditionOp, op_unknown, op_equals, op_not_equals, op_less, op_less_or_equal,
  op_greater, op_great_or_equal,
}
use maxql.Types.Value.{
  ColumnType, type_int, type_varchar, type_char, type_binary, type_float, ValueType, null_type,
  int_type, string_type, binary_type, float_type, DataValue, value_null, value_int, value_string,
  value_binary, value_float, value_type,
}
use maxql.Types.Compare.{compare_value, compare_matches_op}
use maxql.Types.Mapper.{type_mapping}
use maxql.Types.Resolve.{same_type}
use maxql.Types.Converter.{Strtof}
use maxql.Types.Converter.Bounds.{IsValue}
use maxql.Schema.Table.{Column, TableSchema}
use maxql.Schema.Columns.{IsColumn}
use maxql.Storage.{StoredRow, deserialize_columns}
use maxql.Engine.DmlTypes.{WherePredicate, WhereFilter}
use maxql.Engine.DmlExecutor.{matches_where}
use maxql.Engine.DmlExecutor.Select.{IsTested}
use maxql.Engine.Checks.{IsText, IsLiteral, raw_value-IsLiteral}
use maxql.Engine.DmlAnalyzer.{
  view_error, analyze_condition, analyze_conditions, analyze_where_conditions,
}
use maxql.Engine.DmlAnalyzer.Insert.{IsAnalyzer, At, find_column_index-At}

-- Values of the types of their columns.
abbrev pub HasTypes : List Column → List DataValue → Type 0
HasTypes [] [] = Unit
HasTypes [] (v ∷ vs) = ⊥
HasTypes (c ∷ cs) [] = ⊥
HasTypes (c ∷ cs) (v ∷ vs) = (value_type v ≡ c.resolved_type.type_info.value_type) × HasTypes cs vs

-- What is read for a column has the type of the column.
value_type-deserialize :
    (c : ColumnType) (buf : List ℕ) (n : ℕ)
    → value_type ((type_mapping c).deserialize buf n).0 ≡ (type_mapping c).value_type
unfolding type_mapping
value_type-deserialize type_int buf n = refl
value_type-deserialize type_varchar buf n = refl
value_type-deserialize type_char buf n = refl
value_type-deserialize type_binary buf n = refl
value_type-deserialize type_float buf n = refl

pub deserialize_columns-HasTypes :
    (buf : List ℕ) (columns : List Column)
    → All IsColumn columns
    → HasTypes columns (deserialize_columns buf columns)
unfolding deserialize_columns
deserialize_columns-HasTypes buf [] h = tt
deserialize_columns-HasTypes buf (c ∷ cs) h =
    let rt = c.resolved_type in
    (
      subst (λ t. value_type (t.deserialize buf rt.byte_len).0 ≡ t.value_type) (sym h.0.typed.entry)
          (value_type-deserialize rt.type_info.column_type buf rt.byte_len),
      deserialize_columns-HasTypes _ cs h.1,
    )

HasTypes-get_elem? :
    (columns : List Column) (row : List DataValue) (i : ℕ) {c : Column}
    → HasTypes columns row
    → get_elem? columns i ≡ some c
    → (v : DataValue) × (get_elem? row i ≡ some v)
      × (value_type v ≡ c.resolved_type.type_info.value_type)
HasTypes-get_elem? [] row i h at = cc
HasTypes-get_elem? (d ∷ cs) [] i h at = absurd h
HasTypes-get_elem? (d ∷ cs) (v ∷ row) zero {c} h at =
    let same : d ≡ c = cc in
    (v, refl, h.0 ∙ ap (λ (e : Column). e.resolved_type.type_info.value_type) same)
HasTypes-get_elem? (d ∷ cs) (v ∷ row) (suc i) h at = HasTypes-get_elem? cs row i h.1 at

same_type-eq : (a b : ValueType) → same_type a b ≡ true → a ≡ b
same_type-eq null_type null_type h = refl
same_type-eq null_type int_type h = cc
same_type-eq null_type string_type h = cc
same_type-eq null_type binary_type h = cc
same_type-eq null_type float_type h = cc
same_type-eq int_type null_type h = cc
same_type-eq int_type int_type h = refl
same_type-eq int_type string_type h = cc
same_type-eq int_type binary_type h = cc
same_type-eq int_type float_type h = cc
same_type-eq string_type null_type h = cc
same_type-eq string_type int_type h = cc
same_type-eq string_type string_type h = refl
same_type-eq string_type binary_type h = cc
same_type-eq string_type float_type h = cc
same_type-eq binary_type null_type h = cc
same_type-eq binary_type int_type h = cc
same_type-eq binary_type string_type h = cc
same_type-eq binary_type binary_type h = refl
same_type-eq binary_type float_type h = cc
same_type-eq float_type null_type h = cc
same_type-eq float_type int_type h = cc
same_type-eq float_type string_type h = cc
same_type-eq float_type binary_type h = cc
same_type-eq float_type float_type h = refl

-- Values of one type compare.
compare_value-some :
    (v w : DataValue)
    → value_type v ≡ value_type w
    → IsValue w
    → (o : Ordering) × (compare_value v w ≡ some o)
unfolding compare_value
compare_value-some value_null value_null h k = absurd k
compare_value-some value_null (value_int b) h k = cc
compare_value-some value_null (value_string b) h k = cc
compare_value-some value_null (value_binary b) h k = cc
compare_value-some value_null (value_float b) h k = cc
compare_value-some (value_int a) value_null h k = absurd k
compare_value-some (value_int a) (value_int b) h k = (_, refl)
compare_value-some (value_int a) (value_string b) h k = cc
compare_value-some (value_int a) (value_binary b) h k = cc
compare_value-some (value_int a) (value_float b) h k = cc
compare_value-some (value_string a) value_null h k = absurd k
compare_value-some (value_string a) (value_int b) h k = cc
compare_value-some (value_string a) (value_string b) h k = (_, refl)
compare_value-some (value_string a) (value_binary b) h k = cc
compare_value-some (value_string a) (value_float b) h k = cc
compare_value-some (value_binary a) value_null h k = absurd k
compare_value-some (value_binary a) (value_int b) h k = cc
compare_value-some (value_binary a) (value_string b) h k = cc
compare_value-some (value_binary a) (value_binary b) h k = (_, refl)
compare_value-some (value_binary a) (value_float b) h k = cc
compare_value-some (value_float a) value_null h k = absurd k
compare_value-some (value_float a) (value_int b) h k = cc
compare_value-some (value_float a) (value_string b) h k = cc
compare_value-some (value_float a) (value_binary b) h k = cc
compare_value-some (value_float a) (value_float b) h k = (_, refl)

compare_matches_op-some :
    (op : ConditionOp) (o : Ordering)
    → op ≢ op_unknown
    → (b : Bool) × (compare_matches_op op o ≡ some b)
unfolding compare_matches_op
compare_matches_op-some op_unknown o h = absurd (h refl)
compare_matches_op-some op_equals o h = (_, refl)
compare_matches_op-some op_not_equals o h = (_, refl)
compare_matches_op-some op_less o h = (_, refl)
compare_matches_op-some op_less_or_equal o h = (_, refl)
compare_matches_op-some op_greater o h = (_, refl)
compare_matches_op-some op_great_or_equal o h = (_, refl)

-- A predicate on a column, with a value of the column's type.
pub record IsPredicate (columns : List Column) (p : WherePredicate) : Type 0 where
  pub column : Column
  pub here : get_elem? columns p.column_index ≡ some column
  pub typed : column.resolved_type.type_info.value_type ≡ value_type p.value
  pub literal : IsValue p.value
  pub known : p.op ≢ op_unknown

pub matches_where-IsTested :
    (columns : List Column) (ps : WhereFilter) (r : StoredRow)
    → All (IsPredicate columns) ps
    → HasTypes columns r.row
    → IsTested ps r
unfolding matches_where
matches_where-IsTested columns [] r h k = (true, refl)
matches_where-IsTested columns (p ∷ ps) r h k =
    let (v, at, type) = HasTypes-get_elem? columns r.row p.column_index k h.0.here in
    let (o, compared) = compare_value-some v p.value (type ∙ h.0.typed) h.0.literal in
    let (b, tested) = compare_matches_op-some p.op o h.0.known in
    let (rest, others) = matches_where-IsTested columns ps r h.1 k in
    elim (Bool-cases b) [
      | inl yes' ↦ (rest, rw (matches_where, at, compared, tested, yes', others) refl)
      | inr no' ↦ (false, rw (matches_where, at, compared, tested, no') refl)
    ]

-- A condition of the parser: its literal is bytes, and its operator is known.
pub record IsCondition (c : Condition) : Type 0 where
  pub text : IsText c.value
  pub known : c.op ≢ op_unknown

module _ (strtof : List ℕ → Strtof) (single : (s : List ℕ) → (strtof s).value < 4294967296) where
  analyze_condition-IsPredicate :
      (columns : List Column) (c : Condition)
      → IsCondition c
      → Holds IsAnalyzer (IsPredicate columns) (analyze_condition strtof columns c)
  unfolding analyze_condition
  analyze_condition-IsPredicate columns c h =
      Holds-and_then IsAnalyzer (At columns) (IsPredicate columns) _ _
        (find_column_index-At columns c.column)
        (λ at _ here.
          Holds-and_then IsAnalyzer (IsLiteral c.value.type) (IsPredicate columns) _ _
            (raw_value-IsLiteral IsAnalyzer view_error refl strtof c.value single h.text)
            (λ v _ value.
              Holds-if IsAnalyzer (IsPredicate columns)
                (same_type at.1.resolved_type.type_info.value_type (value_type v)) _ _
                (λ same. record {
                  column = at.1;
                  here = here;
                  typed = same_type-eq _ _ same;
                  literal = value.0;
                  known = h.known;
                })
                (λ _. refl)))

  analyze_conditions-IsPredicate :
      (columns : List Column) (cs : List Condition)
      → All IsCondition cs
      → Holds IsAnalyzer (All (IsPredicate columns)) (analyze_conditions strtof columns cs)
  unfolding analyze_conditions
  analyze_conditions-IsPredicate columns [] h = tt
  analyze_conditions-IsPredicate columns (c ∷ cs) h =
      Holds-and_then IsAnalyzer (IsPredicate columns) (All (IsPredicate columns)) _ _
        (analyze_condition-IsPredicate columns c h.0)
        (λ p _ made.
          Holds-and_then IsAnalyzer (All (IsPredicate columns)) (All (IsPredicate columns)) _ _
            (analyze_conditions-IsPredicate columns cs h.1) (λ ps _ rest. (made, rest)))

  -- The predicates are on columns of the table, with values of their types.
  pub analyze_where_conditions-IsPredicate :
      (cs : List Condition) (schema : TableSchema)
      → All IsCondition cs
      → Holds IsAnalyzer
          (All (IsPredicate schema.columns))
          (analyze_where_conditions strtof cs schema)
  unfolding analyze_where_conditions
  analyze_where_conditions-IsPredicate cs schema h =
      analyze_conditions-IsPredicate schema.columns (take (length cs % 256) cs)
        (All-take IsCondition (length cs % 256) cs h)
