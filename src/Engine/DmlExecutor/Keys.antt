-- ===== src/Engine/DmlExecutor/Keys.antt =====
-- A row that matches the conditions of a statement in src/engine/dml/executor.c has the key that an index
-- is searched with.
use maxql.Prelude.{
  List, [], ◌∷◌, Bool, true, false, none, some, ◌≡◌, inl, inr, refl, sym, ap, ◌∙◌, arith, All, map,
  length, get_elem?, Ordering, Option-cases,
}
use Prim.Native.Nat.Ordering.{lt, eq, gt}
use maxql.Parser.Ast.{ConditionOp, op_equals}
use maxql.Types.Value.{DataValue}
use maxql.Types.Compare.{compare_value, compare_matches_op}
use maxql.Schema.Table.{IndexType, IndexPart, IndexDefinition}
use maxql.Storage.{append_bytes}
use maxql.Index.Registry.{IndexVTable, index_vtable, index_supports_op}
use maxql.Index.Keys.{prepare_values, part_bytes, parts_bytes, prepare_index_key, row_key}
use maxql.Index.Keys.Equal.{IsBitwise, part_bytes-eq}
use maxql.Engine.DmlTypes.{WherePredicate, WhereFilter, IndexCondition}
use maxql.Engine.DmlPlanner.Conditions.{Among, IsCondition, AreConditions}
use maxql.Engine.DmlExecutor.{matches_where}

-- A value of the row that compares with a predicate's as the predicate says.
pub record Satisfies (row : List DataValue) (p : WherePredicate) : Type 0 where
  pub value : DataValue
  pub there : get_elem? row p.column_index ≡ some value
  pub order : Ordering
  pub compared : compare_value value p.value ≡ some order
  pub accepted : compare_matches_op p.op order ≡ some true

matches_where-cons :
    (row : List DataValue) (p : WherePredicate) (ps : WhereFilter)
    → matches_where row (p ∷ ps) ≡ some true
    → Satisfies row p × (matches_where row ps ≡ some true)
unfolding matches_where
matches_where-cons row p ps h = elim (Option-cases (get_elem? row p.column_index)) [
  | inl e ↦ let stuck : none ≡ some true = rw (matches_where, e) at h in cc
  | inr (v, e) ↦ elim (Option-cases (compare_value v p.value)) [
    | inl e₂ ↦ let stuck : none ≡ some true = rw (matches_where, e, e₂) at h in cc
    | inr (c, e₂) ↦ elim (Option-cases (compare_matches_op p.op c)) [
      | inl e₃ ↦ let stuck : none ≡ some true = rw (matches_where, e, e₂, e₃) at h in cc
      | inr (b, e₃) ↦ go v c b e e₂ e₃ (rw (matches_where, e, e₂, e₃) at h)
    ]
  ]
]
  where
    go :
        (v : DataValue) (c : Ordering) (b : Bool)
        → get_elem? row p.column_index ≡ some v
        → compare_value v p.value ≡ some c
        → compare_matches_op p.op c ≡ some b
        → elim b [ true ↦ matches_where row ps | false ↦ some false ] ≡ some true
        → Satisfies row p × (matches_where row ps ≡ some true)
    go v c true e e₂ e₃ k =
        (record { value = v; there = e; order = c; compared = e₂; accepted = e₃ }, k)
    go v c false e e₂ e₃ k = cc

matches_where-Among :
    (row : List DataValue) (ps : WhereFilter) (p : WherePredicate)
    → matches_where row ps ≡ some true
    → Among p ps
    → Satisfies row p
matches_where-Among row [] p h a = absurd a
matches_where-Among row (q ∷ ps) p h (inl same) = rw (← same) (matches_where-cons row q ps h).0
matches_where-Among row (q ∷ ps) p h (inr a) =
    matches_where-Among row ps p (matches_where-cons row q ps h).1 a

eq_of_accepted : (c : Ordering) → compare_matches_op op_equals c ≡ some true → c ≡ eq
unfolding compare_matches_op
eq_of_accepted lt h = cc
eq_of_accepted eq h = refl
eq_of_accepted gt h = cc

pub IsBitwise-Among :
    (ps : WhereFilter) (p : WherePredicate)
    → All (λ q. IsBitwise q.value) ps
    → Among p ps
    → IsBitwise p.value
IsBitwise-Among [] p h a = absurd a
IsBitwise-Among (q ∷ ps) p h (inl same) = rw (← same) h.0
IsBitwise-Among (q ∷ ps) p h (inr a) = IsBitwise-Among ps p h.1 a

module _ {D : Type 0} (registry : List (IndexVTable D)) (vt : IndexVTable D)
    (equality : (op : ConditionOp) → vt.supports_op op ≡ true → op ≡ op_equals) where
  part_of_condition :
      (where_filter : WhereFilter) (row : List DataValue) (type : IndexType) (p : IndexPart)
      (c : IndexCondition)
      → index_vtable registry type ≡ some vt
      → All (λ q. IsBitwise q.value) where_filter
      → matches_where row where_filter ≡ some true
      → IsCondition registry where_filter type p c
      → (v : DataValue) × (get_elem? row p.column_pos ≡ some v)
        × (part_bytes p v ≡ part_bytes p c.value)
  unfolding index_supports_op
  part_of_condition where_filter row type p c reg bits h i =
      let s = matches_where-Among row where_filter i.predicate h i.among in
      let can : some (vt.supports_op c.op) ≡ some true =
        rw (index_supports_op, reg) at i.supported in
      let op : c.op ≡ op_equals = equality c.op (cc) in
      let op' : i.predicate.op ≡ op_equals = sym i.same_op ∙ op in
      let is_eq : s.order ≡ eq =
        eq_of_accepted s.order (ap (λ o. compare_matches_op o s.order) (sym op') ∙ s.accepted) in
      (
        s.value,
        ap (get_elem? row) (sym i.on_column) ∙ s.there,
        part_bytes-eq p s.value i.predicate.value
              (IsBitwise-Among where_filter i.predicate bits i.among) (s.compared ∙ ap some is_eq)
            ∙ ap (part_bytes p) (sym i.same_value),
      )

  parts_of_conditions :
      (where_filter : WhereFilter) (row : List DataValue) (type : IndexType) (ps : List IndexPart)
      (cs : List IndexCondition)
      → index_vtable registry type ≡ some vt
      → All (λ q. IsBitwise q.value) where_filter
      → matches_where row where_filter ≡ some true
      → AreConditions registry where_filter type ps cs
      → length cs ≡ length ps
      → (vs : List DataValue) × (prepare_values ps row ≡ some vs)
        × (parts_bytes ps vs ≡ parts_bytes ps (map (λ (c : IndexCondition). c.value) cs))
  unfolding prepare_values parts_bytes
  parts_of_conditions where_filter row type [] [] reg bits h are full = ([], refl, refl)
  parts_of_conditions where_filter row type [] (c ∷ cs) reg bits h are full = absurd are
  parts_of_conditions where_filter row type (p ∷ ps) [] reg bits h are full = absurd (omega arith)
  parts_of_conditions where_filter row type (p ∷ ps) (c ∷ cs) reg bits h are full =
      let (v, there, same) = part_of_condition where_filter row type p c reg bits h are.0 in
      let (vs, made, bytes) =
        parts_of_conditions where_filter row type ps cs reg bits h are.1 (omega arith) in
      (
        v ∷ vs,
        rw (prepare_values, there, made) refl,
        ap (λ t. append_bytes t (parts_bytes ps vs)) same
            ∙ ap (λ t. append_bytes (part_bytes p c.value) t) bytes,
      )

  -- The key of a row that matches is the one that the index is searched with.
  pub row_key-conditions :
      (where_filter : WhereFilter) (row : List DataValue) (index_def : IndexDefinition)
      (cs : List IndexCondition)
      → index_vtable registry index_def.type ≡ some vt
      → All (λ q. IsBitwise q.value) where_filter
      → matches_where row where_filter ≡ some true
      → AreConditions registry where_filter index_def.type index_def.parts cs
      → length cs ≡ length index_def.parts
      → row_key index_def row
        ≡ prepare_index_key index_def (map (λ (c : IndexCondition). c.value) cs)
  unfolding row_key prepare_index_key
  row_key-conditions where_filter row index_def cs reg bits h are full =
      let (vs, made, bytes) =
        parts_of_conditions where_filter row index_def.type index_def.parts cs reg bits h are
          full in
      rw (row_key, made, prepare_index_key, bytes) refl
