-- ===== src/Engine/DmlPlanner.antt =====
-- src/engine/dml/planner.c: the choice of an index for the conditions of a statement. `none` is a type of
-- index that is not registered.
pub mod Conditions
pub mod Best
use maxql.Prelude.{
  ℕ, zero, suc, List, [], ◌∷◌, Bool, true, false, not, ◌&&◌, Option, none, some, length, ltb, ◌==◌,
  if◌then◌else◌,
}
use maxql.Parser.Ast.{ConditionOp}
use maxql.Schema.Table.{IndexType, IndexPart, IndexDefinition}
use maxql.Index.Registry.{IndexVTable, index_vtable, index_supports_op}
use maxql.Engine.DmlTypes.{
  WherePredicate, WhereFilter, IndexCondition, IndexDecision, SelectExecPlan, DeleteExecPlan,
  UpdateExecPlan,
}

abbrev pub no_decision : IndexDecision
no_decision = record { index_def = none; conditions = []; use_index = false }

abbrev pub with_decision : SelectExecPlan → IndexDecision → SelectExecPlan
with_decision plan d = record {
  query_column_order = plan.query_column_order;
  where_filter = plan.where_filter;
  index_decision = d;
  ignore_index = plan.ignore_index;
}

-- One round of the loop: the best score and index so far, after an index with its score.
abbrev pub better :
    {D : Type 0}
    → IndexVTable D
    → IndexDefinition
    → ℕ
    → ℕ × Option IndexDefinition
    → ℕ × Option IndexDefinition
better vt index_def score (max_score, best) =
    if vt.requires_full_match && not (score == length index_def.parts)
    then (max_score, best)
    else if ltb max_score score
    then (score, some index_def)
    else (max_score, best)

abbrev pub planned : SelectExecPlan → Option IndexDecision → Option SelectExecPlan
planned plan none = none
planned plan (some d) = some (with_decision plan d)

module _ {D : Type 0} (registry : List (IndexVTable D)) where
  -- The first predicate on the column, if the index supports its operator.
  unfoldable pub column_covered : ℕ → IndexType → WhereFilter → Option (Option WherePredicate)
  unfolding index_supports_op
  column_covered column_pos type [] = some none
  column_covered column_pos type (p ∷ ps) =
      let rest = column_covered column_pos type ps in
      if column_pos == p.column_index
      then elim (index_supports_op registry type p.op) [
        | none ↦ none
        | some b ↦ some (if b then some p else none)
      ]
      else rest

  -- The loop over the parts.
  unfoldable pub score_parts : List IndexPart → IndexType → WhereFilter → Option ℕ
  unfolding column_covered
  score_parts [] type where_filter = some 0
  score_parts (p ∷ ps) type where_filter = elim (column_covered p.column_pos type where_filter) [
    | none ↦ none
    | some none ↦ some 0
    | some (some _) ↦ elim (score_parts ps type where_filter) [
      | none ↦ none
      | some score ↦ some (suc score)
    ]
  ]

  unfoldable pub score_index : IndexDefinition → WhereFilter → Option ℕ
  unfolding score_parts
  score_index index_def where_filter = score_parts index_def.parts index_def.type where_filter

  unfoldable pub choose_loop :
      WhereFilter
      → List IndexDefinition
      → ℕ × Option IndexDefinition
      → Option (ℕ × Option IndexDefinition)
  unfolding score_index index_vtable
  choose_loop where_filter [] best = some best
  choose_loop where_filter (d ∷ ds) best = elim (score_index d where_filter) [
    | none ↦ none
    | some score ↦ elim (index_vtable registry d.type) [
      | none ↦ none
      | some vt ↦ choose_loop where_filter ds (better vt d score best)
    ]
  ]

  unfoldable pub choose_best_index :
      WhereFilter → List IndexDefinition → Option (Option IndexDefinition)
  unfolding choose_loop
  choose_best_index where_filter index_meta = elim (choose_loop where_filter index_meta (0, none)) [
    | none ↦ none
    | some best ↦ some best.1
  ]

  -- The loop over the parts, up to the first that is not covered.
  unfoldable pub fill_conditions :
      List IndexPart → IndexType → WhereFilter → Option (List IndexCondition)
  unfolding column_covered
  fill_conditions [] type where_filter = some []
  fill_conditions (p ∷ ps) type where_filter =
      elim (column_covered p.column_pos type where_filter) [
        | none ↦ none
        | some none ↦ some []
        | some (some predicate) ↦ elim (fill_conditions ps type where_filter) [
          | none ↦ none
          | some cs ↦ some (
              record { value = predicate.value; op = predicate.op; column_position = p.column_pos }
              ∷ cs)
        ]
      ]

  unfoldable pub fill_best_index : Option IndexDefinition → WhereFilter → Option IndexDecision
  unfolding fill_conditions
  fill_best_index none where_filter = some no_decision
  fill_best_index (some d) where_filter = elim (fill_conditions d.parts d.type where_filter) [
    | none ↦ none
    | some cs ↦ some (record { index_def = some d; conditions = cs; use_index = ltb 0 (length cs) })
  ]

  unfoldable pub select_best_index : WhereFilter → List IndexDefinition → Option IndexDecision
  unfolding choose_best_index fill_best_index
  select_best_index where_filter index_meta = elim (choose_best_index where_filter index_meta) [
    | none ↦ none
    | some best ↦ fill_best_index best where_filter
  ]

  -- The decision is in the plan already, with no index, when the statement says to ignore indexes.
  unfoldable pub plan_select : SelectExecPlan → List IndexDefinition → Option SelectExecPlan
  unfolding select_best_index
  plan_select plan index_meta =
      if plan.ignore_index
      then some plan
      else planned plan (select_best_index plan.where_filter index_meta)

  unfoldable pub plan_delete : DeleteExecPlan → List IndexDefinition → Option DeleteExecPlan
  unfolding select_best_index
  plan_delete plan index_meta = elim (select_best_index plan.where_filter index_meta) [
    | none ↦ none
    | some d ↦ some (record { where_filter = plan.where_filter; index_decision = d })
  ]

  unfoldable pub plan_update : UpdateExecPlan → List IndexDefinition → Option UpdateExecPlan
  unfolding select_best_index
  plan_update plan index_meta = elim (select_best_index plan.where_filter index_meta) [
    | none ↦ none
    | some d ↦ some (record {
      values = plan.values;
      column_positions = plan.column_positions;
      where_filter = plan.where_filter;
      index_decision = d;
    })
  ]
