-- ===== src/Engine/DmlTypes.antt =====
-- include/maxql/engine/dml/types.h and include/maxql/scan/scan_types.h. An array with its count is the
-- list of the elements in use.
use maxql.Prelude.{ℕ, List, Bool, Option}
use maxql.Parser.Ast.{ConditionOp}
use maxql.Types.Value.{DataValue}
use maxql.Schema.Table.{IndexDefinition}

pub record WherePredicate : Type 0 where
  pub column_index : ℕ
  pub value : DataValue
  pub op : ConditionOp

abbrev pub WhereFilter : Type 0
WhereFilter = List WherePredicate

-- `index_conditions`, `values` and `column_positions` at one part of the index.
pub record IndexCondition : Type 0 where
  pub value : DataValue
  pub op : ConditionOp
  pub column_position : ℕ

pub record IndexDecision : Type 0 where
  pub index_def : Option IndexDefinition
  pub conditions : List IndexCondition
  pub use_index : Bool

pub record SelectExecPlan : Type 0 where
  pub query_column_order : List ℕ
  pub where_filter : WhereFilter
  pub index_decision : IndexDecision
  pub ignore_index : Bool

pub record DeleteExecPlan : Type 0 where
  pub where_filter : WhereFilter
  pub index_decision : IndexDecision

pub record UpdateExecPlan : Type 0 where
  pub values : List DataValue
  pub column_positions : List ℕ
  pub where_filter : WhereFilter
  pub index_decision : IndexDecision
