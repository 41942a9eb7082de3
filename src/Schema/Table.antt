-- ===== src/Schema/Table.antt =====
-- include/maxql/schema/schema.h, include/maxql/index/index_types.h, include/maxql/database/database.h
-- and src/schema/schema.c. An array with its count is the list of the elements in use.
use maxql.Prelude.{ℕ, zero, suc, List, [], ◌∷◌, Bool, Option, none, some, if◌then◌else◌}
use maxql.Btree.Order.{KeyComparator}
use maxql.Types.Compare.{strcmp}
use maxql.Types.Value.{ValueType, DataValue}
use maxql.Types.Resolve.{ResolvedType, is_eq}

pub record Column : Type 0 where
  pub column_name : List ℕ
  pub resolved_type : ResolvedType
  pub has_default : Bool
  pub default_value : DataValue

pub record TableSchema : Type 0 where
  pub table_name : List ℕ
  pub columns : List Column

pub data IndexType : Type 0 where
  index_btree index_hash : IndexType

-- One part of an index: `columns`, `column_pos`, `part_len`, `part_type` and `part_compare` at it.
pub record IndexPart : Type 0 where
  pub column : List ℕ
  pub column_pos : ℕ
  pub part_len : ℕ
  pub part_type : ValueType
  pub part_compare : ℕ → KeyComparator

pub record IndexDefinition : Type 0 where
  pub name : List ℕ
  pub type : IndexType
  pub node_size : ℕ
  pub key_size : ℕ
  pub is_unique : Bool
  pub parts : List IndexPart

pub record TableMeta : Type 0 where
  pub name : List ℕ
  pub schema : TableSchema
  pub index_meta : List IndexDefinition

abbrev pub next_pos : Option ℕ → Option ℕ
next_pos none = none
next_pos (some i) = some (suc i)

-- The loop over the columns, by the index from the first of them.
unfoldable pub column_pos_in : List Column → List ℕ → Option ℕ
unfolding strcmp
column_pos_in [] name = none
column_pos_in (c ∷ cs) name =
    let rest = column_pos_in cs name in
    if is_eq (strcmp name c.column_name) then some 0 else next_pos rest

unfoldable pub table_column_pos : TableSchema → List ℕ → Option ℕ
unfolding column_pos_in
table_column_pos schema name = column_pos_in schema.columns name

unfoldable pub get_index_def : List IndexDefinition → List ℕ → Option IndexDefinition
unfolding strcmp
get_index_def [] name = none
get_index_def (d ∷ ds) name = if is_eq (strcmp d.name name) then some d else get_index_def ds name

-- The definitions behind the position move down by one.
unfoldable pub schema_remove_index_def : ℕ → List IndexDefinition → List IndexDefinition
schema_remove_index_def pos [] = []
schema_remove_index_def zero (d ∷ ds) = ds
schema_remove_index_def (suc pos) (d ∷ ds) = d ∷ schema_remove_index_def pos ds
