-- ===== src/Index/Registry.antt =====
-- include/maxql/index/index.h and the registry in src/index/index.c. `D` is what the data pointer of an
-- index points to; `load` and
-- `search_stream` are given what `save` writes of the data; the other operations on files are not in the
-- table of functions here.
use maxql.Prelude.{ℕ, List, [], ◌∷◌, ◌++◌, Bool, true, false, Option, none, some, if◌then◌else◌}
use maxql.Btree.Order.{Key}
use maxql.Parser.Ast.{ConditionOp}
use maxql.Types.Compare.{strcmp}
use maxql.Types.Resolve.{is_eq}
use maxql.Schema.Table.{IndexType, index_btree, index_hash, IndexDefinition}

-- `create` with the configuration that `build_config` makes. `none` is a failure inside the index.
pub record IndexVTable (D : Type 0) : Type 0 where
  pub type : IndexType
  pub type_name : List ℕ
  pub default_node_size : ℕ
  pub accepts_non_unique : Bool
  pub requires_full_match : Bool
  pub supports_op : ConditionOp → Bool
  pub create : IndexDefinition → D
  pub insert : D → Key → ℕ → Option D
  pub search : D → Key → Option (Option ℕ)
  pub delete : D → Key → ℕ → Option (Bool × D)
  pub load : D → Option D
  pub search_stream : D → Key → Option (Option ℕ)

abbrev pub same_index_type : IndexType → IndexType → Bool
same_index_type index_btree index_btree = true
same_index_type index_hash index_hash = true
same_index_type _ _ = false

module _ {D : Type 0} where
  unfoldable pub index_vtable_by_name : List (IndexVTable D) → List ℕ → Option (IndexVTable D)
  unfolding strcmp
  index_vtable_by_name [] name = none
  index_vtable_by_name (vt ∷ vts) name =
      if is_eq (strcmp vt.type_name name) then some vt else index_vtable_by_name vts name

  unfoldable pub index_vtable : List (IndexVTable D) → IndexType → Option (IndexVTable D)
  index_vtable [] type = none
  index_vtable (vt ∷ vts) type =
      if same_index_type vt.type type then some vt else index_vtable vts type

  -- Whether it is registered, and the registry.
  unfoldable pub register_index_type :
      List (IndexVTable D) → IndexVTable D → Bool × List (IndexVTable D)
  unfolding index_vtable_by_name index_vtable
  register_index_type registry vt = elim (index_vtable_by_name registry vt.type_name) [
    | some _ ↦ (false, registry)
    | none ↦ elim (index_vtable registry vt.type) [
      | some _ ↦ (false, registry)
      | none ↦ (true, registry ++ vt ∷ [])
    ]
  ]

  unfoldable pub index_supports_op : List (IndexVTable D) → IndexType → ConditionOp → Option Bool
  unfolding index_vtable
  index_supports_op registry type op = elim (index_vtable registry type) [
    | none ↦ none
    | some vt ↦ some (vt.supports_op op)
  ]
