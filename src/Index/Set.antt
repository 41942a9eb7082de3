-- ===== src/Index/Set.antt =====
-- src/index/index_set.c: the indexes of a table together.
pub mod Mirrors
use maxql.Prelude.{ℕ, List, [], ◌∷◌, Bool, true, false, Option, none, some, if◌then◌else◌}
use maxql.Types.Value.{DataValue}
use maxql.Schema.Table.{IndexDefinition}
use maxql.Index.Registry.{IndexVTable}
use maxql.Index.Keys.{
  Index, with_tree, index_insert, index_delete, index_key_exists, index_key_conflicts,
}

abbrev pub IndexSet : Type 0 → Type 0
IndexSet D = List (Index D)

-- The check of one index in the loop: `check` is asked for a unique index only.
unfoldable pub first_unique :
    IndexDefinition
    → Bool
    → Option Bool
    → Option (Option IndexDefinition)
    → Option (Option IndexDefinition)
first_unique index_def false check rest = rest
first_unique index_def true none rest = none
first_unique index_def true (some true) rest = some (some index_def)
first_unique index_def true (some false) rest = rest

-- `index_load` of one index.
unfoldable pub index_load : {D : Type 0} → Index D → Option (Index D)
index_load i = elim (i.vtable.load i.tree) [ none ↦ none | some tree ↦ some (with_tree i tree) ]

module _ {D : Type 0} where
  -- From the files of the indexes.
  unfoldable pub index_set_load : IndexSet D → Option (IndexSet D)
  unfolding index_load
  index_set_load [] = some []
  index_set_load (i ∷ is) = elim (index_load i) [
    | none ↦ none
    | some j ↦ elim (index_set_load is) [ none ↦ none | some js ↦ some (j ∷ js) ]
  ]

  unfoldable pub index_set_insert : IndexSet D → List DataValue → ℕ → Option (IndexSet D)
  unfolding index_insert
  index_set_insert [] values offset = some []
  index_set_insert (i ∷ is) values offset = elim (index_insert i values offset) [
    | none ↦ none
    | some j ↦ elim (index_set_insert is values offset) [ none ↦ none | some js ↦ some (j ∷ js) ]
  ]

  -- It stops at the first index that lacks the key.
  unfoldable pub index_set_delete : IndexSet D → List DataValue → ℕ → Option (Bool × IndexSet D)
  unfolding index_delete
  index_set_delete [] values offset = some (true, [])
  index_set_delete (i ∷ is) values offset = elim (index_delete i values offset) [
    | none ↦ none
    | some (false, j) ↦ some (false, j ∷ is)
    | some (true, j) ↦ elim (index_set_delete is values offset) [
      | none ↦ none
      | some (deleted, js) ↦ some (deleted, j ∷ js)
    ]
  ]

  module _ (registry : List (IndexVTable D)) where
    -- The definition of the first unique index that has the key.
    unfoldable pub index_set_has_duplicate :
        IndexSet D → List DataValue → Option (Option IndexDefinition)
    unfolding first_unique index_key_exists
    index_set_has_duplicate [] values = some none
    index_set_has_duplicate (i ∷ is) values =
        first_unique i.index_def i.index_def.is_unique (index_key_exists registry i values)
          (index_set_has_duplicate is values)

    unfoldable pub index_set_has_conflict :
        IndexSet D → List DataValue → ℕ → Option (Option IndexDefinition)
    unfolding first_unique index_key_conflicts
    index_set_has_conflict [] values offset = some none
    index_set_has_conflict (i ∷ is) values offset =
        first_unique i.index_def i.index_def.is_unique
          (index_key_conflicts registry i values offset) (index_set_has_conflict is values offset)
