-- ===== src/Index/Keys.antt =====
-- src/index/index.c: the keys that an index makes of a row's values, and its operations on a row. A
-- value that is not there gives `none`, and so do parts that are longer than the key.
pub mod Equal
use maxql.Prelude.{
  ℕ, ◌-◌, List, [], ◌∷◌, ◌++◌, Bool, true, false, not, Option, none, some, length, min, get_elem?,
  replicate, ltb, ◌==◌, if◌then◌else◌,
}
use maxql.Core.StrView.{take_bytes, strlen}
use maxql.Btree.Order.{Key}
use maxql.Types.Value.{
  DataValue, value_null, value_int, value_string, value_binary, value_float, word_bytes,
}
use maxql.Schema.Table.{IndexPart, IndexDefinition}
use maxql.Storage.{append_bytes}
use maxql.Index.Registry.{IndexVTable, index_vtable}

-- `Index` with its definition; `tree` is what `data` points to.
pub record Index (D : Type 0) : Type 0 where
  pub index_def : IndexDefinition
  pub vtable : IndexVTable D
  pub tree : D

unfoldable pub data_value_raw_ptr : DataValue → Option (List ℕ)
data_value_raw_ptr (value_int w) = some (word_bytes w)
data_value_raw_ptr (value_string s) = some s
data_value_raw_ptr (value_binary b) = some b
data_value_raw_ptr (value_float w) = some (word_bytes w)
data_value_raw_ptr value_null = none

-- The loop over the parts, that picks the value of each part's column.
unfoldable pub prepare_values : List IndexPart → List DataValue → Option (List DataValue)
prepare_values [] values = some []
prepare_values (p ∷ ps) values = elim (get_elem? values p.column_pos) [
  | none ↦ none
  | some v ↦ elim (prepare_values ps values) [ none ↦ none | some vs ↦ some (v ∷ vs) ]
]

-- The size of a value's bytes, before it is cut to the part.
abbrev pub raw_size : DataValue → ℕ → ℕ
raw_size (value_binary b) part_len = length b
raw_size (value_string s) part_len = strlen s
raw_size v part_len = part_len

-- The bytes of one part of the key.
unfoldable pub part_bytes : IndexPart → DataValue → Option (List ℕ)
unfolding data_value_raw_ptr
part_bytes p v = elim (data_value_raw_ptr v) [
  | none ↦ none
  | some raw ↦
      let actual_size = min (raw_size v p.part_len) p.part_len in
      some (take_bytes actual_size raw ++ replicate (p.part_len - actual_size) 0)
]

-- The loop over the values.
unfoldable pub parts_bytes : List IndexPart → List DataValue → Option (List ℕ)
unfolding part_bytes
parts_bytes ps [] = some []
parts_bytes [] (v ∷ vs) = none
parts_bytes (p ∷ ps) (v ∷ vs) = append_bytes (part_bytes p v) (parts_bytes ps vs)

unfoldable pub prepare_index_key : IndexDefinition → List DataValue → Option Key
unfolding parts_bytes
prepare_index_key index_def values = elim (parts_bytes index_def.parts values) [
  | none ↦ none
  | some bs ↦
      if ltb index_def.key_size (length bs)
      then none
      else some (bs ++ replicate (index_def.key_size - length bs) 0)
]

-- The two preparations, as each operation makes them.
unfoldable pub row_key : IndexDefinition → List DataValue → Option Key
unfolding prepare_values prepare_index_key
row_key index_def values = elim (prepare_values index_def.parts values) [
  | none ↦ none
  | some vs ↦ prepare_index_key index_def vs
]

module _ {D : Type 0} where
  abbrev pub with_tree : Index D → D → Index D
  with_tree index tree = record { index_def = index.index_def; vtable = index.vtable; tree = tree }

  unfoldable pub index_insert : Index D → List DataValue → ℕ → Option (Index D)
  unfolding row_key
  index_insert index values offset = elim (row_key index.index_def values) [
    | none ↦ none
    | some key ↦ elim (index.vtable.insert index.tree key offset) [
      | none ↦ none
      | some tree ↦ some (with_tree index tree)
    ]
  ]

  unfoldable pub index_delete : Index D → List DataValue → ℕ → Option (Bool × Index D)
  unfolding row_key
  index_delete index values offset = elim (row_key index.index_def values) [
    | none ↦ none
    | some key ↦ elim (index.vtable.delete index.tree key offset) [
      | none ↦ none
      | some (deleted, tree) ↦ some (deleted, with_tree index tree)
    ]
  ]

  module _ (registry : List (IndexVTable D)) where
    unfoldable pub index_search : Index D → List DataValue → Option (Option ℕ)
    unfolding row_key index_vtable
    index_search index values = elim (row_key index.index_def values) [
      | none ↦ none
      | some key ↦ elim (index_vtable registry index.index_def.type) [
        | none ↦ none
        | some vtable ↦ vtable.search index.tree key
      ]
    ]

    unfoldable pub index_key_exists : Index D → List DataValue → Option Bool
    unfolding index_search
    index_key_exists index values = elim (index_search index values) [
      | none ↦ none
      | some found ↦ some (elim found [ none ↦ false | some _ ↦ true ])
    ]

    unfoldable pub index_key_conflicts : Index D → List DataValue → ℕ → Option Bool
    unfolding index_search
    index_key_conflicts index values offset = elim (index_search index values) [
      | none ↦ none
      | some found ↦ some (elim found [ none ↦ false | some o ↦ not (offset == o) ])
    ]
