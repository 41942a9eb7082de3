-- ===== src/Btree/Handle.antt =====
-- `Btree` of src/index/btree.c and the functions that an index calls.
pub mod Laws
use maxql.Prelude.{ℕ, List, [], ◌∷◌, Bool, true, false, Option, none, some, map, length}
use maxql.Core.StrView.{codes}
use maxql.Parser.Ast.{ConditionOp, op_equals}
use maxql.Schema.Table.{IndexPart, IndexDefinition, index_btree}
use maxql.Index.Comparator.{Field, compound_compare}
use maxql.Index.Registry.{IndexVTable, register_index_type}
use maxql.Btree.Order.{Key, KeyComparator}
use maxql.Btree.Layout.{BtreeLayout, btree_layout_create}
use maxql.Btree.Node.{Node, Entry}
use maxql.Btree.Insert.{btree_insert_do}
use maxql.Btree.Pages.{Page, btree_to_bin, parse_tree, search_pages}
use maxql.Btree.Search.{btree_search}
use maxql.Btree.Delete.{btree_delete}

-- `compare` with its context. The handle's functions have their names in a module of their own here.
pub record Btree : Type 0 where
  pub root : Option Node
  pub layout : BtreeLayout
  pub comparator : KeyComparator

abbrev pub build_comparator_compound_ctx : IndexDefinition → List Field
build_comparator_compound_ctx index_def =
    map (λ (p : IndexPart). record { size = p.part_len; comparator = p.part_compare })
      index_def.parts

abbrev pub btree_supports_op : ConditionOp → Bool
btree_supports_op op_equals = true
btree_supports_op _ = false

-- `btree_build_config`, then `btree_create`.
unfoldable pub btree_create : IndexDefinition → Btree
unfolding btree_layout_create compound_compare
btree_create index_def = record {
  root = none;
  layout = btree_layout_create index_def.node_size index_def.key_size;
  comparator = compound_compare (build_comparator_compound_ctx index_def);
}

abbrev pub with_root : Btree → Option Node → Btree
with_root t root = record { root = root; layout = t.layout; comparator = t.comparator }

unfoldable pub btree_insert : Btree → Key → ℕ → Option Btree
unfolding btree_insert_do
btree_insert t key offset =
    elim (btree_insert_do t.comparator t.layout t.root (record { key = key; offset = offset })) [
      | none ↦ none
      | some root ↦ some (with_root t (some root))
    ]

abbrev pub tree_search : Btree → Key → Option (Option ℕ)
tree_search t key = btree_search t.comparator t.root key

abbrev pub tree_delete : Btree → Key → ℕ → Option (Bool × Btree)
tree_delete t key offset = elim (btree_delete t.comparator t.layout t.root key) [
  | none ↦ none
  | some (deleted, root) ↦ some (deleted, with_root t root)
]

-- The pages of the file, none for a tree without a root.
unfoldable pub btree_save : Btree → List Page
unfolding btree_to_bin
btree_save t = elim t.root [ none ↦ [] | some n ↦ btree_to_bin 0 n ]

abbrev pub with_nodes : BtreeLayout → KeyComparator → Option Node → Option Btree
with_nodes layout comparator none = none
with_nodes layout comparator (some n) =
    some (record { root = some n; layout = layout; comparator = comparator })

-- The handle that is made of a file. In an empty file `btree_load` finds no page: it gives back a handle
-- that it has freed, and the next use of it is undefined. The fuel is the number of pages.
unfoldable pub btree_load : BtreeLayout → KeyComparator → List Page → Option Btree
unfolding parse_tree
btree_load layout comparator file = with_nodes layout comparator (parse_tree (length file) file 0)

-- The search in a file. In an empty file the buffer of the page is never filled. The fuel is the number
-- of pages.
unfoldable pub btree_search_stream : KeyComparator → List Page → Key → Option (Option ℕ)
unfolding search_pages
btree_search_stream comparator file key = search_pages comparator (length file) file 0 key

abbrev pub tree_load : Btree → Option Btree
tree_load t = btree_load t.layout t.comparator (btree_save t)

abbrev pub tree_search_stream : Btree → Key → Option (Option ℕ)
tree_search_stream t key = btree_search_stream t.comparator (btree_save t) key

-- `builtin_indexes` has one entry.
unfoldable pub builtin_index : IndexVTable Btree
unfolding btree_create btree_insert btree_save btree_load btree_search_stream
builtin_index = record {
  type = index_btree;
  type_name = codes "btree";
  default_node_size = 4096;
  accepts_non_unique = false;
  requires_full_match = true;
  supports_op = btree_supports_op;
  create = btree_create;
  insert = btree_insert;
  search = tree_search;
  delete = tree_delete;
  load = tree_load;
  search_stream = tree_search_stream;
}

unfoldable pub index_register_builtin_types : List (IndexVTable Btree)
unfolding register_index_type builtin_index
index_register_builtin_types = (register_index_type [] builtin_index).1
