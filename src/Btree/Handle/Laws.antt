-- ===== src/Btree/Handle/Laws.antt =====
-- The B-tree of src/index/btree.c keeps what an index promises.
use maxql.Prelude.{true, ℕ, [], Option, none, some, ◌≡◌, refl, ap, ◌∙◌, arith, ◌+◌, ◌≤◌, ◌<◌}
use Prim.Native.Nat.Ordering.{eq}
use maxql.Btree.Order.{Key, KeyComparator, IsKeyOrder}
use maxql.Btree.Layout.{BtreeLayout, IsLayout, btree_layout_create-IsLayout}
use maxql.Btree.Node.{Entry, Node}
use maxql.Btree.Insert.Shape.{IsTree}
use maxql.Btree.Pages.Laws.{parse_tree-whole, search_pages-whole}
use maxql.Btree.Search.{btree_search}
use maxql.Btree.Search.Insert.{IsBtree, btree_search-btree_insert_do}
use maxql.Btree.Handle.{
  Btree, with_root, btree_insert, btree_save, with_nodes, btree_load, btree_search_stream,
  tree_load, tree_search_stream, builtin_index, btree_create, btree_supports_op,
  build_comparator_compound_ctx, index_register_builtin_types,
}
use maxql.Schema.Table.{IndexDefinition, index_btree}
use maxql.Parser.Ast.{
  ConditionOp, op_unknown, op_equals, op_not_equals, op_less, op_less_or_equal, op_greater,
  op_great_or_equal,
}
use maxql.Index.Comparator.{AreOrders, compound_compare-IsKeyOrder}
use maxql.Index.Registry.{index_vtable, index_vtable_by_name, register_index_type}
use maxql.Index.Mirror.{IsIndex, put_key, find_row, Mirrors}

pub record IsValidTree (t : Btree) : Type 0 where
  pub layout_fits : IsLayout t.layout
  pub ordered : IsKeyOrder t.comparator
  pub tree : IsBtree t.comparator t.layout t.root

abbrev entry : Key → ℕ → Entry
entry key offset = record { key = key; offset = offset }

-- The form of the answer that the index promises.
answer_as :
    (c : KeyComparator) (q key : Key) (offset : ℕ) (r : Option (Option ℕ)) (before : Option ℕ)
    → r ≡ some before
    → (elim (c q key) [ eq ↦ some (some offset) | _ ↦ r ]) ≡ some (put_key c key offset q before)
answer_as c q key offset r before h = ground arith

equality_only : (op : ConditionOp) → btree_supports_op op ≡ true → op ≡ op_equals
equality_only op_unknown h = cc
equality_only op_equals h = refl
equality_only op_not_equals h = cc
equality_only op_less h = cc
equality_only op_less_or_equal h = cc
equality_only op_greater h = cc
equality_only op_great_or_equal h = cc

-- A well-formed tree with a root is loaded from the file that it is saved to as it was.
pub btree_load-btree_save :
    (layout : BtreeLayout) (comparator : KeyComparator) (n : Node)
    → IsTree layout (some n)
    → btree_load layout comparator
        (btree_save (record { root = some n; layout = layout; comparator = comparator }))
      ≡ some (record { root = some n; layout = layout; comparator = comparator })
unfolding btree_load btree_save
btree_load-btree_save layout comparator n (height, w) =
    ap (with_nodes layout comparator) (parse_tree-whole layout n height 1 w)

-- A search in the file of a tree with a root answers as the search in the tree does.
pub btree_search_stream-btree_search :
    (layout : BtreeLayout) (comparator : KeyComparator) (n : Node) (key : Key)
    → btree_search_stream comparator
        (btree_save (record { root = some n; layout = layout; comparator = comparator }))
        key
      ≡ btree_search comparator (some n) key
unfolding btree_search_stream btree_save btree_search
btree_search_stream-btree_search layout comparator n key = search_pages-whole comparator n key

stored_root :
    (root : Option Node) (layout : BtreeLayout) (comparator : KeyComparator) (key : Key)
    (offset : ℕ)
    → IsTree layout root
    → btree_search comparator root key ≡ some (some offset)
    → let t : Btree = record { root = root; layout = layout; comparator = comparator } in
      (tree_load t ≡ some t)
      × ((q : Key) → tree_search_stream t q ≡ btree_search t.comparator t.root q)
unfolding btree_search
stored_root none layout comparator key offset w h = cc
stored_root (some n) layout comparator key offset w h = (
  btree_load-btree_save layout comparator n w,
  btree_search_stream-btree_search layout comparator n,
)

-- A B-tree supports equality only, and keeps its keys in their order. When it is given a key that it does not have, it takes it,
-- keeps the comparison, and then finds the new offset for the keys equal to it, and what it found
-- before for the others. Where it has a key, it is loaded as it was saved and searched in its file as in
-- memory.
pub builtin_index-IsIndex : IsIndex builtin_index (λ t. t.comparator) IsValidTree
unfolding builtin_index btree_insert btree_save btree_load btree_search_stream
builtin_index-IsIndex = record {
  equality = equality_only;
  ordered = λ t v. v.ordered;
  inserted = λ t key offset v fresh.
      let lem = λ (q : Key).
        btree_search-btree_insert_do t.comparator t.layout v.ordered t.root (entry key offset) q
          v.layout_fits v.tree fresh in
      let (n, made, tree, found) = lem key in
      (
        with_root t (some n),
        rw (btree_insert, made) refl,
        record { layout_fits = v.layout_fits; ordered = v.ordered; tree = tree },
        refl,
        λ q before h.
            let (n', made', tree', found') = lem q in
            let same : n' ≡ n = cc in
            rw same at found' ∙ answer_as t.comparator q key offset _ before h,
      );
  stored = λ t key offset v h. stored_root t.root t.layout t.comparator key offset v.tree.tree h;
}

pub registered_btree : index_vtable index_register_builtin_types index_btree ≡ some builtin_index
unfolding index_register_builtin_types register_index_type index_vtable index_vtable_by_name
    builtin_index
registered_btree = refl

-- A new index of a page below 65536 bytes with room for one key, whose columns compare by orders,
-- answers as the rows of an empty table do.
pub btree_create-Mirrors :
    (index_def : IndexDefinition)
    → index_def.type ≡ index_btree
    → index_def.node_size < 65536
    → index_def.key_size + 27 ≤ index_def.node_size
    → AreOrders (build_comparator_compound_ctx index_def)
    → Mirrors index_register_builtin_types
        (λ t. t.comparator)
        IsValidTree
        (record { index_def = index_def; vtable = builtin_index; tree = btree_create index_def })
        []
unfolding btree_create builtin_index btree_search find_row
btree_create-Mirrors index_def kind page room orders = record {
  registered = ap (index_vtable index_register_builtin_types) kind ∙ registered_btree;
  laws = builtin_index-IsIndex;
  apart = tt;
  valid = record {
    layout_fits = btree_layout_create-IsLayout index_def.node_size index_def.key_size page room;
    ordered = compound_compare-IsKeyOrder (build_comparator_compound_ctx index_def) orders;
    tree = record { tree = tt; sorted = tt };
  };
  answers = λ q. refl;
}
