-- ===== src/Tests/Btree.antt =====
-- The B-tree at a layout of three keys to a node, with integer keys.
use maxql.Prelude.{ℕ, ◌+◌, [], ◌∷◌, none, some, true, false, ◌≡◌, refl, arith}
use Prim.Native.Nat.Ordering.{eq}
use maxql.Types.KeyCompare.{compare_int_keys, compare_int_keys-IsKeyOrder}
use maxql.Index.Comparator.{Field, compare_fields, compound_compare, compound_compare-IsKeyOrder}
use maxql.Index.Comparator.Columns.{
  joined, compare_columns, compare_int_keys-ReadsOwn, compound_compare-compare_columns,
}
use maxql.Btree.Order.{Key, KeyComparator, IsKeyOrder}
use maxql.Btree.Layout.{
  BtreeLayout, btree_layout_create, IsLayout, IsPage, btree_layout_create-IsLayout,
  btree_layout_create-IsPage,
}
use maxql.Btree.Node.{Entry, Node, leaf, inner, none_left, child}
use maxql.Btree.Inorder.{inorder, IsSorted, insert_sorted}
use maxql.Btree.Insert.{btree_insert_do}
use maxql.Btree.Insert.Shape.{IsTree, btree_insert_do-IsTree}
use maxql.Btree.Insert.Correct.{root_entries, btree_insert_do-inorder}
use maxql.Btree.Handle.{Btree, btree_save, btree_load, btree_search_stream}
use maxql.Btree.Handle.Laws.{btree_load-btree_save, btree_search_stream-btree_search}
use maxql.Btree.Pages.{btree_to_bin}
use maxql.Btree.Search.{btree_search}
use maxql.Btree.Search.Laws.{lookup_key, btree_search-lookup_key}
use maxql.Btree.Search.Insert.{IsBtree, btree_search-btree_insert_do}

abbrev pub int_key : ℕ → Key
int_key n = n ∷ 0 ∷ 0 ∷ 0 ∷ []

abbrev pub row : ℕ → Entry
row n = record { key = int_key n; offset = 100 + n }

abbrev int_field : Field
int_field = record { size = 4; comparator = λ _. compare_int_keys }

abbrev pub by_int : KeyComparator
by_int = compound_compare (int_field ∷ [])

abbrev pub small : BtreeLayout
small = btree_layout_create 80 4

-- A root over a full leaf and another.
abbrev pub sample : Node
sample =
    inner (row 40 ∷ [])
      (child (leaf (row 10 ∷ row 20 ∷ row 30 ∷ [])) (child (leaf (row 50 ∷ [])) none_left))

btree_layout_create-IsLayout_example : IsLayout (btree_layout_create 80 4)
btree_layout_create-IsLayout_example = btree_layout_create-IsLayout 80 4 (omega arith) (omega arith)

btree_layout_create-IsPage_example : IsPage (btree_layout_create 80 4)
btree_layout_create-IsPage_example = btree_layout_create-IsPage 80 4 (omega arith) (omega arith)

compound_compare-compare_columns_example :
    compound_compare
      (int_field ∷ int_field ∷ [])
      (joined (int_key 1 ∷ int_key 2 ∷ []))
      (joined (int_key 1 ∷ int_key 3 ∷ []))
    ≡ compare_columns
        (int_field ∷ int_field ∷ [])
        (int_key 1 ∷ int_key 2 ∷ [])
        (int_key 1 ∷ int_key 3 ∷ [])
compound_compare-compare_columns_example =
    compound_compare-compare_columns (int_field ∷ int_field ∷ []) (int_key 1 ∷ int_key 2 ∷ [])
      (int_key 1 ∷ int_key 3 ∷ []) (compare_int_keys-ReadsOwn, (compare_int_keys-ReadsOwn, tt))
      (refl, (refl, tt)) (refl, (refl, tt)) (omega arith)

sample-IsTree : IsTree small (some sample)
unfolding btree_layout_create
sample-IsTree = (1, omega arith)

pub sample-IsSorted : IsSorted by_int (root_entries (some sample))
unfolding inorder compound_compare compare_fields compare_int_keys
sample-IsSorted = ground arith

insert_runs :
    btree_insert_do by_int small (some sample) (row 25)
    ≡ some (
        inner (row 25 ∷ row 40 ∷ []) (
          child
            (leaf (row 10 ∷ row 20 ∷ []))
            (child (leaf (row 30 ∷ [])) (child (leaf (row 50 ∷ [])) none_left))))
unfolding btree_insert_do btree_layout_create compound_compare compare_fields compare_int_keys
insert_runs = refl

sample-IsBtree : IsBtree by_int small (some sample)
sample-IsBtree = record { tree = sample-IsTree; sorted = sample-IsSorted }

abbrev sample_tree : Btree
sample_tree = record { root = some sample; layout = small; comparator = by_int }

btree_load-btree_save_example : btree_load small by_int (btree_save sample_tree) ≡ some sample_tree
btree_load-btree_save_example = btree_load-btree_save small by_int sample sample-IsTree

btree_search_stream-btree_search_example :
    btree_search_stream by_int (btree_save sample_tree) (int_key 50)
    ≡ btree_search by_int (some sample) (int_key 50)
btree_search_stream-btree_search_example =
    btree_search_stream-btree_search small by_int sample (int_key 50)

-- The file has the root's page first, then those of its children.
saves_sample :
    btree_save sample_tree
    ≡ record { is_leaf = false; entries = row 40 ∷ []; children = 1 ∷ 2 ∷ [] }
      ∷ record { is_leaf = true; entries = row 10 ∷ row 20 ∷ row 30 ∷ []; children = [] }
      ∷ record { is_leaf = true; entries = row 50 ∷ []; children = [] }
      ∷ []
unfolding btree_save btree_to_bin
saves_sample = refl

absent_25 : btree_search by_int (some sample) (int_key 25) ≡ some none
unfolding btree_search compound_compare compare_fields compare_int_keys
absent_25 = refl

pub small-IsLayout : IsLayout small
small-IsLayout = btree_layout_create-IsLayout 80 4 (omega arith) (omega arith)

pub by_int-IsKeyOrder : IsKeyOrder by_int
by_int-IsKeyOrder = compound_compare-IsKeyOrder (int_field ∷ []) (compare_int_keys-IsKeyOrder, tt)

btree_insert_do-IsTree_example :
    (n : Node) × (btree_insert_do by_int small (some sample) (row 25) ≡ some n)
    × IsTree small (some n)
btree_insert_do-IsTree_example =
    btree_insert_do-IsTree by_int small small-IsLayout (some sample) (row 25) sample-IsTree

btree_insert_do-inorder_example :
    (n : Node) × (btree_insert_do by_int small (some sample) (row 25) ≡ some n)
    × (inorder n ≡ insert_sorted by_int (row 25) (root_entries (some sample)))
btree_insert_do-inorder_example =
    btree_insert_do-inorder by_int small (some sample) (row 25) small-IsLayout by_int-IsKeyOrder
      sample-IsTree sample-IsSorted

btree_search-lookup_key_example :
    btree_search by_int (some sample) (int_key 30)
    ≡ some (lookup_key by_int (int_key 30) (root_entries (some sample)))
btree_search-lookup_key_example =
    btree_search-lookup_key by_int small (some sample) (int_key 30) by_int-IsKeyOrder sample-IsTree
      sample-IsSorted

btree_search-btree_insert_do_example :
    (n : Node) × (btree_insert_do by_int small (some sample) (row 25) ≡ some n)
    × IsBtree by_int small (some n)
    × (btree_search by_int (some n) (int_key 25) ≡ elim (by_int (int_key 25) (int_key 25)) [
      | eq ↦ some (some 125)
      | _ ↦ btree_search by_int (some sample) (int_key 25)
    ])
btree_search-btree_insert_do_example =
    btree_search-btree_insert_do by_int small by_int-IsKeyOrder (some sample) (row 25) (int_key 25)
      small-IsLayout sample-IsBtree absent_25
