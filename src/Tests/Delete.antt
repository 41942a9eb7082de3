-- ===== src/Tests/Delete.antt =====
-- The deletion from a B-tree of src/index/btree.c, at the tree of Tests/Btree.
use maxql.Prelude.{[], ◌∷◌, some, true, ◌≡◌, refl, arith, All, ◌⊎◌}
use maxql.Types.KeyCompare.{compare_int_keys}
use maxql.Index.Comparator.{compare_fields, compound_compare}
use maxql.Btree.Layout.{btree_layout_create}
use maxql.Btree.Node.{Node, leaf, inner, Children, none_left, child}
use maxql.Btree.Inorder.{inorder, weave, IsSorted}
use maxql.Btree.Shape.{IsNode}
use maxql.Btree.Insert.Shape.{IsTree}
use maxql.Btree.Search.{btree_search}
use maxql.Btree.Search.Laws.{Differs}
use maxql.Btree.Delete.{btree_delete, node_key_position, ensure_min_keys}
use maxql.Btree.Delete.Position.{IsBelow}
use maxql.Btree.Delete.Removal.{remove_key}
use maxql.Btree.Delete.Leaves.{HaveRoomBehind, Ensured}
use maxql.Btree.Delete.Ensure.{ensure_min_keys-Ensured}
use maxql.Btree.Delete.Correct.{btree_delete-remove_key}
use maxql.Tests.Btree.{
  int_key, row, by_int, small, sample, sample-IsSorted, small-IsLayout, by_int-IsKeyOrder,
}

-- The left leaf lends a key.
delete_50 :
    btree_delete by_int small (some sample) (int_key 50)
    ≡ some (
      true,
      some (
          inner
            (row 30 ∷ [])
            (child (leaf (row 10 ∷ row 20 ∷ [])) (child (leaf (row 40 ∷ [])) none_left))),
    )
unfolding btree_delete btree_layout_create compound_compare compare_fields compare_int_keys
delete_50 = refl

-- A key of an inner node stays, and its right neighbour goes, where the child on the left is small
-- and the one on the right is not.
delete_40 :
    btree_delete by_int small
      (some (
        inner
          (row 40 ∷ [])
          (child (leaf (row 10 ∷ [])) (child (leaf (row 50 ∷ row 60 ∷ [])) none_left))))
      (int_key 40)
    ≡ some (
      true,
      some
          (inner (row 40 ∷ []) (child (leaf (row 10 ∷ [])) (child (leaf (row 60 ∷ [])) none_left))),
    )
unfolding btree_delete btree_layout_create compound_compare compare_fields compare_int_keys
delete_40 = refl

abbrev sample_children : Children
sample_children =
    child (leaf (row 10 ∷ row 20 ∷ row 30 ∷ [])) (child (leaf (row 50 ∷ [])) none_left)

sample-IsNode : IsNode small 1 1 sample
unfolding btree_layout_create
sample-IsNode = omega arith

sample-Differs : All (Differs by_int (int_key 50)) (row 40 ∷ [])
unfolding compound_compare compare_fields compare_int_keys
sample-Differs = ((λ h. ground arith), tt)

found_50 : btree_search by_int (some sample) (int_key 50) ≡ some (some 150)
unfolding btree_search compound_compare compare_fields compare_int_keys
found_50 = refl

sample-HasRoom : HaveRoomBehind small sample_children
unfolding btree_layout_create
sample-HasRoom = (omega arith, tt)

btree_delete-remove_key_example :
    (n : Node) × (btree_delete by_int small (some sample) (int_key 50) ≡ some (true, some n))
    × (inorder n ≡ remove_key by_int (int_key 50) (inorder sample))
    × (IsTree small (some n) ⊎ (n ≡ leaf []))
btree_delete-remove_key_example =
    btree_delete-remove_key by_int small sample 1 (int_key 50) 150 by_int-IsKeyOrder small-IsLayout
      (omega arith) sample-IsNode sample-IsSorted sample-Differs sample-HasRoom found_50

IsBelow-50 : IsBelow by_int (int_key 50) (row 40 ∷ []) 1
unfolding node_key_position compound_compare compare_fields compare_int_keys
IsBelow-50 = refl

sample_children-IsSorted : IsSorted by_int (weave sample_children (row 40 ∷ []))
unfolding inorder
sample_children-IsSorted = sample-IsSorted

ensure_min_keys-Ensured_example :
    Ensured small by_int
      (int_key 50)
      (row 40 ∷ [])
      sample_children
      (ensure_min_keys small (row 40 ∷ []) sample_children 1)
ensure_min_keys-Ensured_example =
    ensure_min_keys-Ensured small by_int (int_key 50) (row 40 ∷ []) sample_children
      by_int-IsKeyOrder small-IsLayout sample-IsNode.3 refl sample_children-IsSorted sample-HasRoom
      1 (omega arith) IsBelow-50
