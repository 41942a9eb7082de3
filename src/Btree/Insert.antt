-- ===== src/Btree/Insert.antt =====
-- The insertion of src/index/btree.c. `find_leaf` keeps the nodes that it passes with the index of
-- the child it takes: this path is what the parent pointers are followed for afterwards. Where the
-- C code would read an array cell that holds nothing, the model returns `none`.
pub mod Recursive
pub mod Shape
pub mod Order
pub mod Correct
use maxql.Prelude.{
  ℕ, zero, suc, List, [], ◌∷◌, Option, none, some, if◌then◌else◌, leb, length, get_elem?, take,
  drop,
}
use Prim.Native.Nat.Ordering.{gt}
use maxql.Btree.Order.{Key, KeyComparator}
use maxql.Btree.Layout.{BtreeLayout}
use maxql.Btree.Node.{
  Entry, Node, leaf, inner, Children, none_left, child, set_child, insert_child_at, take_children,
  drop_children, insert_at,
}

-- A node on the way to the leaf, and the index of the child that is taken.
pub record Frame : Type 0 where
  pub keys : List Entry
  pub children : Children
  pub index : ℕ

-- What `split_node` leaves: the node itself, the new node on its right and the entry between them.
pub record Split : Type 0 where
  pub left : Node
  pub right : Node
  pub median : Entry

unfoldable pub create_leaf : Entry → Node
create_leaf e = leaf (e ∷ [])

unfoldable pub create_root : Node → Node → Entry → Node
create_root l r e = inner (e ∷ []) (child l (child r none_left))

module _ (compare : KeyComparator) where
  -- The loop that stops at the first key that is not below `key`.
  unfoldable pub lower_bound : Key → List Entry → ℕ
  lower_bound key [] = 0
  lower_bound key (e ∷ es) = elim (compare key e.key) [ gt ↦ suc (lower_bound key es) | _ ↦ 0 ]

  unfoldable mutual
    pub find_leaf : Key → Node → List Frame → Option (List Entry × List Frame)
    find_leaf key (leaf es) up = some (es, up)
    find_leaf key (inner es cs) up =
        find_child key cs (lower_bound key es)
          (record { keys = es; children = cs; index = lower_bound key es } ∷ up)

    pub find_child : Key → Children → ℕ → List Frame → Option (List Entry × List Frame)
    find_child key none_left i up = none
    find_child key (child n ns) zero up = find_leaf key n up
    find_child key (child n ns) (suc i) up = find_child key ns i up

  unfoldable pub insert_value : Entry → List Entry → List Entry × ℕ
  unfolding lower_bound
  insert_value e es = let i = lower_bound e.key es in (insert_at i e es, i)

-- The nodes of the path with the changed child in its place.
unfoldable pub plug : List Frame → Node → Node
plug [] n = n
plug (f ∷ up) n = plug up (inner f.keys (set_child f.children f.index n))

module _ (compare : KeyComparator) (layout : BtreeLayout) where
  unfoldable pub insert_into_leaf : List Entry → Entry → Option Node
  unfolding insert_value
  insert_into_leaf es e =
      if leb layout.max_keys (length es) then none else some (leaf (insert_value compare e es).0)

  unfoldable pub insert_into_node : List Entry → Children → Node → Entry → Option Node
  unfolding insert_value
  insert_into_node es cs right e =
      if leb layout.max_keys (length es)
      then none
      else (let (es', idx) = insert_value compare e es in
          some (inner es' (insert_child_at (suc idx) right cs)))

  -- `split_node` on a leaf.
  unfoldable pub split_leaf : List Entry → Entry → Option Split
  unfolding insert_value
  split_leaf es e =
      let tmp = (insert_value compare e es).0 in
      elim (get_elem? tmp layout.mid) [
        | none ↦ none
        | some m ↦ some (record {
          left = leaf (take layout.left_count tmp);
          right = leaf (take layout.right_count (drop layout.right_start tmp));
          median = m;
        })
      ]

  -- `split_node` on an inner node, with the child that comes in.
  unfoldable pub split_inner : List Entry → Children → Entry → Node → Option Split
  unfolding insert_value
  split_inner es cs e incoming =
      let (tmp, idx) = insert_value compare e es in
      let tmp_children = insert_child_at (suc idx) incoming cs in
      elim (get_elem? tmp layout.mid) [
        | none ↦ none
        | some m ↦ some (record {
          left =
              inner (take layout.left_count tmp)
                (take_children (suc layout.left_count) tmp_children);
          right = inner (take layout.right_count (drop layout.right_start tmp)) (
              take_children (suc layout.right_count)
                (drop_children layout.right_start tmp_children));
          median = m;
        })
      ]

  -- The loop over the parents: `s.left` is the node that was split, in its old place.
  unfoldable pub climb : List Frame → Split → Option Node
  unfolding insert_into_node split_inner
  climb [] s = some (create_root s.left s.right s.median)
  climb (f ∷ up) s =
      let cs = set_child f.children f.index s.left in
      elim (insert_into_node f.keys cs s.right s.median) [
        | some n ↦ some (plug up n)
        | none ↦ elim (split_inner f.keys cs s.median s.right) [
          | none ↦ none
          | some s' ↦ climb up s'
        ]
      ]

  -- What is done at the leaf, with the path to it.
  unfoldable pub insert_at_leaf : Entry → List Entry → List Frame → Option Node
  unfolding insert_into_leaf split_leaf climb plug
  insert_at_leaf e es path = elim (insert_into_leaf es e) [
    | some n ↦ some (plug path n)
    | none ↦ elim (split_leaf es e) [ none ↦ none | some s ↦ climb path s ]
  ]

  unfoldable pub btree_insert_do : Option Node → Entry → Option Node
  unfolding insert_at_leaf find_leaf create_leaf
  btree_insert_do none e = some (create_leaf e)
  btree_insert_do (some root) e = elim (find_leaf compare e.key root []) [
    | none ↦ none
    | some (es, path) ↦ insert_at_leaf e es path
  ]
