-- ===== src/Btree/Delete.antt =====
-- The deletion of src/index/btree.c. A node's arrays are passed as the entries and the children in
-- use; where the C code would read an array cell that holds nothing or is not there, or follow a null pointer, the
-- model returns `none`. `btree_merge` of inner nodes is such a case: it puts the right node's
-- children one cell too high, and the cell between holds nothing.
pub mod Weave
pub mod Position
pub mod Removal
pub mod Leaves
pub mod Steal
pub mod Ensure
pub mod Correct
use maxql.Prelude.{
  ℕ, zero, suc, ◌-◌, List, [], ◌∷◌, ◌++◌, Option, none, some, Bool, true, false, ltb, ◌&&◌,
  if◌then◌else◌, length, get_elem?, take, set,
}
use Prim.Native.Nat.Ordering.{lt, eq, gt}
use maxql.Btree.Order.{Key, KeyComparator}
use maxql.Btree.Layout.{BtreeLayout}
use maxql.Btree.Node.{
  Entry, Node, leaf, inner, Children, none_left, child, entries, get_child, set_child,
  take_children, append_children,
}
use maxql.Btree.Search.{btree_search}

module _ {ℓ} {A : Type ℓ} where
  -- The elements behind `i` move down by one.
  unfoldable pub remove_at : ℕ → List A → List A
  remove_at i [] = []
  remove_at zero (x ∷ xs) = xs
  remove_at (suc i) (x ∷ xs) = x ∷ remove_at i xs

unfoldable pub remove_child_at : ℕ → Children → Children
remove_child_at i none_left = none_left
remove_child_at zero (child n ns) = ns
remove_child_at (suc i) (child n ns) = child n (remove_child_at i ns)

-- The height, along the first children: what the recursion needs as fuel.
unfoldable mutual
  pub height : Node → ℕ
  height (leaf es) = 0
  height (inner es cs) = suc (height_below cs)

  pub height_below : Children → ℕ
  height_below none_left = 0
  height_below (child n ns) = height n

-- Two neighbours and the entry between them.
pub record Pair : Type 0 where
  pub left : Node
  pub between : Entry
  pub right : Node

-- `btree_steal_left` on the nodes: the left node's last entry goes up, the one between goes down.
unfoldable pub steal_left : Node → Entry → Node → Option Pair
steal_left (leaf ls) p (leaf rs) = elim (get_elem? ls (length ls - 1)) [
  | none ↦ none
  | some e ↦
      some (record { left = leaf (take (length ls - 1) ls); between = e; right = leaf (p ∷ rs) })
]
steal_left (inner ls lc) p (inner rs rc) = elim (get_elem? ls (length ls - 1)) [
  | none ↦ none
  | some e ↦ elim (get_child lc (length ls)) [
    | none ↦ none
    | some n ↦ some (record {
      left = inner (take (length ls - 1) ls) (take_children (length ls) lc);
      between = e;
      right = inner (p ∷ rs) (child n rc);
    })
  ]
]
steal_left _ p _ = none

-- `btree_steal_right` on the nodes. The right node's arrays move down by as many cells as it has keys,
-- from the second cell on: where it is full, the last cell read is behind the arrays.
unfoldable pub steal_right : BtreeLayout → Node → Entry → Node → Option Pair
steal_right layout (leaf ls) p (leaf (e ∷ rs)) =
    if ltb (suc (length rs)) layout.max_keys
    then some (record { left = leaf (ls ++ p ∷ []); between = e; right = leaf rs })
    else none
steal_right layout (inner ls lc) p (inner (e ∷ rs) (child n rc)) =
    if ltb (suc (length rs)) layout.max_keys
    then some (record {
      left = inner (ls ++ p ∷ []) (append_children lc (child n none_left));
      between = e;
      right = inner rs rc;
    })
    else none
steal_right layout _ p _ = none

-- `btree_merge` on the nodes.
unfoldable pub merge : Node → Entry → Node → Option Node
merge (leaf ls) p (leaf rs) = some (leaf (ls ++ p ∷ rs))
merge _ p _ = none

abbrev pub Arrays : Type 0
Arrays = List Entry × Children

-- The parent's arrays with a changed pair at `i`.
unfoldable pub put_pair : List Entry → Children → ℕ → Option Pair → Option Arrays
put_pair es cs i none = none
put_pair es cs i (some q) =
    some (set es i q.between, set_child (set_child cs (suc i) q.right) i q.left)

-- The parent's arrays with the merged node at `i`, and no longer the entry and the node behind it.
unfoldable pub put_merged : List Entry → Children → ℕ → Option Node → Option Arrays
unfolding remove_at remove_child_at
put_merged es cs i none = none
put_merged es cs i (some n) = some (remove_at i es, set_child (remove_child_at (suc i) cs) i n)

-- The nodes at `i` and behind it with the entry between.
unfoldable pub with_pair :
    {A : Type 0} → (Node → Entry → Node → Option A) → List Entry → Children → ℕ → Option A
with_pair f es cs i = elim (get_elem? es i) [
  | none ↦ none
  | some p ↦ elim (get_child cs i) [
    | none ↦ none
    | some l ↦ elim (get_child cs (suc i)) [ none ↦ none | some r ↦ f l p r ]
  ]
]

unfoldable pub btree_steal_left : List Entry → Children → ℕ → Option Arrays
unfolding steal_left put_pair with_pair
btree_steal_left es cs i = put_pair es cs i (with_pair steal_left es cs i)

unfoldable pub btree_steal_right : BtreeLayout → List Entry → Children → ℕ → Option Arrays
unfolding steal_right put_pair with_pair
btree_steal_right layout es cs i = put_pair es cs i (with_pair (steal_right layout) es cs i)

unfoldable pub btree_merge : List Entry → Children → ℕ → Option Arrays
unfolding merge put_merged with_pair
btree_merge es cs i = put_merged es cs i (with_pair merge es cs i)

-- The number of keys of the child at `i`, 0 where there is none.
unfoldable pub child_keys : Children → ℕ → ℕ
child_keys cs i = elim (get_child cs i) [ none ↦ 0 | some n ↦ length (entries n) ]

module _ (layout : BtreeLayout) where
  unfoldable pub has_spare : Children → ℕ → Bool
  unfolding child_keys
  has_spare cs i = ltb layout.min_keys (child_keys cs i)

  -- With a right neighbour to borrow from, if there is one at all; else a merge at `left_index`.
  unfoldable pub borrow_right : List Entry → Children → ℕ → ℕ → Option Arrays
  unfolding has_spare btree_steal_right btree_merge
  borrow_right es cs i left_index =
      if ltb i (length es) && has_spare cs (suc i)
      then btree_steal_right layout es cs i
      else btree_merge es cs left_index

  -- For a child that has no key to spare.
  unfoldable pub borrow : List Entry → Children → ℕ → Option Arrays
  unfolding borrow_right btree_steal_left
  borrow es cs zero = borrow_right es cs zero zero
  borrow es cs (suc i) =
      if has_spare cs i then btree_steal_left es cs i else borrow_right es cs (suc i) i

  unfoldable pub ensure_min_keys : List Entry → Children → ℕ → Option Arrays
  unfolding borrow
  ensure_min_keys es cs i = if has_spare cs i then some (es, cs) else borrow es cs i

module _ (compare : KeyComparator) where
  -- Whether the key is there, and its index, or the one of the child to go on with.
  unfoldable pub node_key_position : Key → List Entry → Bool × ℕ
  node_key_position key [] = (false, 0)
  node_key_position key (e ∷ es) = elim (compare key e.key) [
    | eq ↦ (true, 0)
    | lt ↦ (false, 0)
    | gt ↦ ((node_key_position key es).0, suc (node_key_position key es).1)
  ]

-- The changed child in its place.
unfoldable pub put_child : List Entry → Children → ℕ → Option Node → Option Node
put_child es cs i none = none
put_child es cs i (some n) = some (inner es (set_child cs i n))

unfoldable pub last_entry : Node → Option Entry
last_entry n = get_elem? (entries n) (length (entries n) - 1)

-- At a leaf that lacks the key the C code would follow a null child.
unfoldable pub remove_from_leaf : List Entry → Bool × ℕ → Option Node
unfolding remove_at
remove_from_leaf es (true, pos) = some (leaf (remove_at pos es))
remove_from_leaf es (false, pos) = none

module _ (compare : KeyComparator) where
  -- In a child, after `ensure_min_keys`, where `delete` goes on; `here` tells if the key was found
  -- in the node before.
  unfoldable pub delete_below :
      (Key → Node → Option Node) → Key → Bool → Option Arrays → Option Node
  unfolding node_key_position put_child last_entry
  delete_below delete key here none = none
  delete_below delete key here (some (es, cs)) =
      let pos = (node_key_position compare key es).1 in
      elim (get_child cs pos) [
        | none ↦ none
        | some n ↦ elim here [
          | false ↦ put_child es cs pos (delete key n)
          | true ↦ elim (last_entry n) [
            | none ↦ none
            | some e ↦ put_child (set es pos e) cs pos (delete e.key n)
          ]
        ]
      ]

-- A root without keys gives way to its child.
unfoldable pub shrink_root : Node → Option Node
shrink_root (leaf es) = some (leaf es)
shrink_root (inner [] cs) = get_child cs 0
shrink_root (inner (e ∷ es) cs) = some (inner (e ∷ es) cs)

-- The answer, and the root afterwards.
unfoldable pub delete_found : Node → Option Node → Option (Bool × Option Node)
unfolding shrink_root
delete_found n none = none
delete_found n (some n') = elim (shrink_root n') [ none ↦ none | some r ↦ some (true, some r) ]

module _ (compare : KeyComparator) (layout : BtreeLayout) where
  -- The fuel is for the nodes on the way down.
  unfoldable pub delete_recursive : ℕ → Key → Node → Option Node
  unfolding delete_below remove_from_leaf ensure_min_keys
  delete_recursive zero key n = none
  delete_recursive (suc fuel) key (leaf es) = remove_from_leaf es (node_key_position compare key es)
  delete_recursive (suc fuel) key (inner es cs) =
      delete_below compare (λ k n. delete_recursive fuel k n) key
        (node_key_position compare key es).0
        (ensure_min_keys layout es cs (node_key_position compare key es).1)

  unfoldable pub btree_delete : Option Node → Key → Option (Bool × Option Node)
  unfolding btree_search delete_found delete_recursive height
  btree_delete none key = some (false, none)
  btree_delete (some n) key = elim (btree_search compare (some n) key) [
    | none ↦ none
    | some none ↦ some (false, some n)
    | some (some o) ↦ delete_found n (delete_recursive (suc (height n)) key n)
  ]
