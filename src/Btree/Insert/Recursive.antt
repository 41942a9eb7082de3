-- ===== src/Btree/Insert/Recursive.antt =====
-- The insertion as a recursion on the tree that hands a split up, and that the walk down with the
-- climb back up computes the same.
use maxql.Prelude.{ℕ, zero, suc, List, [], ◌∷◌, Option, none, some, ◌≡◌, refl, ◌∙◌, arith}
use maxql.Btree.Order.{KeyComparator}
use maxql.Btree.Layout.{BtreeLayout}
use maxql.Btree.Node.{Entry, Node, leaf, inner, Children, none_left, child, set_child}
use maxql.Btree.Insert.{
  Frame, Split, lower_bound, find_leaf, find_child, plug, insert_into_leaf, insert_into_node,
  split_leaf, split_inner, climb, insert_at_leaf, btree_insert_do,
}

-- The node was changed in place, or split.
pub data Outcome : Type 0 where
  placed : Node → Outcome
  divided : Split → Outcome

module _ (compare : KeyComparator) (layout : BtreeLayout) where
  unfoldable pub leaf_step : Entry → List Entry → Option Outcome
  leaf_step e es = elim (insert_into_leaf compare layout es e) [
    | some n ↦ some (placed n)
    | none ↦ elim (split_leaf compare layout es e) [ none ↦ none | some s ↦ some (divided s) ]
  ]

  unfoldable pub divided_step : List Entry → Children → Entry → Node → Option Outcome
  divided_step es cs m right = elim (insert_into_node compare layout es cs right m) [
    | some n ↦ some (placed n)
    | none ↦ elim (split_inner compare layout es cs m right) [
      | none ↦ none
      | some s ↦ some (divided s)
    ]
  ]

  -- What becomes of a node when the child at `c` was changed.
  unfoldable pub inner_step : List Entry → Children → ℕ → Outcome → Option Outcome
  unfolding divided_step
  inner_step es cs c (placed n) = some (placed (inner es (set_child cs c n)))
  inner_step es cs c (divided s) = divided_step es (set_child cs c s.left) s.median s.right

  -- The rest of the insertion above a changed node.
  unfoldable pub finish : List Frame → Option Outcome → Option Node
  finish up none = none
  finish up (some (placed n)) = some (plug up n)
  finish up (some (divided s)) = climb compare layout up s

  unfoldable pub and_then : Option Outcome → (Outcome → Option Outcome) → Option Outcome
  and_then none f = none
  and_then (some a) f = f a

  unfoldable mutual
    pub insert_node : Entry → Node → Option Outcome
    insert_node e (leaf es) = leaf_step e es
    insert_node e (inner es cs) =
        and_then (insert_child e cs (lower_bound compare e.key es))
          (inner_step es cs (lower_bound compare e.key es))

    pub insert_child : Entry → Children → ℕ → Option Outcome
    insert_child e none_left i = none
    insert_child e (child n ns) zero = insert_node e n
    insert_child e (child n ns) (suc i) = insert_child e ns i

  finish-frame :
      (f : Frame) (up : List Frame) (r : Option Outcome)
      → finish (f ∷ up) r ≡ finish up (and_then r (inner_step f.keys f.children f.index))
  unfolding finish inner_step climb plug and_then
  finish-frame f up none = refl
  finish-frame f up (some (placed n)) = refl
  finish-frame f up (some (divided s)) = ground arith

  finish-leaf_step :
      (e : Entry) (es : List Entry) (up : List Frame)
      → insert_at_leaf compare layout e es up ≡ finish up (leaf_step e es)
  unfolding insert_at_leaf leaf_step finish
  finish-leaf_step e es up = ground arith

  abbrev then_insert : Entry → Option (List Entry × List Frame) → Option Node
  then_insert e none = none
  then_insert e (some (es, path)) = insert_at_leaf compare layout e es path

  mutual
    unfolding find_leaf insert_node finish

    then_insert-find_leaf :
        (e : Entry) (n : Node) (up : List Frame)
        → then_insert e (find_leaf compare e.key n up) ≡ finish up (insert_node e n)
    then_insert-find_leaf e (leaf es) up = finish-leaf_step e es up
    then_insert-find_leaf e (inner es cs) up =
        then_insert-find_child e cs (lower_bound compare e.key es)
          (record { keys = es; children = cs; index = lower_bound compare e.key es } ∷ up)
        ∙ finish-frame _ up _

    then_insert-find_child :
        (e : Entry) (cs : Children) (i : ℕ) (up : List Frame)
        → then_insert e (find_child compare e.key cs i up) ≡ finish up (insert_child e cs i)
    then_insert-find_child e none_left i up = refl
    then_insert-find_child e (child n ns) zero up = then_insert-find_leaf e n up
    then_insert-find_child e (child n ns) (suc i) up = then_insert-find_child e ns i up

  -- Inserting by the walk down and the climb up is the recursion, with a new root on a split.
  pub btree_insert_do-insert_node :
      (root : Node) (e : Entry)
      → btree_insert_do compare layout (some root) e ≡ finish [] (insert_node e root)
  unfolding btree_insert_do
  btree_insert_do-insert_node root e = ground (arith, then_insert-find_leaf e root [])
