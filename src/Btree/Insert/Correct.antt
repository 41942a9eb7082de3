-- ===== src/Btree/Insert/Correct.antt =====
-- What insertion does to the entries in order: the new one is put in its place.
use maxql.Prelude.{
  ℕ, zero, suc, ◌≤◌, ◌<◌, List, [], ◌∷◌, ◌++◌, Option, none, some, ◌≡◌, inl, inr, refl, sym, ap,
  ◌∙◌, arith, length, drop, get_elem?, take-get-drop, length-drop, append-nil, All-append_right,
}
use maxql.Btree.Order.{KeyComparator, IsKeyOrder}
use maxql.Btree.Layout.{BtreeLayout, IsLayout}
use maxql.Btree.Node.{
  Entry, Node, leaf, inner, Children, none_left, child, child_count, get_child, set_child,
  drop_children, get_child-some,
}
use maxql.Btree.Inorder.{inorder, weave, IsSorted, insert_sorted, IsSorted-get_child}
use maxql.Btree.Shape.{
  IsNode, AreNodes, child_count-drop_children, child_count-set_child, child_count-insert_child_at,
}
use maxql.Btree.Insert.{
  Split, create_root, create_leaf, lower_bound, insert_value, plug, climb, btree_insert_do,
}
use maxql.Btree.Insert.Recursive.{
  Outcome, placed, divided, leaf_step, divided_step, inner_step, and_then, insert_node,
  insert_child, finish, btree_insert_do-insert_node,
}
use maxql.Btree.Insert.Shape.{
  lower_bound-le, length-insert_value, leaf_halves, inner_halves, with_entry, with_child,
  leaf_step_cases, divided_step_cases, IsTree, btree_insert_do-IsTree,
}
use maxql.Btree.Insert.Order.{
  insert_value-insert_sorted, weave-set_child, weave-insert_child_at, child-lower_bound,
  weave-take-drop, take_all, take_children_all,
}

abbrev pub split_contents : Split → List Entry
split_contents s = inorder s.left ++ s.median ∷ inorder s.right

abbrev pub contents : Outcome → List Entry
contents (placed n) = inorder n
contents (divided s) = split_contents s

module _ (layout : BtreeLayout) (l : IsLayout layout) where
  contents-leaf_halves :
      (tmp : List Entry) (m : Entry)
      → length tmp ≡ suc layout.max_keys
      → get_elem? tmp layout.mid ≡ some m
      → split_contents (leaf_halves layout tmp m) ≡ tmp
  unfolding inorder
  contents-leaf_halves tmp m long at =
      let rest =
        take_all layout.right_count (drop layout.right_start tmp)
          (omega (arith, length-drop layout.right_start tmp, l.right_half, l.right_next)) in
      let next : layout.right_start ≡ suc layout.left_count = omega (arith, l.right_next) in
      rw (rest, next) (take-get-drop layout.left_count tmp (rw l.mid_left at at))

  contents-inner_halves :
      (tmp : List Entry) (cs : Children) (m : Entry)
      → length tmp ≡ suc layout.max_keys
      → child_count cs ≡ suc (length tmp)
      → get_elem? tmp layout.mid ≡ some m
      → split_contents (inner_halves layout tmp cs m) ≡ weave cs tmp
  unfolding inorder
  contents-inner_halves tmp cs m long count at =
      let rest =
        take_all layout.right_count (drop layout.right_start tmp)
          (omega (arith, length-drop layout.right_start tmp, l.right_half, l.right_next)) in
      let rests = take_children_all (suc layout.right_count) (drop_children layout.right_start cs) (
        omega
          (arith, child_count-drop_children layout.right_start cs, l.right_half, l.right_next)) in
      let next : layout.right_start ≡ suc layout.left_count = omega (arith, l.right_next) in
      rw (rest, rests, next) (weave-take-drop layout.left_count tmp cs count (rw l.mid_left at at))

module _ (compare : KeyComparator) (layout : BtreeLayout) (l : IsLayout layout) where
  and_then-eq-some :
      (r : Option Outcome) (f : Outcome → Option Outcome) {b : Outcome}
      → and_then compare layout r f ≡ some b
      → (a : Outcome) × (r ≡ some a) × (f a ≡ some b)
  unfolding and_then
  and_then-eq-some none f h = cc
  and_then-eq-some (some a) f h = (a, refl, h)

  module _ (o : IsKeyOrder compare) (e : Entry) where
    leaf_step-contents :
        (es : List Entry) (r : Outcome)
        → length es ≤ layout.max_keys
        → leaf_step compare layout e es ≡ some r
        → contents r ≡ insert_sorted compare e es
    unfolding inorder
    leaf_step-contents es r hi eq =
        let value = insert_value-insert_sorted compare e es in
        elim (leaf_step_cases compare layout l e es hi) [
          | inl (free, eq') ↦
              let same : r ≡ placed (leaf (with_entry compare e es)) = cc in rw same value
          | inr (m, full, at, eq') ↦
              let same : r ≡ divided (leaf_halves layout (with_entry compare e es) m) = cc in
              rw same (
                contents-leaf_halves layout l (with_entry compare e es) m
                  (length-insert_value compare e es ∙ ap suc full) at
                ∙ value)
        ]

    -- A node that takes the entry between the halves of its child, with the right half.
    weave_grown :
        (es : List Entry) (cs : Children) (c : ℕ) (n : Node) (s : Split)
        → child_count cs ≡ suc (length es)
        → IsSorted compare (weave cs es)
        → lower_bound compare e.key es ≡ c
        → get_child cs c ≡ some n
        → split_contents s ≡ insert_sorted compare e (inorder n)
        → weave
            (with_child compare s.median es (set_child cs c s.left) s.right)
            (with_entry compare s.median es)
          ≡ insert_sorted compare e (weave cs es)
    unfolding insert_value
    weave_grown es cs c n s count sorted h at same =
        let all = child-lower_bound compare o e es cs c n sorted h at in
        let place : lower_bound compare s.median.key es ≡ c =
          (All-append_right _ (inorder s.left) (s.median ∷ inorder s.right)
            (rw (← same) at all)).0 in
        rw place (weave-insert_child_at compare o e es cs c n s count sorted h at same)

    divided_step-contents :
        (es : List Entry) (cs : Children) (c : ℕ) (n : Node) (s : Split) (r : Outcome)
        → length es ≤ layout.max_keys
        → child_count cs ≡ suc (length es)
        → IsSorted compare (weave cs es)
        → lower_bound compare e.key es ≡ c
        → get_child cs c ≡ some n
        → split_contents s ≡ insert_sorted compare e (inorder n)
        → divided_step compare layout es (set_child cs c s.left) s.median s.right ≡ some r
        → contents r ≡ insert_sorted compare e (weave cs es)
    unfolding inorder
    divided_step-contents es cs c n s r hi count sorted h at same eq =
        let cs' = set_child cs c s.left in
        let tmp = with_entry compare s.median es in
        let tmp_children = with_child compare s.median es cs' s.right in
        let grown = weave_grown es cs c n s count sorted h at same in
        let longer = length-insert_value compare s.median es in
        elim (divided_step_cases compare layout l es cs' s.median s.right hi) [
          | inl (free, eq') ↦ let same' : r ≡ placed (inner tmp tmp_children) = cc in rw same' grown
          | inr (m, full, med, eq') ↦
              let same' : r ≡ divided (inner_halves layout tmp tmp_children m) = cc in
              let counted =
                child_count-insert_child_at (suc (lower_bound compare s.median.key es)) s.right
                  cs' in
              rw same' (
                contents-inner_halves layout l tmp tmp_children m (longer ∙ ap suc full)
                  (omega (arith, child_count-set_child cs c s.left)) med
                ∙ grown)
        ]

    inner_step-contents :
        (es : List Entry) (cs : Children) (c : ℕ) (n : Node) (a r : Outcome)
        → length es ≤ layout.max_keys
        → child_count cs ≡ suc (length es)
        → IsSorted compare (weave cs es)
        → lower_bound compare e.key es ≡ c
        → get_child cs c ≡ some n
        → contents a ≡ insert_sorted compare e (inorder n)
        → inner_step compare layout es cs c a ≡ some r
        → contents r ≡ insert_sorted compare e (weave cs es)
    unfolding inorder inner_step
    inner_step-contents es cs c n (placed n') r hi count sorted h at same eq =
        let same' : r ≡ placed (inner es (set_child cs c n')) = cc in
        rw same' (weave-set_child compare o e es cs c n n' count sorted h at same)
    inner_step-contents es cs c n (divided s) r hi count sorted h at same eq =
        divided_step-contents es cs c n s r hi count sorted h at same eq

    mutual
      unfolding insert_node inorder

      insert_node-contents :
          (n : Node) (h least : ℕ) (r : Outcome)
          → IsNode layout h least n
          → IsSorted compare (inorder n)
          → insert_node compare layout e n ≡ some r
          → contents r ≡ insert_sorted compare e (inorder n)
      insert_node-contents (leaf es) h least r w s eq = leaf_step-contents es r w.2 eq
      insert_node-contents (inner es cs) zero least r w s eq = absurd w
      insert_node-contents (inner es cs) (suc h) least r w s eq =
          let c = lower_bound compare e.key es in
          let inside : c < child_count cs = omega (arith, lower_bound-le compare e.key es, w.2) in
          let (n, at) = get_child-some cs c inside in
          let (a, below, step) = and_then-eq-some _ (inner_step compare layout es cs c) eq in
          inner_step-contents es cs c n a r w.1 w.2 s refl at
            (insert_child-contents cs c h n a w.3 at (IsSorted-get_child compare cs es c at s)
              below)
            step

      insert_child-contents :
          (cs : Children) (i h : ℕ) (n : Node) (a : Outcome)
          → AreNodes layout h cs
          → get_child cs i ≡ some n
          → IsSorted compare (inorder n)
          → insert_child compare layout e cs i ≡ some a
          → contents a ≡ insert_sorted compare e (inorder n)
      insert_child-contents none_left i h n a w at s eq = cc
      insert_child-contents (child m ns) zero h n a w at s eq =
          let here : n ≡ m = cc in
          rw here (insert_node-contents m h layout.min_keys a w.0 (rw here at s) eq)
      insert_child-contents (child m ns) (suc i) h n a w at s eq =
          insert_child-contents ns i h n a w.1 at s eq

    finish-contents :
        (a : Outcome) (root : Node)
        → finish compare layout [] (some a) ≡ some root
        → inorder root ≡ contents a
    unfolding finish plug climb create_root inorder
    finish-contents (placed n) root eq = let same : root ≡ n = cc in ap inorder same
    finish-contents (divided s) root eq =
        let same : root ≡ create_root s.left s.right s.median = cc in rw same (simp append-nil)

module _ (compare : KeyComparator) (layout : BtreeLayout) where
  finish-eq-some :
      (r : Option Outcome) {n : Node}
      → finish compare layout [] r ≡ some n
      → (a : Outcome) × (r ≡ some a) × (finish compare layout [] (some a) ≡ some n)
  unfolding finish
  finish-eq-some none h = cc
  finish-eq-some (some a) h = (a, refl, h)

abbrev pub root_entries : Option Node → List Entry
root_entries none = []
root_entries (some n) = inorder n

module _ (compare : KeyComparator) (layout : BtreeLayout) where
  -- Insertion into a well-formed tree whose keys increase, under a lawful key order and a layout
  -- with room for a key, gives a tree whose entries in order are the old ones with the new one
  -- before the first whose key is not below it.
  pub btree_insert_do-inorder :
      (root : Option Node) (e : Entry)
      → IsLayout layout
      → IsKeyOrder compare
      → IsTree layout root
      → IsSorted compare (root_entries root)
      → (n : Node) × (btree_insert_do compare layout root e ≡ some n)
        × (inorder n ≡ insert_sorted compare e (root_entries root))
  unfolding btree_insert_do create_leaf inorder insert_sorted
  btree_insert_do-inorder none e l o w s = (create_leaf e, refl, refl)
  btree_insert_do-inorder (some root) e l o (h, w) s =
      let (n, made, tree) = btree_insert_do-IsTree compare layout l (some root) e (h, w) in
      let steps = sym (btree_insert_do-insert_node compare layout root e) ∙ made in
      let (a, inserted, finished) = finish-eq-some compare layout _ steps in
      (
        n,
        made,
        finish-contents compare layout l o e a n finished
            ∙ insert_node-contents compare layout l o e root h 1 a w s inserted,
      )
