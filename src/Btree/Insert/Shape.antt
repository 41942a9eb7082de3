-- ===== src/Btree/Insert/Shape.antt =====
-- Insertion never reads outside a node, and keeps the depth of the leaves equal and each node
-- filled between its bounds.
use maxql.Prelude.{
  ℕ, zero, suc, ◌≤◌, ◌<◌, List, [], ◌∷◌, Option, none, some, ◌≡◌, ◌⊎◌, refl, ap, ◌∙◌, arith, length,
  take, drop, get_elem?, get_elem?-some, length-take, length-drop, leb, Bool-cases, inl, inr,
}
use maxql.Btree.Order.{Key, KeyComparator}
use maxql.Btree.Layout.{BtreeLayout, IsLayout}
use maxql.Btree.Node.{
  Entry, Node, leaf, inner, Children, none_left, child, child_count, set_child, insert_child_at,
  take_children, drop_children,
}
use maxql.Btree.Shape.{
  IsNode, AreNodes, AreNodes-set_child, AreNodes-insert_child_at, AreNodes-take_children,
  AreNodes-drop_children, child_count-set_child, child_count-insert_child_at,
  child_count-take_children, child_count-drop_children, length-insert_at,
}
use maxql.Btree.Insert.{
  Split, lower_bound, insert_value, insert_into_leaf, insert_into_node, split_leaf, split_inner,
  climb, plug, create_root, create_leaf, btree_insert_do,
}
use maxql.Btree.Insert.Recursive.{
  Outcome, placed, divided, leaf_step, divided_step, inner_step, and_then, insert_node,
  insert_child, finish, btree_insert_do-insert_node,
}

module _ (compare : KeyComparator) where
  pub lower_bound-le : (key : Key) (es : List Entry) → lower_bound compare key es ≤ length es
  unfolding lower_bound
  lower_bound-le key [] = omega arith
  lower_bound-le key (e ∷ es) = ground (arith, lower_bound-le key es)

  -- The entries of a node that takes `e`.
  abbrev pub with_entry : Entry → List Entry → List Entry
  with_entry e es = (insert_value compare e es).0

  -- The children of a node that takes `m` with `right`.
  abbrev pub with_child : Entry → List Entry → Children → Node → Children
  with_child m es cs right = insert_child_at (suc (lower_bound compare m.key es)) right cs

  pub length-insert_value :
      (e : Entry) (es : List Entry) → length (insert_value compare e es).0 ≡ suc (length es)
  unfolding insert_value
  length-insert_value e es = length-insert_at (lower_bound compare e.key es) e es

module _ (layout : BtreeLayout) where
  -- The two halves of an overfull leaf, and of an overfull inner node.
  abbrev pub leaf_halves : List Entry → Entry → Split
  leaf_halves tmp m = record {
    left = leaf (take layout.left_count tmp);
    right = leaf (take layout.right_count (drop layout.right_start tmp));
    median = m;
  }

  abbrev pub inner_halves : List Entry → Children → Entry → Split
  inner_halves tmp cs m = record {
    left = inner (take layout.left_count tmp) (take_children (suc layout.left_count) cs);
    right =
        inner (take layout.right_count (drop layout.right_start tmp))
          (take_children (suc layout.right_count) (drop_children layout.right_start cs));
    median = m;
  }

  abbrev pub HasShape : ℕ → ℕ → Outcome → Type 0
  HasShape h least (placed n) = IsNode layout h least n
  HasShape h least (divided s) =
      IsNode layout h layout.min_keys s.left × IsNode layout h layout.min_keys s.right

  module _ (l : IsLayout layout) where
    leaf_halves-HasShape :
        (tmp : List Entry) (m : Entry) (least : ℕ)
        → length tmp ≡ suc layout.max_keys
        → HasShape 0 least (divided (leaf_halves tmp m))
    leaf_halves-HasShape tmp m least h = omega (
      arith,
      l.left_half,
      l.right_half,
      l.right_next,
      l.min_half,
      l.some_key,
      length-take layout.left_count tmp,
      length-drop layout.right_start tmp,
      length-take layout.right_count (drop layout.right_start tmp),
    )

    inner_halves-HasShape :
        (tmp : List Entry) (cs : Children) (m : Entry) (h least : ℕ)
        → length tmp ≡ suc layout.max_keys
        → child_count cs ≡ suc (length tmp)
        → AreNodes layout h cs
        → HasShape (suc h) least (divided (inner_halves tmp cs m))
    inner_halves-HasShape tmp cs m h least long count a =
        let left = length-take layout.left_count tmp in
        let rest = length-drop layout.right_start tmp in
        let right = length-take layout.right_count (drop layout.right_start tmp) in
        let lefts = child_count-take_children (suc layout.left_count) cs in
        let rests = child_count-drop_children layout.right_start cs in
        let rights =
          child_count-take_children (suc layout.right_count)
            (drop_children layout.right_start cs) in
        (
          (
            (omega (arith, l.left_half, l.right_half, l.right_next, l.min_half, l.some_key)),
            (omega (arith, l.left_half, l.right_half, l.right_next, l.min_half, l.some_key)),
            (omega (arith, l.left_half, l.right_half, l.right_next, l.min_half, l.some_key)),
            AreNodes-take_children layout h (suc layout.left_count) cs a,
          ),
          (
            (omega (arith, l.left_half, l.right_half, l.right_next, l.min_half, l.some_key)),
            (omega (arith, l.left_half, l.right_half, l.right_next, l.min_half, l.some_key)),
            (omega (arith, l.left_half, l.right_half, l.right_next, l.min_half, l.some_key)),
            AreNodes-take_children layout h (suc layout.right_count)
                (drop_children layout.right_start cs)
                (AreNodes-drop_children layout h layout.right_start cs a),
          ),
        )

module _ (compare : KeyComparator) (layout : BtreeLayout) (l : IsLayout layout) where
  median_some :
      (e : Entry) (es : List Entry)
      → length es ≡ layout.max_keys
      → (m : Entry) × (get_elem? (with_entry compare e es) layout.mid ≡ some m)
  median_some e es h =
      get_elem?-some (with_entry compare e es) layout.mid
        (omega (arith, length-insert_value compare e es, l.mid_left, l.left_half, l.some_key))

  -- A leaf takes the entry, or is full and divided.
  pub leaf_step_cases :
      (e : Entry) (es : List Entry)
      → length es ≤ layout.max_keys
      → ((length es < layout.max_keys)
          × (leaf_step compare layout e es ≡ some (placed (leaf (with_entry compare e es)))))
        ⊎ ((m : Entry) × (length es ≡ layout.max_keys)
            × (get_elem? (with_entry compare e es) layout.mid ≡ some m)
            × (leaf_step compare layout e es
                ≡ some (divided (leaf_halves layout (with_entry compare e es) m))))
  unfolding leaf_step insert_into_leaf split_leaf
  leaf_step_cases e es h = elim (Bool-cases (leb layout.max_keys (length es))) [
    | inl full ↦
        let (m, at) = median_some e es (ground arith) in inr (m, ground arith, at, ground arith)
    | inr free ↦ inl (ground arith, ground arith)
  ]

  pub divided_step_cases :
      (es : List Entry) (cs : Children) (e : Entry) (right : Node)
      → length es ≤ layout.max_keys
      → ((length es < layout.max_keys)
          × (divided_step compare layout es cs e right
              ≡ some (placed (inner (with_entry compare e es) (with_child compare e es cs right)))))
        ⊎ ((m : Entry) × (length es ≡ layout.max_keys)
            × (get_elem? (with_entry compare e es) layout.mid ≡ some m)
            × (divided_step compare layout es cs e right
                ≡ some (
                    divided (
                      inner_halves layout
                        (with_entry compare e es)
                        (with_child compare e es cs right)
                        m))))
  unfolding divided_step insert_into_node split_inner insert_value
  divided_step_cases es cs e right h = elim (Bool-cases (leb layout.max_keys (length es))) [
    | inl full ↦
        let (m, at) = median_some e es (ground arith) in inr (m, ground arith, at, ground arith)
    | inr free ↦ inl (ground arith, ground arith)
  ]

  -- The step gives a result of this shape.
  abbrev Gives : ℕ → ℕ → Option Outcome → Type 0
  Gives h least r = (a : Outcome) × (r ≡ some a) × HasShape layout h least a

  leaf_step-Gives :
      (e : Entry) (es : List Entry) (least : ℕ)
      → least ≤ length es
      → length es ≤ layout.max_keys
      → Gives 0 least (leaf_step compare layout e es)
  leaf_step-Gives e es least lo hi = elim (leaf_step_cases e es hi) [
    | inl (free, eq) ↦ (
      placed (leaf (with_entry compare e es)),
      eq,
      omega (arith, length-insert_value compare e es),
    )
    | inr (m, full, at, eq) ↦ (
      divided (leaf_halves layout (with_entry compare e es) m),
      eq,
      leaf_halves-HasShape layout l (with_entry compare e es) m least
          (omega (arith, length-insert_value compare e es)),
    )
  ]

  divided_step-Gives :
      (es : List Entry) (cs : Children) (e : Entry) (right : Node) (h least : ℕ)
      → IsNode layout (suc h) least (inner es cs)
      → IsNode layout h layout.min_keys right
      → Gives (suc h) least (divided_step compare layout es cs e right)
  divided_step-Gives es cs e right h least (lo, hi, count, a) r =
      let longer = length-insert_value compare e es in
      let more = child_count-insert_child_at (suc (lower_bound compare e.key es)) right cs in
      let all =
        AreNodes-insert_child_at layout h (suc (lower_bound compare e.key es)) right cs r a in
      elim (divided_step_cases es cs e right hi) [
        | inl (free, eq) ↦ (
          placed (inner (with_entry compare e es) (with_child compare e es cs right)),
          eq,
          (omega arith, omega arith, omega arith, all),
        )
        | inr (m, full, at, eq) ↦ (
          divided
              (inner_halves layout (with_entry compare e es) (with_child compare e es cs right) m),
          eq,
          inner_halves-HasShape layout l (with_entry compare e es)
              (with_child compare e es cs right) m h least (omega arith) (omega arith) all,
        )
      ]

  inner_step-Gives :
      (es : List Entry) (cs : Children) (c h least : ℕ) (r : Outcome)
      → IsNode layout (suc h) least (inner es cs)
      → HasShape layout h layout.min_keys r
      → Gives (suc h) least (inner_step compare layout es cs c r)
  unfolding inner_step
  inner_step-Gives es cs c h least (placed n) (lo, hi, count, a) s = (
    placed (inner es (set_child cs c n)),
    refl,
    (lo, hi, child_count-set_child cs c n ∙ count, AreNodes-set_child layout h cs c n s a),
  )
  inner_step-Gives es cs c h least (divided s) (lo, hi, count, a) (left, right) =
      divided_step-Gives es (set_child cs c s.left) s.median s.right h least
        (
          lo,
          hi,
          child_count-set_child cs c s.left ∙ count,
          AreNodes-set_child layout h cs c s.left left a,
        )
        right

  and_then-Gives :
      {h least h' least' : ℕ} (r : Option Outcome) (f : Outcome → Option Outcome)
      → Gives h least r
      → ((a : Outcome) → HasShape layout h least a → Gives h' least' (f a))
      → Gives h' least' (and_then compare layout r f)
  unfolding and_then
  and_then-Gives none f (a, eq, s) k = cc
  and_then-Gives (some b) f (a, eq, s) k = let e : b ≡ a = cc in rw e (k a s)

  mutual
    unfolding insert_node

    insert_node-Gives :
        (e : Entry) (n : Node) (h least : ℕ)
        → IsNode layout h least n
        → Gives h least (insert_node compare layout e n)
    insert_node-Gives e (leaf es) h least (z, lo, hi) = rw z (leaf_step-Gives e es least lo hi)
    insert_node-Gives e (inner es cs) zero least w = absurd w
    insert_node-Gives e (inner es cs) (suc h) least w =
        and_then-Gives _ _
          (insert_child-Gives e cs (lower_bound compare e.key es) h
            (omega (arith, lower_bound-le compare e.key es, w.2)) w.3)
          (λ a s. inner_step-Gives es cs (lower_bound compare e.key es) h least a w s)

    insert_child-Gives :
        (e : Entry) (cs : Children) (i h : ℕ)
        → i < child_count cs
        → AreNodes layout h cs
        → Gives h layout.min_keys (insert_child compare layout e cs i)
    insert_child-Gives e none_left i h lt a = absurd (omega arith)
    insert_child-Gives e (child n ns) zero h lt a = insert_node-Gives e n h layout.min_keys a.0
    insert_child-Gives e (child n ns) (suc i) h lt a = insert_child-Gives e ns i h (omega arith) a.1

-- The root of a tree: none, or a node of some height with at least one entry.
abbrev pub IsTree : BtreeLayout → Option Node → Type 0
IsTree layout none = Unit
IsTree layout (some n) = (h : ℕ) × IsNode layout h 1 n

module _ (compare : KeyComparator) (layout : BtreeLayout) (l : IsLayout layout) where
  finish-IsTree :
      (h : ℕ) (r : Outcome)
      → HasShape layout h 1 r
      → (root : Node) × (finish compare layout [] (some r) ≡ some root) × IsTree layout (some root)
  unfolding finish plug climb create_root
  finish-IsTree h (placed n) s = (n, refl, (h, s))
  finish-IsTree h (divided s) (left, right) = (
    create_root s.left s.right s.median,
    refl,
    (suc h, (omega arith, l.some_key, refl, (left, (right, tt)))),
  )

  -- Insertion into a well-formed tree meets no missing child and no unset cell, whatever the
  -- comparator does, and gives a well-formed tree: equally deep leaves, `key_count + 1` children
  -- under each inner node, and between `min_keys` and `max_keys` entries in each node but the root.
  pub btree_insert_do-IsTree :
      (root : Option Node) (e : Entry)
      → IsTree layout root
      → (n : Node) × (btree_insert_do compare layout root e ≡ some n) × IsTree layout (some n)
  unfolding btree_insert_do create_leaf
  btree_insert_do-IsTree none e w = (create_leaf e, refl, (0, (refl, omega arith, l.some_key)))
  btree_insert_do-IsTree (some root) e (h, w) =
      let (r, eq, s) = insert_node-Gives compare layout l e root h 1 w in
      let (n, made, tree) = finish-IsTree h r s in
      (
        n,
        btree_insert_do-insert_node compare layout root e
            ∙ (ap (finish compare layout []) eq ∙ made),
        tree,
      )
