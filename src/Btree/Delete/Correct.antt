-- ===== src/Btree/Delete/Correct.antt =====
-- `btree_delete` of src/index/btree.c on a tree of at most two levels, for a key in a leaf.
use maxql.Prelude.{
  ℕ, zero, suc, ◌≤◌, ◌<◌, List, [], ◌∷◌, Option, some, true, false, ◌≡◌, ◌⊎◌, inl, inr, refl, sym,
  ap, ◌∙◌, arith, length, All, append-nil,
}
use maxql.Btree.Order.{Key, KeyComparator, IsKeyOrder}
use maxql.Btree.Layout.{BtreeLayout, IsLayout}
use maxql.Btree.Node.{
  Entry, Node, leaf, inner, Children, none_left, child, child_count, get_child, set_child,
}
use maxql.Btree.Inorder.{inorder, weave, IsSorted, IsSorted-get_child}
use maxql.Btree.Shape.{IsNode, AreNodes, AreNodes-set_child, child_count-set_child}
use maxql.Btree.Insert.Shape.{IsTree}
use maxql.Btree.Search.{btree_search}
use maxql.Btree.Search.Laws.{lookup_key, Differs, btree_search-lookup_key}
use maxql.Btree.Delete.{
  node_key_position, remove_at, remove_from_leaf, put_child, delete_below, delete_recursive,
  shrink_root, delete_found, btree_delete, height, height_below, ensure_min_keys,
}
use maxql.Btree.Delete.Position.{IsBelow}
use maxql.Btree.Delete.Removal.{
  remove_key, node_key_position-found, remove_at-remove_key, lookup_key-child, remove_key-child,
}
use maxql.Btree.Delete.Leaves.{HaveRoomBehind, Ensured, length-remove_at}
use maxql.Btree.Delete.Ensure.{ensure_min_keys-Ensured}

-- No child of the root but the first is full.
abbrev pub HasRoom : BtreeLayout → Node → Type 0
HasRoom layout (leaf es) = Unit
HasRoom layout (inner es cs) = HaveRoomBehind layout cs

-- The entries of an inner root; a leaf has none that counts.
abbrev pub inner_entries : Node → List Entry
inner_entries (leaf es) = []
inner_entries (inner es cs) = es

module _ (compare : KeyComparator) where
  not_here :
      (k : Key) (es : List Entry)
      → All (Differs compare k) es
      → (node_key_position compare k es).0 ≡ false
  unfolding node_key_position
  not_here k [] d = refl
  not_here k (x ∷ es) d = ground (arith, not_here k es d.1)

  IsBelow-of_absent :
      (k : Key) (es : List Entry)
      → (node_key_position compare k es).0 ≡ false
      → IsBelow compare k es (node_key_position compare k es).1
  IsBelow-of_absent k es h = rw h refl

  position-lt :
      (k : Key) (es : List Entry)
      → (node_key_position compare k es).0 ≡ true
      → (node_key_position compare k es).1 < length es
  unfolding node_key_position
  position-lt k [] h = cc
  position-lt k (x ∷ es) h = ground (arith, position-lt k es)

module _ (compare : KeyComparator) (layout : BtreeLayout) where
  delete_recursive-inner :
      (fuel : ℕ) (key : Key) (es : List Entry) (cs : Children) {es' : List Entry} {cs' : Children}
      → (node_key_position compare key es).0 ≡ false
      → ensure_min_keys layout es cs (node_key_position compare key es).1 ≡ some (es', cs')
      → delete_recursive compare layout (suc fuel) key (inner es cs)
        ≡ delete_below compare
            (λ k n. delete_recursive compare layout fuel k n)
            key
            false
            (some (es', cs'))
  unfolding delete_recursive
  delete_recursive-inner fuel key es cs absent made =
      let at_once : delete_recursive compare layout (suc fuel) key (inner es cs)
          ≡ delete_below compare (λ k n. delete_recursive compare layout fuel k n) key
              (node_key_position compare key es).0
              (ensure_min_keys layout es cs (node_key_position compare key es).1) =
        refl in
      at_once
      ∙ ap
          (λ b.
            delete_below compare (λ k n. delete_recursive compare layout fuel k n) key b
              (ensure_min_keys layout es cs (node_key_position compare key es).1))
          absent
      ∙ ap (delete_below compare (λ k n. delete_recursive compare layout fuel k n) key false) made

delete_below-child :
    (compare : KeyComparator) (delete : Key → Node → Option Node) (key : Key) (es : List Entry)
    (cs : Children) (i : ℕ) {n m : Node}
    → IsBelow compare key es i
    → get_child cs i ≡ some n
    → delete key n ≡ some m
    → delete_below compare delete key false (some (es, cs)) ≡ some (inner es (set_child cs i m))
unfolding delete_below put_child
delete_below-child compare delete key es cs i {m = m} below at made =
    rw (delete_below, ap (λ t. t.1) below, at, made)
      (ap (λ t. some (inner es (set_child cs t m))) (ap (λ t. t.1) below))

module _ (layout : BtreeLayout) where
  -- A root without keys gives way to its only child.
  shrunk :
      (es : List Entry) (cs : Children)
      → child_count cs ≡ suc (length es)
      → AreNodes layout 0 cs
      → length es ≤ layout.max_keys
      → (n : Node) × (shrink_root (inner es cs) ≡ some n)
        × (inorder n ≡ weave cs es)
        × (IsTree layout (some n) ⊎ (n ≡ leaf []))
  unfolding shrink_root weave
  shrunk [] none_left count w most = absurd (omega arith)
  shrunk [] (child (leaf []) none_left) count w most = (leaf [], refl, refl, inr refl)
  shrunk [] (child (leaf (x ∷ xs)) none_left) count w most =
      (leaf (x ∷ xs), refl, sym (append-nil _), inl (0, (refl, omega arith, w.0.2)))
  shrunk [] (child (inner xs ms) none_left) count w most = absurd w.0
  shrunk [] (child m (child m' ns)) count w most = absurd (omega arith)
  shrunk (e ∷ es) cs count w most =
      (inner (e ∷ es) cs, refl, refl, inl (1, (omega arith, most, count, w)))

module _ (compare : KeyComparator) (layout : BtreeLayout) (o : IsKeyOrder compare)
    (lawful : IsLayout layout) where
  -- What a deletion leaves of a tree.
  record Deleted (key : Key) (root : Node) : Type 0 where
    pub node : Node
    pub made : btree_delete compare layout (some root) key ≡ some (true, some node)
    pub removed : inorder node ≡ remove_key compare key (inorder root)
    pub tree : IsTree layout (some node) ⊎ (node ≡ leaf [])

  delete_leaf :
      (fuel : ℕ) (key : Key) (es : List Entry) {v : ℕ}
      → IsSorted compare es
      → lookup_key compare key es ≡ some v
      → delete_recursive compare layout (suc fuel) key (leaf es)
        ≡ some (leaf (remove_at (node_key_position compare key es).1 es))
  unfolding delete_recursive
  delete_leaf fuel key es {v} s h =
      rw (remove_from_leaf, node_key_position-found compare o key es {v = v} s h) refl

  delete_at_leaf :
      (key : Key) (es : List Entry) (v : ℕ)
      → length es ≤ layout.max_keys
      → IsSorted compare es
      → lookup_key compare key es ≡ some v
      → btree_search compare (some (leaf es)) key ≡ some (some v)
      → Deleted key (leaf es)
  unfolding btree_delete delete_found shrink_root inorder
  delete_at_leaf key es v most s h asked =
      let here = node_key_position-found compare o key es {v = v} s h in
      let fewer =
        length-remove_at (node_key_position compare key es).1 es
          (position-lt compare key es here) in
      record {
        node = leaf (remove_at (node_key_position compare key es).1 es);
        made = rw (btree_delete, asked, delete_leaf (height (leaf es)) key es {v = v} s h) refl;
        removed = remove_at-remove_key compare o key es here;
        tree = leaf_tree (remove_at (node_key_position compare key es).1 es) (omega arith);
      }
    where
      leaf_tree :
          (xs : List Entry)
          → length xs ≤ layout.max_keys
          → IsTree layout (some (leaf xs)) ⊎ (leaf xs ≡ leaf [])
      leaf_tree [] m = inr refl
      leaf_tree (x ∷ xs) m = inl (0, (refl, omega arith, m))

  -- The whole deletion at an inner root, from what `ensure_min_keys` leaves.
  delete-Ensured :
      (key : Key) (es : List Entry) (cs : Children) (v : ℕ)
      → IsNode layout 1 1 (inner es cs)
      → IsSorted compare (weave cs es)
      → (node_key_position compare key es).0 ≡ false
      → lookup_key compare key (weave cs es) ≡ some v
      → btree_search compare (some (inner es cs)) key ≡ some (some v)
      → Ensured layout compare key es cs
          (ensure_min_keys layout es cs (node_key_position compare key es).1)
      → Deleted key (inner es cs)
  unfolding btree_delete inorder height
  delete-Ensured key es cs v w s absent h asked e =
      let sorted : IsSorted compare (weave e.children e.entries) = rw e.same s in
      let sorted_leaf = IsSorted-get_child compare e.children e.entries e.index e.at sorted in
      let whole : lookup_key compare key (weave e.children e.entries) ≡ some v = rw e.same h in
      let in_leaf : lookup_key compare key e.keys ≡ some v =
        sym (
          lookup_key-child compare o key e.entries e.children e.index e.counted sorted e.place e.at)
        ∙ whole in
      let here = node_key_position-found compare o key e.keys {v = v} sorted_leaf in_leaf in
      let ks = remove_at (node_key_position compare key e.keys).1 e.keys in
      let fewer =
        length-remove_at (node_key_position compare key e.keys).1 e.keys
          (position-lt compare key e.keys here) in
      let deleted = delete_leaf (height_below cs) key e.keys {v = v} sorted_leaf in_leaf in
      let order =
        remove_key-child compare o key e.entries e.children e.index (leaf ks) {v = v} e.counted
          sorted e.place e.at in_leaf (remove_at-remove_key compare o key e.keys here) in
      let (n, shrink, same, tree) =
        shrunk layout e.entries (set_child e.children e.index (leaf ks))
          (child_count-set_child e.children e.index (leaf ks) ∙ e.counted)
          (AreNodes-set_child layout 0 e.children e.index (leaf ks)
            (refl, omega (arith, e.spare), omega (arith, e.most)) e.leaves)
          (omega (arith, e.few, w.1)) in
      let rec =
        delete_recursive-inner compare layout (suc (height_below cs)) key es cs absent e.made
        ∙ delete_below-child compare (delete_recursive compare layout (suc (height_below cs))) key
            e.entries e.children e.index e.place e.at deleted in
      record {
        node = n;
        made = rw (btree_delete, asked, delete_found, rec, shrink) refl;
        removed = same ∙ order ∙ ap (remove_key compare key) e.same;
        tree = tree;
      }

  delete_at_inner :
      (key : Key) (es : List Entry) (cs : Children) (v : ℕ)
      → IsNode layout 1 1 (inner es cs)
      → IsSorted compare (weave cs es)
      → All (Differs compare key) es
      → lookup_key compare key (weave cs es) ≡ some v
      → btree_search compare (some (inner es cs)) key ≡ some (some v)
      → HaveRoomBehind layout cs
      → Deleted key (inner es cs)
  delete_at_inner key es cs v w s d h asked roomy =
      let absent = not_here compare key es d in
      delete-Ensured key es cs v w s absent h asked (
        ensure_min_keys-Ensured layout compare key es cs o lawful w.3 w.2 s roomy
          (node_key_position compare key es).1 w.0 (IsBelow-of_absent compare key es absent))

module _ (compare : KeyComparator) (layout : BtreeLayout) where
  -- In a well-formed tree of at most two levels whose keys increase under a lawful key order, with a
  -- layout that has room for a key, where no child of the root but the first is full, deletion of a key that a search
  -- finds and that no entry of an inner root equals answers `true`; the entries in order are then those before without that key's
  -- entry, and the tree is well-formed again or an empty leaf.
  pub btree_delete-remove_key :
      (root : Node) (h : ℕ) (key : Key) (v : ℕ)
      → IsKeyOrder compare
      → IsLayout layout
      → h ≤ 1
      → IsNode layout h 1 root
      → IsSorted compare (inorder root)
      → All (Differs compare key) (inner_entries root)
      → HasRoom layout root
      → btree_search compare (some root) key ≡ some (some v)
      → (n : Node) × (btree_delete compare layout (some root) key ≡ some (true, some n))
        × (inorder n ≡ remove_key compare key (inorder root))
        × (IsTree layout (some n) ⊎ (n ≡ leaf []))
  unfolding inorder
  btree_delete-remove_key root h key v o lawful flat w s d roomy asked =
      let answer = btree_search-lookup_key compare layout (some root) key o (h, w) s in
      let found' : lookup_key compare key (inorder root) ≡ some v = cc in
      let r = of_root root h flat w s d found' asked roomy in (r.node, r.made, r.removed, r.tree)
    where
      of_root :
          (root : Node) (h : ℕ)
          → h ≤ 1
          → IsNode layout h 1 root
          → IsSorted compare (inorder root)
          → All (Differs compare key) (inner_entries root)
          → lookup_key compare key (inorder root) ≡ some v
          → btree_search compare (some root) key ≡ some (some v)
          → HasRoom layout root
          → Deleted compare layout o lawful key root
      of_root (leaf es) h flat w s d f asked roomy =
          delete_at_leaf compare layout o lawful key es v w.2 s f asked
      of_root (inner es cs) zero flat w s d f asked roomy = absurd w
      of_root (inner es cs) (suc zero) flat w s d f asked roomy =
          delete_at_inner compare layout o lawful key es cs v w s d f asked roomy
      of_root (inner es cs) (suc (suc h)) flat w s d f asked roomy = absurd (omega arith)
