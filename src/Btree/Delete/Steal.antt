-- ===== src/Btree/Delete/Steal.antt =====
-- A steal and a merge of src/index/btree.c between leaves.
use maxql.Prelude.{
  ℕ, suc, ◌+◌, ◌-◌, ◌≤◌, ◌<◌, List, [], ◌∷◌, ◌++◌, Option, some, true, ◌≡◌, refl, sym, ap, ◌∙◌,
  arith, length, get_elem?, take, set, inl, inr, All-get_elem?, length-set, length-take,
  length-append, ltb→lt, lt→ltb, ◌⊎◌,
}
use Prim.Native.Nat.Ordering.{lt, gt}
use maxql.Btree.Order.{Key, KeyComparator, IsKeyOrder, lt_of_gt, gt_of_lt}
use maxql.Btree.Layout.{BtreeLayout, IsLayout}
use maxql.Btree.Node.{Entry, Node, leaf, Children, child_count, set_child}
use maxql.Btree.Inorder.{inorder, weave, Below, IsSorted}
use maxql.Btree.Shape.{AreNodes, AreNodes-set_child, child_count-set_child}
use maxql.Btree.Delete.{
  Pair, steal_left, steal_right, merge, put_pair, put_merged, with_pair, remove_at, remove_child_at,
  btree_steal_left, btree_steal_right, btree_merge, has_spare,
}
use maxql.Btree.Delete.Position.{
  IsBelow, IsBelow-lt, IsBelow-gt, IsBelow-set_before, IsBelow-set_at, weave-before, weave-behind,
}
use maxql.Btree.Delete.Weave.{
  weave-put_pair, weave-put_merged, steal_left-inorder, steal_right-inorder,
}
use maxql.Btree.Delete.Leaves.{
  get_child-set_child, get_child-set_child_before, child_count-remove_child_at, length-remove_at,
  with_pair-some, AreNodes-remove_child_at, LeafAt, has_spare-leaf, Ensured,
}

module _ (layout : BtreeLayout) (compare : KeyComparator) (key : Key) (es : List Entry)
    (cs : Children) where
  module _ (o : IsKeyOrder compare) (lawful : IsLayout layout) (leaves : AreNodes layout 0 cs)
      (counted : child_count cs ≡ suc (length es)) (sorted : IsSorted compare (weave cs es)) where
    module _ (i : ℕ) (l : LeafAt layout cs i) (r : LeafAt layout cs (suc i)) {p : Entry}
        (at_p : get_elem? es i ≡ some p) (fits : i < length es) where
      put_pair-Ensured :
          (f : Node → Entry → Node → Option Pair) (ls rs : List Entry) (e : Entry)
          → f (leaf l.keys) p (leaf r.keys)
            ≡ some (record { left = leaf ls; between = e; right = leaf rs })
          → ls ++ e ∷ rs ≡ l.keys ++ p ∷ r.keys
          → layout.min_keys ≤ length ls
          → length ls ≤ layout.max_keys
          → layout.min_keys ≤ length rs
          → length rs ≤ layout.max_keys
          → ((j : ℕ) × (ks : List Entry) × IsBelow compare key (set es i e) j
              × (layout.min_keys < length ks)
              × (length ks ≤ layout.max_keys)
              × (((j ≡ i) × (ks ≡ ls)) ⊎ ((j ≡ suc i) × (ks ≡ rs))))
          → Ensured layout compare key es cs (put_pair es cs i (with_pair f es cs i))
      unfolding put_pair inorder
      put_pair-Ensured f ls rs e made order least most least' most'
            (j, ks, below, spare, top, which) =
          record {
            entries = set es i e;
            children = set_child (set_child cs (suc i) (leaf rs)) i (leaf ls);
            index = j;
            keys = ks;
            made = rw (with_pair-some f es cs i l.at at_p r.at, made) refl;
            same =
                weave-put_pair es cs i (record { left = leaf ls; between = e; right = leaf rs })
                  l.at at_p r.at order;
            counted =
                child_count-set_child (set_child cs (suc i) (leaf rs)) i (leaf ls)
                ∙ child_count-set_child cs (suc i) (leaf rs)
                ∙ counted
                ∙ ap suc (sym (length-set es i e));
            leaves =
                AreNodes-set_child layout 0 _ i (leaf ls) (refl, least, most)
                  (AreNodes-set_child layout 0 cs (suc i) (leaf rs) (refl, least', most') leaves);
            place = below;
            at = elim which [
              | inl (a, b) ↦
                  rw (a, b)
                    (get_child-set_child (set_child cs (suc i) (leaf rs)) i (leaf ls)
                      (omega (arith, child_count-set_child cs (suc i) (leaf rs))))
              | inr (a, b) ↦
                  rw (a, b)
                    (get_child-set_child_before (set_child cs (suc i) (leaf rs)) i (leaf ls)
                      ∙ get_child-set_child cs (suc i) (leaf rs) (omega arith))
            ];
            spare = spare;
            most = top;
            few = omega (arith, length-set es i e);
          }

      pub Ensured-steal_left :
          {e : Entry}
          → get_elem? l.keys (length l.keys - 1) ≡ some e
          → IsBelow compare key es (suc i)
          → has_spare layout cs i ≡ true
          → length r.keys ≤ layout.min_keys
          → Ensured layout compare key es cs (btree_steal_left es cs i)
      unfolding btree_steal_left steal_left inorder
      Ensured-steal_left {e} at_e below rich lean =
          let spare : layout.min_keys < length l.keys =
            ltb→lt _ _ (sym (has_spare-leaf layout cs i l.at) ∙ rich) in
          let ls = take (length l.keys - 1) l.keys in
          let q : Pair = record { left = leaf ls; between = e; right = leaf (p ∷ r.keys) } in
          let stolen : steal_left (leaf l.keys) p (leaf r.keys) ≡ some q =
            rw (steal_left, at_e) refl in
          let under : Below compare e p =
            All-get_elem? (λ x. Below compare x p) l.keys _
              (weave-before compare es cs i l.at at_p sorted) at_e in
          let over = IsBelow-gt compare key es i below at_p in
          let above : compare key e.key ≡ gt =
            gt_of_lt compare o e.key key
              (o.lt_trans e.key p.key key under (lt_of_gt compare o key p.key over)) in
          put_pair-Ensured steal_left ls (p ∷ r.keys) e stolen
            (steal_left-inorder (leaf l.keys) p (leaf r.keys) q tt stolen)
            (omega (arith, length-take (length l.keys - 1) l.keys))
            (omega (arith, length-take (length l.keys - 1) l.keys, l.most)) (omega (arith, r.least))
            (omega (arith, lawful.some_key, lawful.min_half))
            (
              suc i,
              p ∷ r.keys,
              IsBelow-set_before compare key es i e below above,
              omega (arith, r.least),
              omega (arith, lawful.some_key, lawful.min_half),
              inr (refl, refl),
            )

      pub Ensured-steal_right :
          (e : Entry) (rs : List Entry)
          → r.keys ≡ e ∷ rs
          → IsBelow compare key es i
          → has_spare layout cs (suc i) ≡ true
          → length r.keys < layout.max_keys
          → length l.keys ≤ layout.min_keys
          → Ensured layout compare key es cs (btree_steal_right layout es cs i)
      unfolding btree_steal_right steal_right inorder
      Ensured-steal_right e rs front below rich room lean =
          let spare : layout.min_keys < length r.keys =
            ltb→lt _ _ (sym (has_spare-leaf layout cs (suc i) r.at) ∙ rich) in
          let size : length r.keys ≡ suc (length rs) = ap length front in
          let q : Pair = record { left = leaf (l.keys ++ p ∷ []); between = e; right = leaf rs } in
          let stolen : steal_right layout (leaf l.keys) p (leaf r.keys) ≡ some q =
            rw (front, lt→ltb (suc (length rs)) layout.max_keys (omega arith)) refl in
          let first : get_elem? r.keys 0 ≡ some e = rw front refl in
          let over : Below compare p e =
            All-get_elem? (Below compare p) r.keys 0 (weave-behind compare es cs i r.at at_p sorted)
              first in
          let above : compare key e.key ≡ lt =
            o.lt_trans key p.key e.key (IsBelow-lt compare key es i below at_p) over in
          let longer : length (l.keys ++ p ∷ []) ≡ suc (length l.keys) =
            omega (arith, length-append l.keys (p ∷ [])) in
          put_pair-Ensured (steal_right layout) (l.keys ++ p ∷ []) rs e stolen
            (steal_right-inorder layout (leaf l.keys) p (leaf r.keys) q tt stolen)
            (omega (arith, l.least)) (omega (arith, lawful.some_key, lawful.min_half)) (omega arith)
            (omega (arith, r.most))
            (
              i,
              l.keys ++ p ∷ [],
              IsBelow-set_at compare key es i e below above,
              omega (arith, l.least),
              omega (arith, lawful.some_key, lawful.min_half),
              inl (refl, refl),
            )

      pub Ensured-merge :
          IsBelow compare key (remove_at i es) i
          → length l.keys ≤ layout.min_keys
          → length r.keys ≤ layout.min_keys
          → Ensured layout compare key es cs (btree_merge es cs i)
      unfolding btree_merge merge put_merged inorder
      Ensured-merge below lean lean' =
          let ks = l.keys ++ p ∷ r.keys in
          let size : length ks ≡ length l.keys + suc (length r.keys) =
            length-append l.keys (p ∷ r.keys) in
          let removed = child_count-remove_child_at (suc i) cs (omega arith) in
          let fewer = length-remove_at i es fits in
          record {
            entries = remove_at i es;
            children = set_child (remove_child_at (suc i) cs) i (leaf ks);
            index = i;
            keys = ks;
            made = rw (with_pair-some merge es cs i l.at at_p r.at) refl;
            same = weave-put_merged es cs i (leaf ks) l.at at_p r.at refl;
            counted = child_count-set_child (remove_child_at (suc i) cs) i (leaf ks) ∙ omega arith;
            leaves =
                AreNodes-set_child layout 0 _ i (leaf ks)
                  (refl, omega (arith, l.least), omega (arith, lawful.some_key, lawful.min_half))
                  (AreNodes-remove_child_at layout 0 (suc i) cs leaves);
            place = below;
            at = get_child-set_child (remove_child_at (suc i) cs) i (leaf ks) (omega arith);
            spare = omega (arith, l.least, r.least);
            most = omega (arith, lawful.some_key, lawful.min_half);
            few = omega arith;
          }
