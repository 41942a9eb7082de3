-- ===== src/Btree/Delete/Ensure.antt =====
-- `ensure_min_keys` of src/index/btree.c on a node whose children are leaves.
use maxql.Prelude.{
  ℕ, zero, suc, ◌-◌, ◌≤◌, ◌<◌, List, [], ◌∷◌, some, true, false, ◌≡◌, refl, sym, ap, ◌∙◌, arith,
  length, get_elem?, ltb, inl, inr, get_elem?-some, Bool-cases, ltb→lt, ltb→le, lt→ltb,
}
use maxql.Btree.Order.{Key, KeyComparator, IsKeyOrder}
use maxql.Btree.Layout.{BtreeLayout, IsLayout}
use maxql.Btree.Node.{Entry, Children, child_count}
use maxql.Btree.Inorder.{weave, IsSorted}
use maxql.Btree.Shape.{AreNodes}
use maxql.Btree.Delete.{
  remove_at, btree_steal_left, btree_steal_right, btree_merge, has_spare, borrow_right, borrow,
  ensure_min_keys,
}
use maxql.Btree.Delete.Position.{IsBelow, IsBelow-le, IsBelow-remove_before, IsBelow-remove_first}
use maxql.Btree.Delete.Leaves.{
  HaveRoomBehind, HaveRoomBehind-leaf, LeafAt, leaf_at, has_spare-leaf, Ensured,
}
use maxql.Btree.Delete.Steal.{Ensured-steal_left, Ensured-steal_right, Ensured-merge}

module _ (layout : BtreeLayout) (compare : KeyComparator) (key : Key) (es : List Entry)
    (cs : Children) where
  module _ (o : IsKeyOrder compare) (lawful : IsLayout layout) (leaves : AreNodes layout 0 cs)
      (counted : child_count cs ≡ suc (length es)) (sorted : IsSorted compare (weave cs es))
      (roomy : HaveRoomBehind layout cs) where
    lean_of :
        (i : ℕ) (l : LeafAt layout cs i)
        → has_spare layout cs i ≡ false
        → length l.keys ≤ layout.min_keys
    lean_of i l poor = ltb→le _ _ (sym (has_spare-leaf layout cs i l.at) ∙ poor)

    -- With the pair of the child and its right neighbour.
    steal_from_right :
        (i : ℕ)
        → i < length es
        → IsBelow compare key es i
        → has_spare layout cs i ≡ false
        → has_spare layout cs (suc i) ≡ true
        → Ensured layout compare key es cs (btree_steal_right layout es cs i)
    steal_from_right i fits below poor rich =
        let l = leaf_at layout cs i leaves (omega arith) in
        let r = leaf_at layout cs (suc i) leaves (omega arith) in
        let (p, at_p) = get_elem?-some es i fits in
        go l r at_p (ltb→lt _ _ (sym (has_spare-leaf layout cs (suc i) r.at) ∙ rich)) r.keys refl
      where
        go :
            (l : LeafAt layout cs i) (r : LeafAt layout cs (suc i)) {p : Entry}
            → get_elem? es i ≡ some p
            → layout.min_keys < length r.keys
            → (ks : List Entry) → r.keys ≡ ks
            → Ensured layout compare key es cs (btree_steal_right layout es cs i)
        go l r at_p spare [] same = absurd (omega (arith, ap length same))
        go l r at_p spare (e ∷ ks) same =
            Ensured-steal_right layout compare key es cs o lawful leaves counted sorted i l r at_p
              fits e ks same below rich (HaveRoomBehind-leaf layout cs i roomy r.at)
              (lean_of i l poor)

    steal_from_left :
        (i : ℕ)
        → IsBelow compare key es (suc i)
        → has_spare layout cs i ≡ true
        → has_spare layout cs (suc i) ≡ false
        → Ensured layout compare key es cs (btree_steal_left es cs i)
    steal_from_left i below rich poor =
        let fits : i < length es = omega (arith, IsBelow-le compare key es (suc i) below) in
        let l = leaf_at layout cs i leaves (omega arith) in
        let r = leaf_at layout cs (suc i) leaves (omega arith) in
        let spare = ltb→lt _ _ (sym (has_spare-leaf layout cs i l.at) ∙ rich) in
        let (p, at_p) = get_elem?-some es i fits in
        let (e, at_e) = get_elem?-some l.keys (length l.keys - 1) (omega arith) in
        Ensured-steal_left layout compare key es cs o lawful leaves counted sorted i l r at_p fits
          at_e below rich (lean_of (suc i) r poor)

    merge_both :
        (i : ℕ)
        → i < length es
        → IsBelow compare key (remove_at i es) i
        → has_spare layout cs i ≡ false
        → has_spare layout cs (suc i) ≡ false
        → Ensured layout compare key es cs (btree_merge es cs i)
    merge_both i fits below poor poor' =
        let l = leaf_at layout cs i leaves (omega arith) in
        let r = leaf_at layout cs (suc i) leaves (omega arith) in
        let (p, at_p) = get_elem?-some es i fits in
        Ensured-merge layout compare key es cs o lawful leaves counted sorted i l r at_p fits below
          (lean_of i l poor) (lean_of (suc i) r poor')

    -- For a key that a node lacks, whose entries are in order over leaves that hold between
    -- `min_keys` and `max_keys` entries, none but the first full, under a lawful key order and layout, `ensure_min_keys` at
    -- the child of the key keeps the entries in order and the bounds of the leaves, and the key then
    -- belongs below a leaf with more than `min_keys` entries.
    pub ensure_min_keys-Ensured :
        (c : ℕ)
        → 1 ≤ length es
        → IsBelow compare key es c
        → Ensured layout compare key es cs (ensure_min_keys layout es cs c)
    unfolding borrow ensure_min_keys
    ensure_min_keys-Ensured c some_entry below = elim (Bool-cases (has_spare layout cs c)) [
      | inl rich ↦
          let l = leaf_at layout cs c leaves (omega (arith, IsBelow-le compare key es c below)) in
          record {
            entries = es;
            children = cs;
            index = c;
            keys = l.keys;
            made = rw (ensure_min_keys, rich) refl;
            same = refl;
            counted = counted;
            leaves = leaves;
            place = below;
            at = l.at;
            spare = ltb→lt _ _ (sym (has_spare-leaf layout cs c l.at) ∙ rich);
            most = l.most;
            few = omega arith;
          }
      | inr poor ↦ rw (ensure_min_keys, poor) (lend c below poor)
    ]
      where
        lend :
            (c : ℕ)
            → IsBelow compare key es c
            → has_spare layout cs c ≡ false
            → Ensured layout compare key es cs (borrow layout es cs c)
        lend zero below poor = elim (Bool-cases (has_spare layout cs 1)) [
          | inl rich ↦
              rw (borrow, borrow_right, lt→ltb 0 (length es) (omega arith), rich)
                (steal_from_right 0 (omega arith) below poor rich)
          | inr poor' ↦
              rw (borrow, borrow_right, lt→ltb 0 (length es) (omega arith), poor')
                (merge_both 0 (omega arith)
                  (IsBelow-remove_first compare o key es cs counted sorted below) poor poor')
        ]
        lend (suc i) below poor = elim (Bool-cases (has_spare layout cs i)) [
          | inl rich ↦ rw (borrow, rich) (steal_from_left i below rich poor)
          | inr poor' ↦
              let fits = IsBelow-le compare key es (suc i) below in
              let merged =
                merge_both i (omega arith) (IsBelow-remove_before compare key es i below) poor'
                  poor in
              elim (Bool-cases (ltb (suc i) (length es))) [
                | inr last ↦ rw (borrow, poor', borrow_right, last) merged
                | inl more ↦ elim (Bool-cases (has_spare layout cs (suc (suc i)))) [
                  | inl rich ↦
                      rw (borrow, poor', borrow_right, more, rich)
                        (steal_from_right (suc i) (ltb→lt _ _ more) below poor rich)
                  | inr none_right ↦ rw (borrow, poor', borrow_right, more, none_right) merged
                ]
              ]
        ]
