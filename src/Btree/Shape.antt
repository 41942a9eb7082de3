-- ===== src/Btree/Shape.antt =====
-- The shape of a B-tree: equal depth of all leaves, one child more than entries, and bounds on the
-- number of entries; with the lemmas on the arrays inside a node.
use maxql.Prelude.{ℕ, zero, suc, ◌-◌, ◌≤◌, min, List, [], ◌∷◌, ◌≡◌, refl, ap, arith, length}
use maxql.Btree.Layout.{BtreeLayout}
use maxql.Btree.Node.{
  Node, leaf, inner, Children, none_left, child, child_count, set_child, insert_child_at,
  take_children, drop_children, insert_at,
}

module _ (layout : BtreeLayout) where
  -- A node of height `h` with at least `least` entries.
  abbrev mutual
    pub IsNode : ℕ → ℕ → Node → Type 0
    IsNode h least (leaf es) = (h ≡ 0) × (least ≤ length es) × (length es ≤ layout.max_keys)
    IsNode zero least (inner es cs) = ⊥
    IsNode (suc h) least (inner es cs) =
        (least ≤ length es)
        × (length es ≤ layout.max_keys)
        × (child_count cs ≡ suc (length es))
        × AreNodes h cs

    pub AreNodes : ℕ → Children → Type 0
    AreNodes h none_left = Unit
    AreNodes h (child n ns) = IsNode h layout.min_keys n × AreNodes h ns

  pub AreNodes-set_child :
      (h : ℕ) (cs : Children) (i : ℕ) (n : Node)
      → IsNode h layout.min_keys n
      → AreNodes h cs
      → AreNodes h (set_child cs i n)
  AreNodes-set_child h none_left i n w a = tt
  AreNodes-set_child h (child m ns) zero n w a = (w, a.1)
  AreNodes-set_child h (child m ns) (suc i) n w a = (a.0, AreNodes-set_child h ns i n w a.1)

  pub AreNodes-insert_child_at :
      (h i : ℕ) (n : Node) (cs : Children)
      → IsNode h layout.min_keys n
      → AreNodes h cs
      → AreNodes h (insert_child_at i n cs)
  AreNodes-insert_child_at h zero n cs w a = (w, a)
  AreNodes-insert_child_at h (suc i) n none_left w a = (w, tt)
  AreNodes-insert_child_at h (suc i) n (child m ns) w a =
      (a.0, AreNodes-insert_child_at h i n ns w a.1)

  pub AreNodes-take_children :
      (h i : ℕ) (cs : Children) → AreNodes h cs → AreNodes h (take_children i cs)
  AreNodes-take_children h zero cs a = tt
  AreNodes-take_children h (suc i) none_left a = tt
  AreNodes-take_children h (suc i) (child n ns) a = (a.0, AreNodes-take_children h i ns a.1)

  pub AreNodes-drop_children :
      (h i : ℕ) (cs : Children) → AreNodes h cs → AreNodes h (drop_children i cs)
  AreNodes-drop_children h zero cs a = a
  AreNodes-drop_children h (suc i) none_left a = tt
  AreNodes-drop_children h (suc i) (child n ns) a = AreNodes-drop_children h i ns a.1

pub child_count-set_child :
    (cs : Children) (i : ℕ) (n : Node) → child_count (set_child cs i n) ≡ child_count cs
child_count-set_child none_left i n = refl
child_count-set_child (child m ns) zero n = refl
child_count-set_child (child m ns) (suc i) n = ap suc (child_count-set_child ns i n)

pub child_count-insert_child_at :
    (i : ℕ) (n : Node) (cs : Children) → child_count (insert_child_at i n cs) ≡ suc (child_count cs)
child_count-insert_child_at zero n cs = refl
child_count-insert_child_at (suc i) n none_left = refl
child_count-insert_child_at (suc i) n (child m ns) = ap suc (child_count-insert_child_at i n ns)

pub child_count-take_children :
    (i : ℕ) (cs : Children) → child_count (take_children i cs) ≡ min i (child_count cs)
child_count-take_children zero cs = omega arith
child_count-take_children (suc i) none_left = omega arith
child_count-take_children (suc i) (child n ns) = omega (arith, child_count-take_children i ns)

pub child_count-drop_children :
    (i : ℕ) (cs : Children) → child_count (drop_children i cs) ≡ child_count cs - i
child_count-drop_children zero cs = omega arith
child_count-drop_children (suc i) none_left = omega arith
child_count-drop_children (suc i) (child n ns) = omega (arith, child_count-drop_children i ns)

module _ {ℓ} {A : Type ℓ} where
  pub length-insert_at : (i : ℕ) (x : A) (xs : List A) → length (insert_at i x xs) ≡ suc (length xs)
  length-insert_at zero x xs = refl
  length-insert_at (suc i) x [] = refl
  length-insert_at (suc i) x (y ∷ ys) = ap suc (length-insert_at i x ys)
