-- ===== src/Btree/Delete/Position.antt =====
-- Where `node_key_position` of src/index/btree.c stands before and after a change of the node.
use maxql.Prelude.{
  ℕ, zero, suc, ◌<◌, List, [], ◌∷◌, some, false, ◌≡◌, refl, arith, length, get_elem?, set, All,
  All-append_right,
}
use Prim.Native.Nat.Ordering.{lt, gt}
use maxql.Btree.Order.{Key, KeyComparator, IsKeyOrder}
use maxql.Btree.Node.{Entry, Node, Children, none_left, child, child_count, get_child}
use maxql.Btree.Inorder.{
  inorder, weave, All-get_child, Below, IsSorted, IsSorted-append_right, IsSorted-before,
}
use maxql.Btree.Delete.{node_key_position, remove_at}

module _ (compare : KeyComparator) where
  -- `es` puts the key, which it lacks, below the child at `c`.
  abbrev pub IsBelow : Key → List Entry → ℕ → Type 0
  IsBelow k es c = node_key_position compare k es ≡ (false, c)

  pub IsBelow-empty : (k : Key) → IsBelow k [] 0
  unfolding node_key_position
  IsBelow-empty k = refl

  pub IsBelow-nil : (k : Key) (c : ℕ) → ¬ IsBelow k [] (suc c)
  unfolding node_key_position
  IsBelow-nil k c h = ground arith

  pub IsBelow-suc :
      (k : Key) (x : Entry) (es : List Entry) (c : ℕ)
      → IsBelow k (x ∷ es) (suc c)
      → (compare k x.key ≡ gt) × IsBelow k es c
  unfolding node_key_position
  IsBelow-suc k x es c h = ground arith

  pub IsBelow-zero :
      (k : Key) (x : Entry) (es : List Entry) → IsBelow k (x ∷ es) 0 → compare k x.key ≡ lt
  unfolding node_key_position
  IsBelow-zero k x es h = ground arith

  IsBelow-of_gt :
      (k : Key) (x : Entry) (es : List Entry) (c : ℕ)
      → compare k x.key ≡ gt
      → IsBelow k es c
      → IsBelow k (x ∷ es) (suc c)
  unfolding node_key_position
  IsBelow-of_gt k x es c g h = ground arith

  pub IsBelow-of_lt :
      (k : Key) (x : Entry) (es : List Entry) → compare k x.key ≡ lt → IsBelow k (x ∷ es) 0
  unfolding node_key_position
  IsBelow-of_lt k x es h = ground arith

  -- The node's entry before the child, or the one behind it, gives way to another.
  pub IsBelow-set_before :
      (k : Key) (es : List Entry) (c : ℕ) (u : Entry)
      → IsBelow k es (suc c)
      → compare k u.key ≡ gt
      → IsBelow k (set es c u) (suc c)
  IsBelow-set_before k [] c u h g = h
  IsBelow-set_before k (x ∷ es) zero u h g = IsBelow-of_gt k u es 0 g (IsBelow-suc k x es 0 h).1
  IsBelow-set_before k (x ∷ es) (suc c) u h g =
      let (p, q) = IsBelow-suc k x es (suc c) h in
      IsBelow-of_gt k x (set es c u) (suc c) p (IsBelow-set_before k es c u q g)

  pub IsBelow-set_at :
      (k : Key) (es : List Entry) (c : ℕ) (u : Entry)
      → IsBelow k es c
      → compare k u.key ≡ lt
      → IsBelow k (set es c u) c
  IsBelow-set_at k [] c u h l = h
  IsBelow-set_at k (x ∷ es) zero u h l = IsBelow-of_lt k u es l
  IsBelow-set_at k (x ∷ es) (suc c) u h l =
      let (p, q) = IsBelow-suc k x es c h in
      IsBelow-of_gt k x (set es c u) c p (IsBelow-set_at k es c u q l)

  pub IsBelow-remove_before :
      (k : Key) (es : List Entry) (c : ℕ) → IsBelow k es (suc c) → IsBelow k (remove_at c es) c
  unfolding remove_at
  IsBelow-remove_before k [] c h = absurd (IsBelow-nil k c h)
  IsBelow-remove_before k (x ∷ es) zero h = (IsBelow-suc k x es 0 h).1
  IsBelow-remove_before k (x ∷ es) (suc c) h =
      let (p, q) = IsBelow-suc k x es (suc c) h in
      IsBelow-of_gt k x (remove_at c es) c p (IsBelow-remove_before k es c q)

  -- The entry at the place, and the one before it.
  pub IsBelow-lt :
      (k : Key) (es : List Entry) (c : ℕ) {p : Entry}
      → IsBelow k es c
      → get_elem? es c ≡ some p
      → compare k p.key ≡ lt
  IsBelow-lt k [] c h at = cc
  IsBelow-lt k (x ∷ es) zero {p} h at = let a : x ≡ p = cc in rw (← a) (IsBelow-zero k x es h)
  IsBelow-lt k (x ∷ es) (suc c) h at = IsBelow-lt k es c (IsBelow-suc k x es c h).1 at

  pub IsBelow-gt :
      (k : Key) (es : List Entry) (c : ℕ) {p : Entry}
      → IsBelow k es (suc c)
      → get_elem? es c ≡ some p
      → compare k p.key ≡ gt
  IsBelow-gt k [] c h at = cc
  IsBelow-gt k (x ∷ es) zero {p} h at = let a : x ≡ p = cc in rw (← a) (IsBelow-suc k x es 0 h).0
  IsBelow-gt k (x ∷ es) (suc c) h at = IsBelow-gt k es c (IsBelow-suc k x es (suc c) h).1 at

  pub IsBelow-le : (k : Key) (es : List Entry) (c : ℕ) → IsBelow k es c → c < suc (length es)
  IsBelow-le k es zero h = omega arith
  IsBelow-le k [] (suc c) h = absurd (IsBelow-nil k c h)
  IsBelow-le k (x ∷ es) (suc c) h = omega (arith, IsBelow-le k es c (IsBelow-suc k x es c h).1)

-- The entries below the child before an entry, and below the one behind it.
module _ (compare : KeyComparator) where
  pub weave-before :
      (es : List Entry) (cs : Children) (i : ℕ) {l : Node} {p : Entry}
      → get_child cs i ≡ some l
      → get_elem? es i ≡ some p
      → IsSorted compare (weave cs es)
      → All (λ x. Below compare x p) (inorder l)
  unfolding weave
  weave-before [] cs i hl hp s = cc
  weave-before (x ∷ es) none_left i hl hp s = cc
  weave-before (x ∷ es) (child m ns) zero {l} {p} hl hp s =
      let a : m ≡ l = cc in
      let b : x ≡ p = cc in rw (← a, ← b) (IsSorted-before compare (inorder m) x (weave ns es) s)
  weave-before (x ∷ es) (child m ns) (suc i) hl hp s =
      weave-before es ns i hl hp (IsSorted-append_right compare (inorder m) (x ∷ weave ns es) s).1

  pub weave-behind :
      (es : List Entry) (cs : Children) (i : ℕ) {r : Node} {p : Entry}
      → get_child cs (suc i) ≡ some r
      → get_elem? es i ≡ some p
      → IsSorted compare (weave cs es)
      → All (Below compare p) (inorder r)
  unfolding weave
  weave-behind [] cs i hr hp s = cc
  weave-behind (x ∷ es) none_left i hr hp s = cc
  weave-behind (x ∷ es) (child m ns) zero {r} {p} hr hp s =
      let b : x ≡ p = cc in
      rw (← b) (
        All-get_child (Below compare x) ns es 0 hr
          (IsSorted-append_right compare (inorder m) (x ∷ weave ns es) s).0)
  weave-behind (x ∷ es) (child m ns) (suc i) hr hp s =
      weave-behind es ns i hr hp (IsSorted-append_right compare (inorder m) (x ∷ weave ns es) s).1

module _ (compare : KeyComparator) (o : IsKeyOrder compare) where
  -- Without its first entry, a node in order puts the key in the first place as before.
  pub IsBelow-remove_first :
      (k : Key) (es : List Entry) (cs : Children)
      → child_count cs ≡ suc (length es)
      → IsSorted compare (weave cs es)
      → IsBelow compare k es 0
      → IsBelow compare k (remove_at 0 es) 0
  unfolding weave remove_at
  IsBelow-remove_first k [] cs count s h = h
  IsBelow-remove_first k (x ∷ []) cs count s h = IsBelow-empty compare k
  IsBelow-remove_first k (x ∷ y ∷ es) none_left count s h = absurd (omega arith)
  IsBelow-remove_first k (x ∷ y ∷ es) (child m none_left) count s h = absurd (omega arith)
  IsBelow-remove_first k (x ∷ y ∷ es) (child m (child m' ns)) count s h =
      let after = (IsSorted-append_right compare (inorder m) _ s).0 in
      IsBelow-of_lt compare k y es (
        o.lt_trans k x.key y.key (IsBelow-zero compare k x (y ∷ es) h)
          (All-append_right (Below compare x) (inorder m') _ after).0)
