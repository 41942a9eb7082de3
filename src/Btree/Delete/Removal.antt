-- ===== src/Btree/Delete/Removal.antt =====
-- What a deletion means for the entries in order, at a leaf and below a node of src/index/btree.c.
use maxql.Prelude.{
  ℕ, zero, suc, List, [], ◌∷◌, ◌++◌, some, true, ◌≡◌, refl, sym, ap, ◌∙◌, arith, length, All,
  append-nil,
}
use Prim.Native.Nat.Ordering.{eq, gt}
use maxql.Btree.Order.{Key, KeyComparator, IsKeyOrder}
use maxql.Btree.Node.{Entry, Node, Children, none_left, child, child_count, get_child, set_child}
use maxql.Btree.Inorder.{inorder, weave, IsSorted, IsSorted-append_right, IsSorted-before}
use maxql.Btree.Search.Laws.{
  lookup_key, lookup_key_left, lookup_key_right, Differs, Differs-Below, Differs-above, below, same,
  above, compare_cases, lookup_key-none,
}
use maxql.Btree.Delete.{node_key_position, remove_at}
use maxql.Btree.Delete.Position.{IsBelow, IsBelow-nil, IsBelow-suc, IsBelow-zero}

module _ (compare : KeyComparator) where
  -- The entries without the first whose key compares equal.
  unfoldable pub remove_key : Key → List Entry → List Entry
  remove_key k [] = []
  remove_key k (x ∷ xs) = elim (compare k x.key) [ eq ↦ xs | _ ↦ x ∷ remove_key k xs ]

  remove_key-append_left :
      (k : Key) (xs ys : List Entry) {o : ℕ}
      → lookup_key compare k xs ≡ some o
      → remove_key k (xs ++ ys) ≡ remove_key k xs ++ ys
  unfolding lookup_key remove_key
  remove_key-append_left k [] ys {o} h = cc
  remove_key-append_left k (x ∷ xs) ys {o} h =
      ground (arith, remove_key-append_left k xs ys {o = o})

  remove_key-gt :
      (k : Key) (x : Entry) (xs : List Entry)
      → compare k x.key ≡ gt
      → remove_key k (x ∷ xs) ≡ x ∷ remove_key k xs
  unfolding remove_key
  remove_key-gt k x xs h = ground arith

  remove_key-append_right :
      (k : Key) (xs ys : List Entry)
      → All (Differs compare k) xs
      → remove_key k (xs ++ ys) ≡ xs ++ remove_key k ys
  unfolding remove_key
  remove_key-append_right k [] ys d = refl
  remove_key-append_right k (x ∷ xs) ys d = ground (arith, remove_key-append_right k xs ys d.1)

module _ (compare : KeyComparator) (o : IsKeyOrder compare) where
  -- In a leaf: the position is that of the entry that goes.
  pub node_key_position-found :
      (k : Key) (es : List Entry) {v : ℕ}
      → IsSorted compare es
      → lookup_key compare k es ≡ some v
      → (node_key_position compare k es).0 ≡ true
  unfolding node_key_position lookup_key
  node_key_position-found k [] s h = cc
  node_key_position-found k (x ∷ es) {v} s h = elim (compare_cases compare k x.key) [
    | same e ↦ rw (e, node_key_position) refl
    | below e ↦
        absurd (cc (lookup_key-none compare k es (Differs-above compare o k x es (cc e) s.0)))
    | above e ↦
        rw (e, node_key_position)
          (node_key_position-found k es {v = v} s.1 (rw (e, lookup_key) at h))
  ]

  pub remove_at-remove_key :
      (k : Key) (es : List Entry)
      → (node_key_position compare k es).0 ≡ true
      → remove_at (node_key_position compare k es).1 es ≡ remove_key compare k es
  unfolding node_key_position remove_at remove_key
  remove_at-remove_key k [] h = refl
  remove_at-remove_key k (x ∷ es) h = ground (arith, remove_at-remove_key k es)

  -- Below a node that lacks the key, what happens to the entries is what happens to the child's.
  pub lookup_key-child :
      (k : Key) (es : List Entry) (cs : Children) (c : ℕ) {n : Node}
      → child_count cs ≡ suc (length es)
      → IsSorted compare (weave cs es)
      → IsBelow compare k es c
      → get_child cs c ≡ some n
      → lookup_key compare k (weave cs es) ≡ lookup_key compare k (inorder n)
  unfolding weave
  lookup_key-child k es none_left c count s h at = cc
  lookup_key-child k [] (child m none_left) zero {n} count s h at =
      let a : m ≡ n = cc in rw a (simp append-nil refl)
  lookup_key-child k [] (child m ns) (suc c) count s h at = absurd (IsBelow-nil compare k c h)
  lookup_key-child k [] (child m (child m' ns)) zero count s h at = absurd (omega arith)
  lookup_key-child k (x ∷ es) (child m ns) zero {n} count s h at =
      let a : m ≡ n = cc in
      rw (← a)
        (lookup_key_left compare o k (inorder m) x (weave ns es) s (IsBelow-zero compare k x es h))
  lookup_key-child k (x ∷ es) (child m ns) (suc c) count s h at =
      let (p, q) = IsBelow-suc compare k x es c h in
      lookup_key_right compare o k (inorder m) x (weave ns es) s p
      ∙ lookup_key-child k es ns c (omega arith)
          (IsSorted-append_right compare (inorder m) (x ∷ weave ns es) s).1 q at

  pub remove_key-child :
      (k : Key) (es : List Entry) (cs : Children) (c : ℕ) {n : Node} (n' : Node) {v : ℕ}
      → child_count cs ≡ suc (length es)
      → IsSorted compare (weave cs es)
      → IsBelow compare k es c
      → get_child cs c ≡ some n
      → lookup_key compare k (inorder n) ≡ some v
      → inorder n' ≡ remove_key compare k (inorder n)
      → weave (set_child cs c n') es ≡ remove_key compare k (weave cs es)
  unfolding weave
  remove_key-child k es none_left c n' count s h at found' made = cc
  remove_key-child k [] (child m none_left) zero {n} n' count s h at found' made =
      let a : m ≡ n = cc in rw (a, made) (simp append-nil refl)
  remove_key-child k [] (child m ns) (suc c) n' count s h at found' made =
      absurd (IsBelow-nil compare k c h)
  remove_key-child k [] (child m (child m' ns)) zero n' count s h at found' made =
      absurd (omega arith)
  remove_key-child k (x ∷ es) (child m ns) zero {n} n' {v} count s h at found' made =
      let a : m ≡ n = cc in
      rw (a, made)
        (sym (remove_key-append_left compare k (inorder n) (x ∷ weave ns es) {o = v} found'))
  remove_key-child k (x ∷ es) (child m ns) (suc c) {n} n' {v} count s h at found' made =
      let (p, q) = IsBelow-suc compare k x es c h in
      let d =
        Differs-Below compare o k x (inorder m) (cc p)
          (IsSorted-before compare (inorder m) x (weave ns es) s) in
      ap (λ t. inorder m ++ x ∷ t)
        (remove_key-child k es ns c n' {v = v} (omega arith)
          (IsSorted-append_right compare (inorder m) (x ∷ weave ns es) s).1 q at found' made)
      ∙ sym (
          remove_key-append_right compare k (inorder m) (x ∷ weave ns es) d
          ∙ ap (λ t. inorder m ++ t) (remove_key-gt compare k x (weave ns es) p))
