-- ===== src/Btree/Search/Laws.antt =====
-- The search in a well-formed tree finds what is there, and only that; and what it finds after
-- an insertion.
use maxql.Prelude.{
  ℕ, zero, suc, List, [], ◌∷◌, ◌++◌, Option, none, some, ◌≡◌, ◌≢◌, refl, sym, ap, ◌∙◌, arith,
  length, Ordering, All, All-imp,
}
use Prim.Native.Nat.Ordering.{lt, eq, gt}
use maxql.Btree.Order.{Key, KeyComparator, IsKeyOrder}
use maxql.Btree.Layout.{BtreeLayout}
use maxql.Btree.Node.{Entry, Node, leaf, inner, Children, none_left, child, child_count}
use maxql.Btree.Inorder.{
  inorder, weave, Below, IsSorted, IsSorted-append_left, IsSorted-append_right, IsSorted-before,
}
use maxql.Btree.Shape.{IsNode, AreNodes}
use maxql.Btree.Insert.Shape.{IsTree}
use maxql.Btree.Insert.Correct.{root_entries}
use maxql.Btree.Search.{
  Scan, found, descend, next_scan, scan_node, search_node, search_below, btree_search,
}

module _ (compare : KeyComparator) where
  -- The offset of the first entry whose key compares equal.
  unfoldable pub lookup_key : Key → List Entry → Option ℕ
  lookup_key k [] = none
  lookup_key k (x ∷ xs) = elim (compare k x.key) [ eq ↦ some x.offset | _ ↦ lookup_key k xs ]

  abbrev pub Differs : Key → Entry → Type 0
  Differs k x = compare k x.key ≢ eq

  pub lookup_key-append_right :
      (k : Key) (xs ys : List Entry)
      → All (Differs k) xs
      → lookup_key k (xs ++ ys) ≡ lookup_key k ys
  unfolding lookup_key
  lookup_key-append_right k [] ys d = refl
  lookup_key-append_right k (x ∷ xs) ys d = ground (arith, lookup_key-append_right k xs ys d.1)

  pub lookup_key-append_left :
      (k : Key) (xs ys : List Entry)
      → All (Differs k) ys
      → lookup_key k (xs ++ ys) ≡ lookup_key k xs
  unfolding lookup_key
  lookup_key-append_left k [] [] d = refl
  lookup_key-append_left k [] (y ∷ ys) d = ground (arith, lookup_key-append_left k [] ys d.1)
  lookup_key-append_left k (x ∷ xs) ys d = ground (arith, lookup_key-append_left k xs ys d)

  pub lookup_key-none : (k : Key) (xs : List Entry) → All (Differs k) xs → lookup_key k xs ≡ none
  unfolding lookup_key
  lookup_key-none k [] d = refl
  lookup_key-none k (x ∷ xs) d = ground (arith, lookup_key-none k xs d.1)

  -- How two keys compare, with the equation.
  pub data Compared (a b : Key) : Type 0 where
    below : compare a b ≡ lt → Compared a b
    same : compare a b ≡ eq → Compared a b
    above : compare a b ≡ gt → Compared a b

  pub compare_cases : (a b : Key) → Compared a b
  compare_cases a b = go (compare a b) refl
    where
      go : (c : Ordering) → compare a b ≡ c → Compared a b
      go lt e = below e
      go eq e = same e
      go gt e = above e

  -- The same through a scan: at a leaf, and at the child that the scan takes.
  abbrev Found : Scan → Option ℕ → Type 0
  Found (found o) r = r ≡ some o
  Found (descend c) r = r ≡ none

  Found-next : (r : Scan) (a : Option ℕ) → Found r a → Found (next_scan r) a
  Found-next (found p) a h = h
  Found-next (descend c) a h = h

  module _ (o : IsKeyOrder compare) where
    -- What is below an entry that is not above `k` differs from `k`, and what is above one that
    -- is not below `k`.
    pub Differs-Below :
        (k : Key) (x : Entry) (xs : List Entry)
        → compare k x.key ≢ lt
        → All (λ y. Below compare y x) xs
        → All (Differs k) xs
    Differs-Below k x xs h =
        All-imp
          (λ y b.
            ground (arith, o.compare_flip k y.key, o.eq_lt k y.key x.key, o.compare_flip y.key k))
          xs

    pub Differs-above :
        (k : Key) (x : Entry) (xs : List Entry)
        → compare k x.key ≢ gt
        → All (Below compare x) xs
        → All (Differs k) xs
    Differs-above k x xs h =
        All-imp (λ y b. ground (arith, o.eq_lt k x.key y.key, o.lt_trans k x.key y.key)) xs

    scan_node-Found :
        (k : Key) (es : List Entry)
        → IsSorted compare es
        → Found (scan_node compare k es) (lookup_key k es)
    unfolding scan_node lookup_key
    scan_node-Found k [] s = refl
    scan_node-Found k (x ∷ xs) s = elim (compare_cases k x.key) [
      | same e ↦ rw (e, scan_node, lookup_key) refl
      | below e ↦
          rw (e, scan_node, lookup_key) (lookup_key-none k xs (Differs-above k x xs (cc e) s.0))
      | above e ↦
          rw (e, scan_node, lookup_key)
            (Found-next (scan_node compare k xs) _ (scan_node-Found k xs s.1))
    ]

    -- The three places of an entry `x` between `xs` and `ys`.
    lookup_key_at :
        (k : Key) (xs : List Entry) (x : Entry) (ys : List Entry)
        → IsSorted compare (xs ++ x ∷ ys)
        → compare k x.key ≡ eq
        → lookup_key k (xs ++ x ∷ ys) ≡ some x.offset
    unfolding lookup_key
    lookup_key_at k xs x ys s e =
        lookup_key-append_right k xs (x ∷ ys)
          (Differs-Below k x xs (cc e) (IsSorted-before compare xs x ys s))
        ∙ ground arith

    pub lookup_key_left :
        (k : Key) (xs : List Entry) (x : Entry) (ys : List Entry)
        → IsSorted compare (xs ++ x ∷ ys)
        → compare k x.key ≡ lt
        → lookup_key k (xs ++ x ∷ ys) ≡ lookup_key k xs
    lookup_key_left k xs x ys s e =
        lookup_key-append_left k xs (x ∷ ys)
          (cc e, Differs-above k x ys (cc e) (IsSorted-append_right compare xs (x ∷ ys) s).0)

    pub lookup_key_right :
        (k : Key) (xs : List Entry) (x : Entry) (ys : List Entry)
        → IsSorted compare (xs ++ x ∷ ys)
        → compare k x.key ≡ gt
        → lookup_key k (xs ++ x ∷ ys) ≡ lookup_key k ys
    unfolding lookup_key
    lookup_key_right k xs x ys s e =
        lookup_key-append_right k xs (x ∷ ys)
          (Differs-Below k x xs (cc e) (IsSorted-before compare xs x ys s))
        ∙ ground arith

    search_below-next :
        (k : Key) (n : Node) (ns : Children) (r : Scan)
        → search_below compare k (child n ns) (next_scan r) ≡ search_below compare k ns r
    unfolding search_node
    search_below-next k n none_left (found p) = refl
    search_below-next k n (child m ns) (found p) = refl
    search_below-next k n ns (descend c) = refl

    module _ (layout : BtreeLayout) where
      mutual
        unfolding search_node scan_node inorder

        search_node-lookup_key :
            (k : Key) (n : Node) (h least : ℕ)
            → IsNode layout h least n
            → IsSorted compare (inorder n)
            → search_node compare k n ≡ some (lookup_key k (inorder n))
        search_node-lookup_key k (leaf es) h least w s = ground (arith, scan_node-Found k es s)
        search_node-lookup_key k (inner es cs) zero least w s = absurd w
        search_node-lookup_key k (inner es cs) (suc h) least w s =
            search_below-lookup_key k cs es h w.2 w.3 s

        search_below-lookup_key :
            (k : Key) (cs : Children) (es : List Entry) (h : ℕ)
            → child_count cs ≡ suc (length es)
            → AreNodes layout h cs
            → IsSorted compare (weave cs es)
            → search_below compare k cs (scan_node compare k es) ≡ some (lookup_key k (weave cs es))
        search_below-lookup_key k none_left es h count w s = absurd (omega arith)
        search_below-lookup_key k (child m none_left) [] h count w s =
            search_node-lookup_key k m h layout.min_keys w.0
              (IsSorted-append_left compare (inorder m) [] s)
            ∙ ap some (sym (lookup_key-append_left k (inorder m) [] tt))
        search_below-lookup_key k (child m (child m' ns)) [] h count w s = absurd (omega arith)
        search_below-lookup_key k (child m ns) (x ∷ es) h count w s =
            let xs = inorder m in
            let ys = weave ns es in
            elim (compare_cases k x.key) [
              | same e ↦ rw (e, scan_node, lookup_key_at k xs x ys s e)
              | below e ↦
                  rw (e, scan_node, lookup_key_left k xs x ys s e)
                    (search_node-lookup_key k m h layout.min_keys w.0
                      (IsSorted-append_left compare xs (x ∷ ys) s))
              | above e ↦
                  rw (e, scan_node, lookup_key_right k xs x ys s e)
                    (search_below-next k m ns (scan_node compare k es)
                      ∙ search_below-lookup_key k ns es h (omega arith) w.1
                          (IsSorted-append_right compare xs (x ∷ ys) s).1)
            ]

module _ (compare : KeyComparator) (layout : BtreeLayout) where
  -- In a well-formed tree whose keys increase under a lawful key order, the search never misses a
  -- child, and answers with the offset of the entry whose key compares equal, or that none does.
  pub btree_search-lookup_key :
      (root : Option Node) (k : Key)
      → IsKeyOrder compare
      → IsTree layout root
      → IsSorted compare (root_entries root)
      → btree_search compare root k ≡ some (lookup_key compare k (root_entries root))
  unfolding btree_search lookup_key
  btree_search-lookup_key none k o w s = refl
  btree_search-lookup_key (some n) k o (h, w) s =
      search_node-lookup_key compare o layout k n h 1 w s
