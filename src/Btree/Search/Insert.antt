-- ===== src/Btree/Search/Insert.antt =====
-- What a search finds after an insertion.
use maxql.Prelude.{ℕ, List, [], ◌∷◌, Option, none, some, ◌≡◌, ◌≢◌, sym, ap, ◌∙◌, arith, All-imp}
use Prim.Native.Nat.Ordering.{eq}
use maxql.Btree.Order.{Key, KeyComparator, IsKeyOrder, lt_of_gt}
use maxql.Btree.Layout.{BtreeLayout, IsLayout}
use maxql.Btree.Node.{Entry, Node}
use maxql.Btree.Inorder.{Below, IsSorted, insert_sorted, insert_sorted-All, inorder}
use maxql.Btree.Insert.{btree_insert_do}
use maxql.Btree.Insert.Shape.{IsTree, btree_insert_do-IsTree}
use maxql.Btree.Insert.Correct.{root_entries, btree_insert_do-inorder}
use maxql.Btree.Search.{btree_search}
use maxql.Btree.Search.Laws.{lookup_key, below, same, above, compare_cases, btree_search-lookup_key}

module _ (compare : KeyComparator) (o : IsKeyOrder compare) where
  lookup_key-insert_sorted_self :
      (k : Key) (e : Entry) (xs : List Entry)
      → compare k e.key ≡ eq
      → lookup_key compare k (insert_sorted compare e xs) ≡ some e.offset
  unfolding lookup_key insert_sorted
  lookup_key-insert_sorted_self k e [] h = ground arith
  lookup_key-insert_sorted_self k e (x ∷ xs) h = ground (
    arith,
    lookup_key-insert_sorted_self k e xs h,
    o.compare_flip k e.key,
    o.eq_trans e.key k x.key,
  )

  lookup_key-insert_sorted_ne :
      (k : Key) (e : Entry) (xs : List Entry)
      → compare k e.key ≢ eq
      → lookup_key compare k (insert_sorted compare e xs) ≡ lookup_key compare k xs
  unfolding lookup_key insert_sorted
  lookup_key-insert_sorted_ne k e [] h = ground arith
  lookup_key-insert_sorted_ne k e (x ∷ xs) h = ground (arith, lookup_key-insert_sorted_ne k e xs h)

  insert_sorted-IsSorted :
      (e : Entry) (xs : List Entry)
      → lookup_key compare e.key xs ≡ none
      → IsSorted compare xs
      → IsSorted compare (insert_sorted compare e xs)
  unfolding lookup_key insert_sorted
  insert_sorted-IsSorted e [] fresh s = (tt, tt)
  insert_sorted-IsSorted e (x ∷ xs) fresh s = elim (compare_cases compare e.key x.key) [
    | below h ↦
        rw (h, insert_sorted) ((h, All-imp (λ y b. o.lt_trans e.key x.key y.key h b) xs s.0), s)
    | same h ↦ absurd (ground arith)
    | above h ↦
        rw (h, insert_sorted)
          (
            insert_sorted-All compare o (Below compare x) e xs (lt_of_gt compare o e.key x.key h)
                s.0,
            insert_sorted-IsSorted e xs (ground arith) s.1,
          )
  ]

-- A tree of the program: well-formed, with keys that increase.
pub record IsBtree (compare : KeyComparator) (layout : BtreeLayout) (root : Option Node)
    : Type 0 where
  pub tree : IsTree layout root
  pub sorted : IsSorted compare (root_entries root)

module _ (compare : KeyComparator) (layout : BtreeLayout) (o : IsKeyOrder compare) where
  -- Under a lawful key order and a layout with room for a key, insertion of a key that a search in
  -- the tree does not find gives a tree again, in which a search for any key `k` finds the new
  -- offset if `k` equals the new key, and else what it found before.
  pub btree_search-btree_insert_do :
      (root : Option Node) (e : Entry) (k : Key)
      → IsLayout layout
      → IsBtree compare layout root
      → btree_search compare root e.key ≡ some none
      → (n : Node) × (btree_insert_do compare layout root e ≡ some n)
        × IsBtree compare layout (some n)
        × (btree_search compare (some n) k ≡ elim (compare k e.key) [
          | eq ↦ some (some e.offset)
          | _ ↦ btree_search compare root k
        ])
  btree_search-btree_insert_do root e k l b fresh =
      let (n, made, ordered) = btree_insert_do-inorder compare layout root e l o b.tree b.sorted in
      let (n', made', tree') = btree_insert_do-IsTree compare layout l root e b.tree in
      let one : n' ≡ n = cc in
      let tree = rw one at tree' in
      let before = λ (j : Key). btree_search-lookup_key compare layout root j o b.tree b.sorted in
      let absent : lookup_key compare e.key (root_entries root) ≡ none = cc (before e.key) in
      let sorted : IsSorted compare (inorder n) =
        rw ordered (insert_sorted-IsSorted compare o e (root_entries root) absent b.sorted) in
      let after = btree_search-lookup_key compare layout (some n) k o tree sorted in
      (
        n,
        made,
        record { tree = tree; sorted = sorted },
        elim (compare_cases compare k e.key) [
          | same h ↦ rw h (
              after
              ∙ ap some
                  (rw ordered (lookup_key-insert_sorted_self compare o k e (root_entries root) h)))
          | below h ↦ rw h (elsewhere after (before k) ordered (cc h))
          | above h ↦ rw h (elsewhere after (before k) ordered (cc h))
        ],
      )
    where
      elsewhere :
          {r r' : Option (Option ℕ)} {xs : List Entry}
          → r ≡ some (lookup_key compare k xs)
          → r' ≡ some (lookup_key compare k (root_entries root))
          → xs ≡ insert_sorted compare e (root_entries root)
          → compare k e.key ≢ eq
          → r ≡ r'
      elsewhere p q ordered' h =
          p
          ∙ ap some (rw ordered' (lookup_key-insert_sorted_ne compare o k e (root_entries root) h))
          ∙ sym q
