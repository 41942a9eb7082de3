-- ===== src/Btree/Inorder.antt =====
-- The entries of a tree in order, the order of keys, and insertion into an ordered list.
use maxql.Prelude.{
  ℕ, zero, suc, some, List, [], ◌∷◌, ◌++◌, ◌≡◌, ◌≢◌, All, All-append_left, All-append_right, arith,
}
use Prim.Native.Nat.Ordering.{lt, gt}
use maxql.Btree.Order.{KeyComparator, IsKeyOrder}
use maxql.Btree.Node.{Entry, Node, leaf, inner, Children, none_left, child, get_child}

-- Each child stands before the entry of its index, the last child after all entries.
unfoldable mutual
  pub inorder : Node → List Entry
  inorder (leaf es) = es
  inorder (inner es cs) = weave cs es

  pub weave : Children → List Entry → List Entry
  weave none_left es = es
  weave (child n ns) [] = inorder n ++ weave ns []
  weave (child n ns) (e ∷ es) = inorder n ++ e ∷ weave ns es

some_path {κ} :
    (P : Entry → Type κ) {m n : Node} → some m ≡ some n → All P (inorder m) → All P (inorder n)
some_path P {m} {n} e h = let same : m ≡ n = cc in rw same at h

-- What holds of all entries of a node holds of those below a child.
pub All-get_child {κ} :
    (P : Entry → Type κ) (cs : Children) (es : List Entry) (c : ℕ) {n : Node}
    → get_child cs c ≡ some n
    → All P (weave cs es)
    → All P (inorder n)
unfolding weave
All-get_child P none_left es c at h = cc
All-get_child P (child m ns) [] zero at h = some_path P at (All-append_left P (inorder m) _ h)
All-get_child P (child m ns) [] (suc c) at h =
    All-get_child P ns [] c at (All-append_right P (inorder m) _ h)
All-get_child P (child m ns) (e ∷ es) zero at h = some_path P at (All-append_left P (inorder m) _ h)
All-get_child P (child m ns) (e ∷ es) (suc c) at h =
    All-get_child P ns es c at (All-append_right P (inorder m) _ h).1

module _ (compare : KeyComparator) where
  abbrev pub Below : Entry → Entry → Type 0
  Below a b = compare a.key b.key ≡ lt

  -- Every key is below all that follow it.
  abbrev pub IsSorted : List Entry → Type 0
  IsSorted [] = Unit
  IsSorted (x ∷ xs) = All (Below x) xs × IsSorted xs

  -- Insertion before the first entry that is not below.
  unfoldable pub insert_sorted : Entry → List Entry → List Entry
  insert_sorted e [] = e ∷ []
  insert_sorted e (x ∷ xs) = elim (compare e.key x.key) [
    | gt ↦ x ∷ insert_sorted e xs
    | _ ↦ e ∷ x ∷ xs
  ]

  pub IsSorted-append_left : (xs ys : List Entry) → IsSorted (xs ++ ys) → IsSorted xs
  IsSorted-append_left [] ys s = tt
  IsSorted-append_left (x ∷ xs) ys s =
      (All-append_left (Below x) xs ys s.0, IsSorted-append_left xs ys s.1)

  pub IsSorted-append_right : (xs ys : List Entry) → IsSorted (xs ++ ys) → IsSorted ys
  IsSorted-append_right [] ys s = s
  IsSorted-append_right (x ∷ xs) ys s = IsSorted-append_right xs ys s.1

  -- What stands before an entry of a sorted list is below it.
  pub IsSorted-before :
      (xs : List Entry) (y : Entry) (ys : List Entry)
      → IsSorted (xs ++ y ∷ ys)
      → All (λ x. Below x y) xs
  IsSorted-before [] y ys s = tt
  IsSorted-before (x ∷ xs) y ys s =
      ((All-append_right (Below x) xs (y ∷ ys) s.0).0, IsSorted-before xs y ys s.1)

  -- An entry that is not above `y` goes before `y`.
  pub insert_sorted-append_left :
      (e : Entry) (xs : List Entry) (y : Entry) (ys : List Entry)
      → compare e.key y.key ≢ gt
      → insert_sorted e (xs ++ y ∷ ys) ≡ insert_sorted e xs ++ y ∷ ys
  unfolding insert_sorted
  insert_sorted-append_left e [] y ys h = ground arith
  insert_sorted-append_left e (x ∷ xs) y ys h =
      ground (arith, insert_sorted-append_left e xs y ys h)

  module _ (o : IsKeyOrder compare) where
    -- An entry above `y` goes after `y`.
    pub insert_sorted-append_right :
        (e : Entry) (xs : List Entry) (y : Entry) (ys : List Entry)
        → compare e.key y.key ≡ gt
        → All (λ x. Below x y) xs
        → insert_sorted e (xs ++ y ∷ ys) ≡ xs ++ y ∷ insert_sorted e ys
    unfolding insert_sorted
    insert_sorted-append_right e [] y ys h b = ground arith
    insert_sorted-append_right e (x ∷ xs) y ys h b = ground (
      arith,
      insert_sorted-append_right e xs y ys h b.1,
      o.compare_flip e.key y.key,
      o.compare_flip e.key x.key,
      o.lt_trans x.key y.key e.key,
    )

    pub insert_sorted-All {κ} :
        (P : Entry → Type κ) (e : Entry) (xs : List Entry)
        → P e
        → All P xs
        → All P (insert_sorted e xs)
    unfolding insert_sorted
    insert_sorted-All P e [] p h = (p, tt)
    insert_sorted-All P e (x ∷ xs) p h = ground (arith, insert_sorted-All P e xs p h.1)

  pub IsSorted-get_child :
      (cs : Children) (es : List Entry) (c : ℕ) {n : Node}
      → get_child cs c ≡ some n
      → IsSorted (weave cs es)
      → IsSorted (inorder n)
  unfolding weave
  IsSorted-get_child none_left es c at s = cc
  IsSorted-get_child (child m ns) [] zero {n} at s =
      let same : m ≡ n = cc in rw same at (IsSorted-append_left (inorder m) _ s)
  IsSorted-get_child (child m ns) [] (suc c) at s =
      IsSorted-get_child ns [] c at (IsSorted-append_right (inorder m) _ s)
  IsSorted-get_child (child m ns) (e ∷ es) zero {n} at s =
      let same : m ≡ n = cc in rw same at (IsSorted-append_left (inorder m) _ s)
  IsSorted-get_child (child m ns) (e ∷ es) (suc c) at s =
      IsSorted-get_child ns es c at (IsSorted-append_right (inorder m) _ s).1
