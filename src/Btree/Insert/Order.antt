-- ===== src/Btree/Insert/Order.antt =====
-- Insertion puts the entry in its place among the entries in order.
use maxql.Prelude.{
  ℕ, zero, suc, ◌≤◌, List, [], ◌∷◌, ◌++◌, some, ◌≡◌, ◌≢◌, refl, ap, arith, length, take, drop,
  get_elem?, All, All-imp, All-imp₂, All-of_each, append_assoc, append-nil,
}
use Prim.Native.Nat.Ordering.{gt}
use maxql.Btree.Order.{Key, KeyComparator, IsKeyOrder}
use maxql.Btree.Node.{
  Entry, Node, Children, none_left, child, child_count, get_child, set_child, insert_child_at,
  take_children, drop_children, insert_at,
}
use maxql.Btree.Inorder.{
  inorder, weave, All-get_child, Below, IsSorted, insert_sorted, IsSorted-append_right,
  IsSorted-before, insert_sorted-append_left, insert_sorted-append_right, insert_sorted-All,
}
use maxql.Btree.Insert.{Split, lower_bound, insert_value}

module _ (compare : KeyComparator) where
  pub insert_value-insert_sorted :
      (e : Entry) (es : List Entry) → (insert_value compare e es).0 ≡ insert_sorted compare e es
  unfolding insert_value lower_bound insert_sorted
  insert_value-insert_sorted e [] = refl
  insert_value-insert_sorted e (x ∷ es) = ground (arith, insert_value-insert_sorted e es)

  lower_bound-zero :
      (k : Key) (x : Entry) (es : List Entry)
      → lower_bound compare k (x ∷ es) ≡ 0
      → compare k x.key ≢ gt
  unfolding lower_bound
  lower_bound-zero k x es h = ground arith

  lower_bound-suc :
      (k : Key) (x : Entry) (es : List Entry) (c : ℕ)
      → lower_bound compare k (x ∷ es) ≡ suc c
      → (compare k x.key ≡ gt) × (lower_bound compare k es ≡ c)
  unfolding lower_bound
  lower_bound-suc k x es c h = ground arith

  module _ (o : IsKeyOrder compare) (e : Entry) where
    -- Where the sorted entries of a node put `e` before `x`, or after it.
    insert_before :
        (xs : List Entry) (x : Entry) (ys es : List Entry)
        → lower_bound compare e.key (x ∷ es) ≡ 0
        → insert_sorted compare e (xs ++ x ∷ ys) ≡ insert_sorted compare e xs ++ x ∷ ys
    insert_before xs x ys es c =
        insert_sorted-append_left compare e xs x ys (lower_bound-zero e.key x es c)

    insert_after :
        (xs : List Entry) (x : Entry) (ys es : List Entry) (c : ℕ)
        → lower_bound compare e.key (x ∷ es) ≡ suc c
        → IsSorted compare (xs ++ x ∷ ys)
        → insert_sorted compare e (xs ++ x ∷ ys) ≡ xs ++ x ∷ insert_sorted compare e ys
    insert_after xs x ys es c h s =
        insert_sorted-append_right compare o e xs x ys (lower_bound-suc e.key x es c h).0
          (IsSorted-before compare xs x ys s)

    IsSorted-rest :
        (xs : List Entry) (x : Entry) (ys : List Entry)
        → IsSorted compare (xs ++ x ∷ ys)
        → IsSorted compare ys
    IsSorted-rest xs x ys s = (IsSorted-append_right compare xs (x ∷ ys) s).1

    -- The child taken is replaced by one that holds the entry as well.
    pub weave-set_child :
        (es : List Entry) (cs : Children) (c : ℕ) (n n' : Node)
        → child_count cs ≡ suc (length es)
        → IsSorted compare (weave cs es)
        → lower_bound compare e.key es ≡ c
        → get_child cs c ≡ some n
        → inorder n' ≡ insert_sorted compare e (inorder n)
        → weave (set_child cs c n') es ≡ insert_sorted compare e (weave cs es)
    unfolding weave lower_bound
    weave-set_child es none_left c n n' count s h at same = absurd (omega arith)
    weave-set_child [] (child m ns) (suc c) n n' count s h at same = absurd (omega arith)
    weave-set_child [] (child m none_left) zero n n' count s h at same =
        let here : m ≡ n = cc in simp (append-nil, here) same
    weave-set_child [] (child m (child m' ns)) c n n' count s h at same = absurd (omega arith)
    weave-set_child (x ∷ es) (child m ns) zero n n' count s h at same =
        let here : m ≡ n = cc in rw (insert_before (inorder m) x (weave ns es) es h, here, ← same)
    weave-set_child (x ∷ es) (child m ns) (suc c) n n' count s h at same = rw (
      insert_after (inorder m) x (weave ns es) es c h s,
      weave-set_child es ns c n n' (omega arith) (IsSorted-rest (inorder m) x (weave ns es) s)
          (lower_bound-suc e.key x es c h).1 at same,
    )

    -- The child taken is replaced by two with an entry between them.
    pub weave-insert_child_at :
        (es : List Entry) (cs : Children) (c : ℕ) (n : Node) (d : Split)
        → child_count cs ≡ suc (length es)
        → IsSorted compare (weave cs es)
        → lower_bound compare e.key es ≡ c
        → get_child cs c ≡ some n
        → inorder d.left ++ d.median ∷ inorder d.right ≡ insert_sorted compare e (inorder n)
        → weave (insert_child_at (suc c) d.right (set_child cs c d.left)) (insert_at c d.median es)
          ≡ insert_sorted compare e (weave cs es)
    unfolding weave lower_bound
    weave-insert_child_at es none_left c n d count s h at same = absurd (omega arith)
    weave-insert_child_at [] (child m ns) (suc c) n d count s h at same = absurd (omega arith)
    weave-insert_child_at [] (child m none_left) zero n d count s h at same =
        let here : m ≡ n = cc in simp (append-nil, here) same
    weave-insert_child_at [] (child m (child m' ns)) c n d count s h at same = absurd (omega arith)
    weave-insert_child_at (x ∷ es) (child m ns) zero n d count s h at same =
        let here : m ≡ n = cc in
        rw (insert_before (inorder m) x (weave ns es) es h, here, ← same) (simp append_assoc)
    weave-insert_child_at (x ∷ es) (child m ns) (suc c) n d count s h at same = rw (
      insert_after (inorder m) x (weave ns es) es c h s,
      weave-insert_child_at es ns c n d (omega arith) (IsSorted-rest (inorder m) x (weave ns es) s)
          (lower_bound-suc e.key x es c h).1 at same,
    )

    child_place :
        (es : List Entry) (cs : Children) (c : ℕ) (n : Node)
        → IsSorted compare (weave cs es)
        → lower_bound compare e.key es ≡ c
        → get_child cs c ≡ some n
        → All (λ x. lower_bound compare x.key es ≡ c) (inorder n)
    unfolding weave lower_bound
    child_place [] cs c n s h at = All-of_each (λ x. h) (inorder n)
    child_place (y ∷ es) none_left c n s h at = cc
    child_place (y ∷ es) (child m ns) zero n s h at =
        let here : m ≡ n = cc in
        rw here at (
          All-imp {Q = λ x. lower_bound compare x.key (y ∷ es) ≡ 0} (λ x b. ground arith)
            (inorder m) (IsSorted-before compare (inorder m) y (weave ns es) s))
    child_place (y ∷ es) (child m ns) (suc c) n s h at =
        let below = (IsSorted-append_right compare (inorder m) (y ∷ weave ns es) s).0 in
        All-imp₂ (λ x b p. ground (arith, o.compare_flip y.key x.key)) (inorder n)
          (All-get_child (λ x. Below compare y x) ns es c at below)
          (child_place es ns c n (IsSorted-rest (inorder m) y (weave ns es) s)
            (lower_bound-suc e.key y es c h).1 at)

    -- Every entry of the child taken, and `e`, belong at the index of that child.
    pub child-lower_bound :
        (es : List Entry) (cs : Children) (c : ℕ) (n : Node)
        → IsSorted compare (weave cs es)
        → lower_bound compare e.key es ≡ c
        → get_child cs c ≡ some n
        → All (λ x. lower_bound compare x.key es ≡ c) (insert_sorted compare e (inorder n))
    child-lower_bound es cs c n s h at =
        insert_sorted-All compare o (λ x. lower_bound compare x.key es ≡ c) e (inorder n) h
          (child_place es cs c n s h at)

-- The entries and children of a node, cut at an entry.
pub weave-take-drop :
    (i : ℕ) (es : List Entry) (cs : Children) {m : Entry}
    → child_count cs ≡ suc (length es)
    → get_elem? es i ≡ some m
    → weave (take_children (suc i) cs) (take i es)
        ++ m ∷ weave (drop_children (suc i) cs) (drop (suc i) es)
      ≡ weave cs es
unfolding weave
weave-take-drop i es none_left count h = absurd (omega arith)
weave-take-drop i [] (child n ns) count h = cc
weave-take-drop zero (x ∷ es) (child n ns) {m} count h =
    let here : x ≡ m = cc in simp (append-nil, here)
weave-take-drop (suc i) (x ∷ es) (child n ns) count h =
    simp append_assoc (rw (weave-take-drop i es ns (omega arith) h))

pub take_all {ℓ} : {A : Type ℓ} (n : ℕ) (xs : List A) → length xs ≤ n → take n xs ≡ xs
take_all zero [] h = refl
take_all zero (x ∷ xs) h = absurd (omega arith)
take_all (suc n) [] h = refl
take_all (suc n) (x ∷ xs) h = ap (λ t. x ∷ t) (take_all n xs (omega arith))

pub take_children_all : (n : ℕ) (cs : Children) → child_count cs ≤ n → take_children n cs ≡ cs
take_children_all zero none_left h = refl
take_children_all zero (child n ns) h = absurd (omega arith)
take_children_all (suc k) none_left h = refl
take_children_all (suc k) (child n ns) h = ap (child n) (take_children_all k ns (omega arith))
