-- ===== src/Btree/Delete/Weave.antt =====
-- A steal and a merge of src/index/btree.c keep the entries of the tree and their order.
use maxql.Prelude.{
  Bool-cases, inl, inr, ltb, none, ℕ, zero, suc, ◌-◌, ◌≤◌, List, [], ◌∷◌, ◌++◌, some, ◌≡◌, refl,
  sym, ap, ◌∙◌, arith, length, get_elem?, take, set, append_assoc, append-nil, Option-cases, inl,
  inr,
}
use maxql.Btree.Node.{
  Entry, Node, leaf, inner, Children, none_left, child, child_count, get_child, set_child,
  take_children, append_children,
}
use maxql.Btree.Layout.{BtreeLayout}
use maxql.Btree.Inorder.{inorder, weave}
use maxql.Btree.Delete.{Pair, steal_left, steal_right, remove_at, remove_child_at}

append_after :
    (xs : List Entry) (a : Entry) (ys zs : List Entry) (b : Entry) (ws r : List Entry)
    → xs ++ a ∷ ys ≡ zs ++ b ∷ ws
    → xs ++ a ∷ (ys ++ r) ≡ zs ++ b ∷ (ws ++ r)
append_after xs a ys zs b ws r h =
    sym (append_assoc xs (a ∷ ys) r) ∙ ap (λ t. t ++ r) h ∙ append_assoc zs (b ∷ ws) r

-- An entry with its neighbours gives way to another such triple with the same entries in order.
pub weave-put_pair :
    (es : List Entry) (cs : Children) (i : ℕ) {l r : Node} {p : Entry} (q : Pair)
    → get_child cs i ≡ some l
    → get_elem? es i ≡ some p
    → get_child cs (suc i) ≡ some r
    → inorder q.left ++ q.between ∷ inorder q.right ≡ inorder l ++ p ∷ inorder r
    → weave (set_child (set_child cs (suc i) q.right) i q.left) (set es i q.between) ≡ weave cs es
unfolding weave
weave-put_pair [] cs i q hl hp hr same = cc
weave-put_pair (x ∷ es) none_left i q hl hp hr same = cc
weave-put_pair (x ∷ es) (child m none_left) zero q hl hp hr same = cc
weave-put_pair (x ∷ []) (child m (child m' ns)) zero {l} {r} {p} q hl hp hr same =
    let a : m ≡ l = cc in
    let b : m' ≡ r = cc in
    let c : x ≡ p = cc in
    rw (a, b, c) (append_after (inorder q.left) q.between _ (inorder l) p _ (weave ns []) same)
weave-put_pair (x ∷ y ∷ es) (child m (child m' ns)) zero {l} {r} {p} q hl hp hr same =
    let a : m ≡ l = cc in
    let b : m' ≡ r = cc in
    let c : x ≡ p = cc in
    rw (a, b, c) (append_after (inorder q.left) q.between _ (inorder l) p _ (y ∷ weave ns es) same)
weave-put_pair (x ∷ es) (child m ns) (suc i) q hl hp hr same =
    rw (weave-put_pair es ns i q hl hp hr same)

-- The same for one node in the place of the three.
pub weave-put_merged :
    (es : List Entry) (cs : Children) (i : ℕ) {l r : Node} {p : Entry} (n : Node)
    → get_child cs i ≡ some l
    → get_elem? es i ≡ some p
    → get_child cs (suc i) ≡ some r
    → inorder n ≡ inorder l ++ p ∷ inorder r
    → weave (set_child (remove_child_at (suc i) cs) i n) (remove_at i es) ≡ weave cs es
unfolding weave remove_at remove_child_at
weave-put_merged [] cs i n hl hp hr same = cc
weave-put_merged (x ∷ es) none_left i n hl hp hr same = cc
weave-put_merged (x ∷ es) (child m none_left) zero n hl hp hr same = cc
weave-put_merged (x ∷ []) (child m (child m' ns)) zero {l} {r} {p} n hl hp hr same =
    let a : m ≡ l = cc in
    let b : m' ≡ r = cc in
    let c : x ≡ p = cc in
    rw (a, b, c, same) (append_assoc (inorder l) (p ∷ inorder r) (weave ns []))
weave-put_merged (x ∷ y ∷ es) (child m (child m' ns)) zero {l} {r} {p} n hl hp hr same =
    let a : m ≡ l = cc in
    let b : m' ≡ r = cc in
    let c : x ≡ p = cc in
    rw (a, b, c, same) (append_assoc (inorder l) (p ∷ inorder r) (y ∷ weave ns es))
weave-put_merged (x ∷ es) (child m ns) (suc i) n hl hp hr same =
    rw (weave-put_merged es ns i n hl hp hr same)

-- The last entry apart, and with it the last child.
take-last :
    (xs : List Entry) (n : ℕ) {e : Entry}
    → get_elem? xs n ≡ some e
    → length xs ≤ suc n
    → take n xs ++ e ∷ [] ≡ xs
take-last [] n h le = cc
take-last (x ∷ []) zero h le = cc
take-last (x ∷ y ∷ xs) zero h le = absurd (omega arith)
take-last (x ∷ xs) (suc n) h le = ap (λ t. x ∷ t) (take-last xs n h (omega arith))

weave-last :
    (xs : List Entry) (cs : Children) (n : ℕ) {e : Entry} {m : Node}
    → get_elem? xs n ≡ some e
    → length xs ≤ suc n
    → child_count cs ≡ suc (length xs)
    → get_child cs (suc n) ≡ some m
    → weave (take_children (suc n) cs) (take n xs) ++ e ∷ inorder m ≡ weave cs xs
unfolding weave
weave-last [] cs n h le count at = cc
weave-last (x ∷ xs) none_left n h le count at = cc
weave-last (x ∷ []) (child k none_left) zero h le count at = cc
weave-last (x ∷ []) (child k (child k' none_left)) zero {e} {m} h le count at =
    let a : x ≡ e = cc in let b : k' ≡ m = cc in rw (a, b) (simp append-nil)
weave-last (x ∷ []) (child k (child k' (child k'' cs))) zero h le count at = absurd (omega arith)
weave-last (x ∷ y ∷ xs) cs zero h le count at = absurd (omega arith)
weave-last (x ∷ xs) (child k cs) (suc n) {e} {m} h le count at =
    append_assoc (inorder k) _ (e ∷ inorder m)
    ∙ ap (λ t. inorder k ++ x ∷ t) (weave-last xs cs n h (omega arith) (omega arith) at)

weave-last_of :
    (xs : List Entry) (cs : Children) {e : Entry} {m : Node}
    → get_elem? xs (length xs - 1) ≡ some e
    → child_count cs ≡ suc (length xs)
    → get_child cs (length xs) ≡ some m
    → weave (take_children (length xs) cs) (take (length xs - 1) xs) ++ e ∷ inorder m ≡ weave cs xs
weave-last_of [] cs h count at = cc
weave-last_of (x ∷ xs) cs {e} {m} h count at =
    let less : length (x ∷ xs) - 1 ≡ length xs = omega arith in
    rw less (weave-last (x ∷ xs) cs (length xs) (rw less at h) (omega arith) count at)

-- A node with one child more than entries, where it has children.
abbrev pub IsCounted : Node → Type 0
IsCounted (leaf es) = Unit
IsCounted (inner es cs) = child_count cs ≡ suc (length es)

pub steal_left-inorder :
    (l : Node) (p : Entry) (r : Node) (q : Pair)
    → IsCounted l
    → steal_left l p r ≡ some q
    → inorder q.left ++ q.between ∷ inorder q.right ≡ inorder l ++ p ∷ inorder r
unfolding steal_left weave
steal_left-inorder (leaf ls) p (leaf rs) q w h =
    elim (Option-cases (get_elem? ls (length ls - 1))) [
      | inl n ↦ absurd (ground arith)
      | inr (e, at) ↦
          let made : steal_left (leaf ls) p (leaf rs)
              ≡ some (record {
                left = leaf (take (length ls - 1) ls);
                between = e;
                right = leaf (p ∷ rs);
              }) =
            rw (steal_left, at) refl in
          let a : record {
            left = leaf (take (length ls - 1) ls);
            between = e;
            right = leaf (p ∷ rs);
          }
              ≡ q =
            cc in
          rw (← a) (
            sym (append_assoc _ (e ∷ []) (p ∷ rs))
            ∙ ap (λ t. t ++ p ∷ rs) (take-last ls (length ls - 1) at (omega arith)))
    ]
steal_left-inorder (leaf ls) p (inner rs rc) q w h = ground arith
steal_left-inorder (inner ls lc) p (leaf rs) q w h = ground arith
steal_left-inorder (inner ls lc) p (inner rs rc) q w h =
    elim (Option-cases (get_elem? ls (length ls - 1))) [
      | inl n ↦ absurd (ground arith)
      | inr (e, at) ↦ elim (Option-cases (get_child lc (length ls))) [
        | inl n ↦ absurd (ground arith)
        | inr (n, below) ↦
            let made : steal_left (inner ls lc) p (inner rs rc)
                ≡ some (record {
                  left = inner (take (length ls - 1) ls) (take_children (length ls) lc);
                  between = e;
                  right = inner (p ∷ rs) (child n rc);
                }) =
              rw (steal_left, at, below) refl in
            let a : record {
              left = inner (take (length ls - 1) ls) (take_children (length ls) lc);
              between = e;
              right = inner (p ∷ rs) (child n rc);
            }
                ≡ q =
              cc in
            rw (← a) (
              sym (append_assoc _ (e ∷ inorder n) (p ∷ weave rc rs))
              ∙ ap (λ t. t ++ p ∷ weave rc rs) (weave-last_of ls lc at w below))
      ]
    ]

weave-append_last :
    (ls : List Entry) (lc : Children) (p : Entry) (n : Node)
    → child_count lc ≡ suc (length ls)
    → weave (append_children lc (child n none_left)) (ls ++ p ∷ []) ≡ weave lc ls ++ p ∷ inorder n
unfolding weave
weave-append_last ls none_left p n w = absurd (omega arith)
weave-append_last [] (child m none_left) p n w = simp append-nil
weave-append_last [] (child m (child m' ns)) p n w = absurd (omega arith)
weave-append_last (x ∷ ls) (child m ns) p n w =
    ap (λ t. inorder m ++ x ∷ t) (weave-append_last ls ns p n (omega arith))
    ∙ sym (append_assoc (inorder m) (x ∷ weave ns ls) (p ∷ inorder n))

pub steal_right-inorder :
    (layout : BtreeLayout) (l : Node) (p : Entry) (r : Node) (q : Pair)
    → IsCounted l
    → steal_right layout l p r ≡ some q
    → inorder q.left ++ q.between ∷ inorder q.right ≡ inorder l ++ p ∷ inorder r
unfolding steal_right weave
steal_right-inorder layout (leaf ls) p (leaf []) q w h = ground arith
steal_right-inorder layout (leaf ls) p (leaf (e ∷ rs)) q w h =
    elim (Bool-cases (ltb (suc (length rs)) layout.max_keys)) [
      | inl room ↦
          let made : some (record { left = leaf (ls ++ p ∷ []); between = e; right = leaf rs })
              ≡ some q =
            rw (steal_right, room) at h in
          let a : record { left = leaf (ls ++ p ∷ []); between = e; right = leaf rs } ≡ q = cc in
          rw (← a) (append_assoc ls (p ∷ []) (e ∷ rs))
      | inr full ↦ let no : none ≡ some q = rw (steal_right, full) at h in cc
    ]
steal_right-inorder layout (leaf ls) p (inner rs rc) q w h = ground arith
steal_right-inorder layout (inner ls lc) p (leaf rs) q w h = ground arith
steal_right-inorder layout (inner ls lc) p (inner [] rc) q w h = ground arith
steal_right-inorder layout (inner ls lc) p (inner (e ∷ rs) none_left) q w h = ground arith
steal_right-inorder layout (inner ls lc) p (inner (e ∷ rs) (child n rc)) q w h =
    elim (Bool-cases (ltb (suc (length rs)) layout.max_keys)) [
      | inl room ↦
          let made : some (record {
            left = inner (ls ++ p ∷ []) (append_children lc (child n none_left));
            between = e;
            right = inner rs rc;
          })
              ≡ some q =
            rw (steal_right, room) at h in
          let a : record {
            left = inner (ls ++ p ∷ []) (append_children lc (child n none_left));
            between = e;
            right = inner rs rc;
          }
              ≡ q =
            cc in
          rw (← a) (
            ap (λ t. t ++ e ∷ weave rc rs) (weave-append_last ls lc p n w)
            ∙ append_assoc (weave lc ls) (p ∷ inorder n) (e ∷ weave rc rs))
      | inr full ↦ let no : none ≡ some q = rw (steal_right, full) at h in cc
    ]
