-- ===== src/Btree/Delete/Leaves.antt =====
-- A node of src/index/btree.c whose children are leaves, before and after `ensure_min_keys`.
use maxql.Prelude.{
  ℕ, zero, suc, ◌≤◌, ◌<◌, List, [], ◌∷◌, Option, some, ◌≡◌, refl, ap, arith, length, get_elem?, ltb,
}
use maxql.Btree.Order.{Key, KeyComparator}
use maxql.Btree.Layout.{BtreeLayout}
use maxql.Btree.Node.{
  entries, Entry, Node, leaf, inner, Children, none_left, child, child_count, get_child, set_child,
}
use maxql.Btree.Inorder.{weave}
use maxql.Btree.Shape.{AreNodes}
use maxql.Btree.Delete.{Arrays, with_pair, remove_at, remove_child_at, child_keys, has_spare}
use maxql.Btree.Delete.Position.{IsBelow}

pub get_child-set_child :
    (cs : Children) (i : ℕ) (n : Node)
    → i < child_count cs
    → get_child (set_child cs i n) i ≡ some n
get_child-set_child none_left i n h = absurd (omega arith)
get_child-set_child (child m ns) zero n h = refl
get_child-set_child (child m ns) (suc i) n h = get_child-set_child ns i n (omega arith)

-- A write to the child before leaves the one behind it, and the other way round.
pub get_child-set_child_before :
    (cs : Children) (i : ℕ) (n : Node) → get_child (set_child cs i n) (suc i) ≡ get_child cs (suc i)
get_child-set_child_before none_left i n = refl
get_child-set_child_before (child m ns) zero n = refl
get_child-set_child_before (child m ns) (suc i) n = get_child-set_child_before ns i n

pub child_count-remove_child_at :
    (i : ℕ) (cs : Children)
    → i < child_count cs
    → suc (child_count (remove_child_at i cs)) ≡ child_count cs
unfolding remove_child_at
child_count-remove_child_at i none_left h = absurd (omega arith)
child_count-remove_child_at zero (child n ns) h = refl
child_count-remove_child_at (suc i) (child n ns) h =
    ap suc (child_count-remove_child_at i ns (omega arith))

pub length-remove_at {ℓ} :
    {A : Type ℓ} (i : ℕ) (xs : List A) → i < length xs → suc (length (remove_at i xs)) ≡ length xs
unfolding remove_at
length-remove_at i [] h = absurd (omega arith)
length-remove_at zero (x ∷ xs) h = refl
length-remove_at (suc i) (x ∷ xs) h = ap suc (length-remove_at i xs (omega arith))

pub with_pair-some :
    {A : Type 0} (f : Node → Entry → Node → Option A) (es : List Entry) (cs : Children) (i : ℕ)
    {l r : Node} {p : Entry}
    → get_child cs i ≡ some l
    → get_elem? es i ≡ some p
    → get_child cs (suc i) ≡ some r
    → with_pair f es cs i ≡ f l p r
unfolding with_pair
with_pair-some f es cs i hl hp hr = rw (with_pair, hp, hl, hr) refl

module _ (layout : BtreeLayout) where
  pub AreNodes-remove_child_at :
      (h i : ℕ) (cs : Children) → AreNodes layout h cs → AreNodes layout h (remove_child_at i cs)
  unfolding remove_child_at
  AreNodes-remove_child_at h i none_left a = tt
  AreNodes-remove_child_at h zero (child n ns) a = a.1
  AreNodes-remove_child_at h (suc i) (child n ns) a = (a.0, AreNodes-remove_child_at h i ns a.1)

  -- No child is full.
  abbrev HaveRoom : Children → Type 0
  HaveRoom none_left = Unit
  HaveRoom (child n ns) = (length (entries n) < layout.max_keys) × HaveRoom ns

  -- No child but the first is full.
  abbrev pub HaveRoomBehind : Children → Type 0
  HaveRoomBehind none_left = Unit
  HaveRoomBehind (child n ns) = HaveRoom ns

  HaveRoom-leaf :
      (cs : Children) (i : ℕ) {es : List Entry}
      → HaveRoom cs
      → get_child cs i ≡ some (leaf es)
      → length es < layout.max_keys
  HaveRoom-leaf none_left i h at = cc
  HaveRoom-leaf (child n ns) zero {es} h at =
      let same : n ≡ leaf es = cc in
      let count : length (entries n) ≡ length es = ap (λ t. length (entries t)) same in
      omega (arith, h.0, count)
  HaveRoom-leaf (child n ns) (suc i) h at = HaveRoom-leaf ns i h.1 at

  pub HaveRoomBehind-leaf :
      (cs : Children) (i : ℕ) {es : List Entry}
      → HaveRoomBehind cs
      → get_child cs (suc i) ≡ some (leaf es)
      → length es < layout.max_keys
  HaveRoomBehind-leaf none_left i h at = cc
  HaveRoomBehind-leaf (child n ns) i h at = HaveRoom-leaf ns i h at

  -- A leaf with its bounds.
  pub record LeafAt (cs : Children) (i : ℕ) : Type 0 where
    pub keys : List Entry
    pub at : get_child cs i ≡ some (leaf keys)
    pub least : layout.min_keys ≤ length keys
    pub most : length keys ≤ layout.max_keys

  pub leaf_at : (cs : Children) (i : ℕ) → AreNodes layout 0 cs → i < child_count cs → LeafAt cs i
  leaf_at none_left i a h = absurd (omega arith)
  leaf_at (child (leaf es) ns) zero a h = record {
    keys = es;
    at = refl;
    least = a.0.1;
    most = a.0.2;
  }
  leaf_at (child (inner es cs) ns) zero a h = absurd a.0
  leaf_at (child n ns) (suc i) a h =
      let l = leaf_at ns i a.1 (omega arith) in
      record { keys = l.keys; at = l.at; least = l.least; most = l.most }

  pub has_spare-leaf :
      (cs : Children) (i : ℕ) {es : List Entry}
      → get_child cs i ≡ some (leaf es)
      → has_spare layout cs i ≡ ltb layout.min_keys (length es)
  unfolding has_spare
  has_spare-leaf cs i h = rw (child_keys, h) refl

  module _ (compare : KeyComparator) (key : Key) (es : List Entry) (cs : Children) where
    -- The arrays of the parent afterwards: the same entries in order, and the key below a leaf that
    -- can lose an entry.
    pub record Ensured (r : Option Arrays) : Type 0 where
      pub entries : List Entry
      pub children : Children
      pub index : ℕ
      pub keys : List Entry
      pub made : r ≡ some (entries, children)
      pub same : weave children entries ≡ weave cs es
      pub counted : child_count children ≡ suc (length entries)
      pub leaves : AreNodes layout 0 children
      pub place : IsBelow compare key entries index
      pub at : get_child children index ≡ some (leaf keys)
      pub spare : layout.min_keys < length keys
      pub most : length keys ≤ layout.max_keys
      pub few : length entries ≤ length es
