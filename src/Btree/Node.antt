-- ===== src/Btree/Node.antt =====
-- `BtreeNode` of src/index/btree.c, and the arrays inside a node. The lists hold the `key_count`
-- entries and the children in use; what the C arrays hold beyond them is not part of the model.
use maxql.Prelude.{ℕ, zero, suc, List, Option, none, some, [], ◌∷◌, ◌<◌, ◌≡◌, refl, arith}
use maxql.Btree.Order.{Key}

pub record Entry : Type 0 where
  pub key : Key
  pub offset : ℕ

-- A node with `BTREE_NODE_LEAF` set, and one without. `Children` is the array of its children.
mutual
  pub data Node : Type 0 where
    leaf : List Entry → Node
    inner : List Entry → Children → Node

  pub data Children : Type 0 where
    none_left : Children
    child : Node → Children → Children

abbrev pub entries : Node → List Entry
entries (leaf es) = es
entries (inner es cs) = es

abbrev pub child_count : Children → ℕ
child_count none_left = 0
child_count (child n ns) = suc (child_count ns)

abbrev pub get_child : Children → ℕ → Option Node
get_child none_left i = none
get_child (child n ns) zero = some n
get_child (child n ns) (suc i) = get_child ns i

abbrev pub set_child : Children → ℕ → Node → Children
set_child none_left i m = none_left
set_child (child n ns) zero m = child m ns
set_child (child n ns) (suc i) m = child n (set_child ns i m)

-- The children from `i` on move up by one.
abbrev pub insert_child_at : ℕ → Node → Children → Children
insert_child_at zero m ns = child m ns
insert_child_at (suc i) m none_left = child m none_left
insert_child_at (suc i) m (child n ns) = child n (insert_child_at i m ns)

abbrev pub take_children : ℕ → Children → Children
take_children zero ns = none_left
take_children (suc i) none_left = none_left
take_children (suc i) (child n ns) = child n (take_children i ns)

abbrev pub drop_children : ℕ → Children → Children
drop_children zero ns = ns
drop_children (suc i) none_left = none_left
drop_children (suc i) (child n ns) = drop_children i ns

abbrev pub append_children : Children → Children → Children
append_children none_left ms = ms
append_children (child n ns) ms = child n (append_children ns ms)

pub get_child-some :
    (cs : Children) (i : ℕ) → i < child_count cs → (n : Node) × (get_child cs i ≡ some n)
get_child-some none_left i h = absurd (omega arith)
get_child-some (child n ns) zero h = (n, refl)
get_child-some (child n ns) (suc i) h = get_child-some ns i (omega arith)

module _ {ℓ} {A : Type ℓ} where
  -- The elements from `i` on move up by one.
  abbrev pub insert_at : ℕ → A → List A → List A
  insert_at zero x xs = x ∷ xs
  insert_at (suc i) x [] = x ∷ []
  insert_at (suc i) x (y ∷ ys) = y ∷ insert_at i x ys
