-- ===== src/Btree/Search.antt =====
-- `btree_search` of src/index/btree.c, against a search through the entries in order.
pub mod Laws
pub mod Insert
use maxql.Prelude.{ℕ, zero, suc, List, [], ◌∷◌, Option, none, some}
use Prim.Native.Nat.Ordering.{lt, eq, gt}
use maxql.Btree.Order.{Key, KeyComparator}
use maxql.Btree.Node.{Entry, Node, leaf, inner, Children, none_left, child}

-- The loop over a node's keys: the offset at an equal key, or the child to go on with.
pub data Scan : Type 0 where
  found : ℕ → Scan
  descend : ℕ → Scan

abbrev pub next_scan : Scan → Scan
next_scan (found o) = found o
next_scan (descend c) = descend (suc c)

module _ (compare : KeyComparator) where
  unfoldable pub scan_node : Key → List Entry → Scan
  scan_node key [] = descend 0
  scan_node key (e ∷ es) = elim (compare key e.key) [
    | eq ↦ found e.offset
    | lt ↦ descend 0
    | gt ↦ next_scan (scan_node key es)
  ]

  -- `some none` is the answer `false`; `none` would be a missing child.
  unfoldable mutual
    pub search_node : Key → Node → Option (Option ℕ)
    search_node key (leaf es) = elim (scan_node key es) [
      | found o ↦ some (some o)
      | descend c ↦ some none
    ]
    search_node key (inner es cs) = search_below key cs (scan_node key es)

    pub search_below : Key → Children → Scan → Option (Option ℕ)
    search_below key none_left (found o) = some (some o)
    search_below key none_left (descend c) = none
    search_below key (child n ns) (found o) = some (some o)
    search_below key (child n ns) (descend zero) = search_node key n
    search_below key (child n ns) (descend (suc c)) = search_below key ns (descend c)

  unfoldable pub btree_search : Option Node → Key → Option (Option ℕ)
  unfolding scan_node search_node
  btree_search none key = some none
  btree_search (some root) key = search_node key root
