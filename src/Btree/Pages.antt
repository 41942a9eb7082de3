-- ===== src/Btree/Pages.antt =====
-- The file of an index in src/index/btree.c as the list of its pages: `btree_to_bin`, `parse_tree` and
-- `btree_search_stream`. The number of a page stands for its offset, which is that many times the size of
-- a page; the bytes inside a page are those of the fields of `Page`.
pub mod Laws
use maxql.Prelude.{
  ℕ, zero, suc, ◌+◌, List, [], ◌∷◌, ◌++◌, Bool, true, false, Option, none, some, length, get_elem?,
}
use maxql.Btree.Order.{Key, KeyComparator}
use maxql.Btree.Node.{Entry, Node, leaf, inner, Children, none_left, child}
use maxql.Btree.Search.{Scan, found, descend, scan_node}

-- What a page holds; the cells of the children that are not in use are 0 in the file.
pub record Page : Type 0 where
  pub is_leaf : Bool
  pub entries : List Entry
  pub children : List ℕ

-- The pages that a node takes, with those below it.
unfoldable mutual
  pub page_count : Node → ℕ
  page_count (leaf es) = 1
  page_count (inner es cs) = suc (page_count_below cs)

  pub page_count_below : Children → ℕ
  page_count_below none_left = 0
  page_count_below (child n ns) = page_count n + page_count_below ns

-- `children_offsets`, where the first child is at a page.
unfoldable pub children_pages : ℕ → Children → List ℕ
unfolding page_count
children_pages at none_left = []
children_pages at (child n ns) = at ∷ children_pages (at + page_count n) ns

-- The pages from a node's own on: its page, then those of its children.
unfoldable mutual
  unfolding children_pages page_count

  pub btree_to_bin : ℕ → Node → List Page
  btree_to_bin at (leaf es) = record { is_leaf = true; entries = es; children = [] } ∷ []
  btree_to_bin at (inner es cs) =
      record { is_leaf = false; entries = es; children = children_pages (suc at) cs }
      ∷ children_to_bin (suc at) cs

  pub children_to_bin : ℕ → Children → List Page
  children_to_bin at none_left = []
  children_to_bin at (child n ns) = btree_to_bin at n ++ children_to_bin (at + page_count n) ns

-- The loop over the first children, as many as are counted.
unfoldable pub parse_children : (ℕ → Option Node) → ℕ → List ℕ → Option Children
parse_children parse zero at = some none_left
parse_children parse (suc count) [] = none
parse_children parse (suc count) (m ∷ ms) = elim (parse m) [
  | none ↦ none
  | some n ↦ elim (parse_children parse count ms) [ none ↦ none | some ns ↦ some (child n ns) ]
]

-- The fuel is for the pages on the way down.
unfoldable pub parse_tree : ℕ → List Page → ℕ → Option Node
unfolding parse_children
parse_tree zero file at = none
parse_tree (suc fuel) file at = elim (get_elem? file at) [
  | none ↦ none
  | some p ↦ elim p.is_leaf [
    | true ↦ some (leaf p.entries)
    | false ↦
        elim (parse_children (λ m. parse_tree fuel file m) (suc (length p.entries)) p.children) [
          | none ↦ none
          | some cs ↦ some (inner p.entries cs)
        ]
  ]
]

module _ (compare : KeyComparator) where
  -- The loop over the pages. A page behind the end of the file is not read.
  unfoldable pub search_pages : ℕ → List Page → ℕ → Key → Option (Option ℕ)
  unfolding scan_node
  search_pages zero file at key = none
  search_pages (suc fuel) file at key = elim (get_elem? file at) [
    | none ↦ none
    | some p ↦ elim (scan_node compare key p.entries) [
      | found o ↦ some (some o)
      | descend c ↦ elim p.is_leaf [
        | true ↦ some none
        | false ↦ elim (get_elem? p.children c) [
          | none ↦ none
          | some m ↦ search_pages fuel file m key
        ]
      ]
    ]
  ]
