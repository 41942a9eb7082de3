-- ===== src/Btree/Pages/Laws.antt =====
-- The file of an index in src/index/btree.c is read as the tree that was written.
use maxql.Prelude.{
  ℕ, zero, suc, ◌+◌, ◌≤◌, List, [], ◌∷◌, ◌++◌, true, false, Option, none, some, ◌≡◌, refl, sym, ap,
  ◌∙◌, arith, append_assoc, append-nil, length, length-append, get_elem?,
}
use mathlib.Core.Path.{subst}
use maxql.Btree.Order.{Key, KeyComparator}
use maxql.Btree.Layout.{BtreeLayout}
use maxql.Btree.Node.{Entry, Node, leaf, inner, Children, none_left, child, child_count}
use maxql.Btree.Shape.{IsNode, AreNodes}
use maxql.Btree.Search.{Scan, found, descend, scan_node, search_node, search_below}
use maxql.Btree.Pages.{
  Page, page_count, page_count_below, children_pages, btree_to_bin, children_to_bin, parse_children,
  parse_tree, search_pages,
}

mutual
  unfolding btree_to_bin page_count

  length-btree_to_bin : (at : ℕ) (n : Node) → length (btree_to_bin at n) ≡ page_count n
  length-btree_to_bin at (leaf es) = refl
  length-btree_to_bin at (inner es cs) = omega (arith, length-children_to_bin (suc at) cs)

  length-children_to_bin :
      (at : ℕ) (cs : Children) → length (children_to_bin at cs) ≡ page_count_below cs
  length-children_to_bin at none_left = refl
  length-children_to_bin at (child n ns) = omega (
    arith,
    length-append (btree_to_bin at n) (children_to_bin (at + page_count n) ns),
    length-btree_to_bin at n,
    length-children_to_bin (at + page_count n) ns,
  )

-- A part of the file that begins at a page.
pub record Holds (file : List Page) (at : ℕ) (pages : List Page) : Type 0 where
  pub before : List Page
  pub behind : List Page
  pub whole : file ≡ before ++ (pages ++ behind)
  pub placed : length before ≡ at

page-first :
    (before : List Page) (at : ℕ) (p : Page) (rest : List Page)
    → length before ≡ at
    → get_elem? (before ++ (p ∷ rest)) at ≡ some p
page-first [] zero p rest h = refl
page-first [] (suc at) p rest h = absurd (omega arith)
page-first (q ∷ before) zero p rest h = absurd (omega arith)
page-first (q ∷ before) (suc at) p rest h = page-first before at p rest (omega arith)

Holds-page :
    (file : List Page) (at : ℕ) (p : Page) (pages : List Page)
    → Holds file at (p ∷ pages)
    → get_elem? file at ≡ some p
Holds-page file at p pages h =
    ap (λ f. get_elem? f at) h.whole ∙ page-first h.before at p (pages ++ h.behind) h.placed

Holds-rest :
    (file : List Page) (at : ℕ) (p : Page) (pages : List Page)
    → Holds file at (p ∷ pages)
    → Holds file (suc at) pages
Holds-rest file at p pages h = record {
  before = h.before ++ (p ∷ []);
  behind = h.behind;
  whole = h.whole ∙ sym (append_assoc h.before (p ∷ []) (pages ++ h.behind));
  placed = omega (arith, length-append h.before (p ∷ []), h.placed);
}

Holds-left :
    (file : List Page) (at : ℕ) (ps qs : List Page) → Holds file at (ps ++ qs) → Holds file at ps
Holds-left file at ps qs h = record {
  before = h.before;
  behind = qs ++ h.behind;
  whole = h.whole ∙ ap (λ t. h.before ++ t) (append_assoc ps qs h.behind);
  placed = h.placed;
}

Holds-right :
    (file : List Page) (at size : ℕ) (ps qs : List Page)
    → length ps ≡ size
    → Holds file at (ps ++ qs)
    → Holds file (at + size) qs
Holds-right file at size ps qs count h = record {
  before = h.before ++ ps;
  behind = h.behind;
  whole =
      h.whole
      ∙ ap (λ t. h.before ++ t) (append_assoc ps qs h.behind)
      ∙ sym (append_assoc h.before ps (qs ++ h.behind));
  placed = omega (arith, length-append h.before ps, h.placed);
}

module _ (compare : KeyComparator) (file : List Page) (key : Key) where
  -- What the loop does after a node's keys.
  abbrev go_on : ℕ → Option ℕ → Option (Option ℕ)
  go_on fuel none = none
  go_on fuel (some m) = search_pages compare fuel file m key

  search_pages-leaf :
      (fuel at : ℕ) (es : List Entry)
      → get_elem? file at ≡ some (record { is_leaf = true; entries = es; children = [] })
      → search_pages compare (suc fuel) file at key ≡ search_node compare key (leaf es)
  unfolding search_pages search_node
  search_pages-leaf fuel at es h = rw (search_pages, h) (same (scan_node compare key es))
    where
      same :
          (s : Scan)
          → (elim s [ found o ↦ some (some o) | descend c ↦ some none ])
            ≡ (elim s [ found o ↦ some (some o) | descend c ↦ some none ])
      same s = refl

  search_pages-inner :
      (fuel at : ℕ) (es : List Entry) (cs : Children) (numbers : List ℕ)
      → get_elem? file at ≡ some (record { is_leaf = false; entries = es; children = numbers })
      → ((c : ℕ) → go_on fuel (get_elem? numbers c) ≡ search_below compare key cs (descend c))
      → search_pages compare (suc fuel) file at key ≡ search_node compare key (inner es cs)
  unfolding search_pages search_node search_below
  search_pages-inner fuel at es cs numbers h below =
      rw (search_pages, h) (same cs below (scan_node compare key es))
    where
      same :
          (cs : Children)
          → ((c : ℕ) → go_on fuel (get_elem? numbers c) ≡ search_below compare key cs (descend c))
          → (s : Scan)
          → (elim s [
            | found o ↦ some (some o)
            | descend c ↦ elim (get_elem? numbers c) [
              | none ↦ none
              | some m ↦ search_pages compare fuel file m key
            ]
          ])
            ≡ search_below compare key cs s
      same none_left b (found o) = refl
      same (child n ns) b (found o) = refl
      same cs b (descend c) = taken (get_elem? numbers c) ∙ b c
        where
          taken :
              (o : Option ℕ)
              → (elim o [ none ↦ none | some m ↦ search_pages compare fuel file m key ])
                ≡ go_on fuel o
          taken none = refl
          taken (some m) = refl

  mutual
    unfolding btree_to_bin page_count children_pages search_node

    pub search_pages-search_node :
        (n : Node) (fuel at : ℕ)
        → Holds file at (btree_to_bin at n)
        → page_count n ≤ fuel
        → search_pages compare fuel file at key ≡ search_node compare key n
    search_pages-search_node (leaf es) zero at h enough = absurd (omega arith)
    search_pages-search_node (leaf es) (suc fuel) at h enough =
        search_pages-leaf fuel at es (Holds-page file at _ _ h)
    search_pages-search_node (inner es cs) zero at h enough = absurd (omega arith)
    search_pages-search_node (inner es cs) (suc fuel) at h enough =
        search_pages-inner fuel at es cs (children_pages (suc at) cs) (Holds-page file at _ _ h)
          (λ c. go_on-search_below cs fuel (suc at) c (Holds-rest file at _ _ h) (omega arith))

    go_on-search_below :
        (cs : Children) (fuel at c : ℕ)
        → Holds file at (children_to_bin at cs)
        → page_count_below cs ≤ fuel
        → go_on fuel (get_elem? (children_pages at cs) c) ≡ search_below compare key cs (descend c)
    go_on-search_below none_left fuel at c h enough = refl
    go_on-search_below (child n ns) fuel at zero h enough =
        search_pages-search_node n fuel at (Holds-left file at _ _ h) (omega arith)
    go_on-search_below (child n ns) fuel at (suc c) h enough =
        go_on-search_below ns fuel (at + page_count n) c
          (Holds-right file at (page_count n) _ _ (length-btree_to_bin at n) h) (omega arith)

module _ (layout : BtreeLayout) (file : List Page) where
  parse_tree-leaf :
      (fuel at : ℕ) (es : List Entry)
      → get_elem? file at ≡ some (record { is_leaf = true; entries = es; children = [] })
      → parse_tree (suc fuel) file at ≡ some (leaf es)
  unfolding parse_tree
  parse_tree-leaf fuel at es h = rw (parse_tree, h) refl

  parse_tree-inner :
      (fuel at : ℕ) (es : List Entry) (cs : Children) (numbers : List ℕ)
      → get_elem? file at ≡ some (record { is_leaf = false; entries = es; children = numbers })
      → parse_children (λ m. parse_tree fuel file m) (suc (length es)) numbers ≡ some cs
      → parse_tree (suc fuel) file at ≡ some (inner es cs)
  unfolding parse_tree
  parse_tree-inner fuel at es cs numbers h below = rw (parse_tree, h, below) refl

  parse_children-cons :
      (parse : ℕ → Option Node) (count m : ℕ) (numbers : List ℕ) (n : Node) (ns : Children)
      → parse m ≡ some n
      → parse_children parse count numbers ≡ some ns
      → parse_children parse (suc count) (m ∷ numbers) ≡ some (child n ns)
  unfolding parse_children
  parse_children-cons parse count m numbers n ns h k = rw (parse_children, h, k) refl

  mutual
    unfolding btree_to_bin page_count children_pages parse_children

    pub parse_tree-btree_to_bin :
        (n : Node) (height fewest fuel at : ℕ)
        → IsNode layout height fewest n
        → Holds file at (btree_to_bin at n)
        → page_count n ≤ fuel
        → parse_tree fuel file at ≡ some n
    parse_tree-btree_to_bin (leaf es) height fewest zero at w h enough = absurd (omega arith)
    parse_tree-btree_to_bin (leaf es) height fewest (suc fuel) at w h enough =
        parse_tree-leaf fuel at es (Holds-page file at _ _ h)
    parse_tree-btree_to_bin (inner es cs) height fewest zero at w h enough = absurd (omega arith)
    parse_tree-btree_to_bin (inner es cs) zero fewest (suc fuel) at w h enough = absurd w
    parse_tree-btree_to_bin (inner es cs) (suc height) fewest (suc fuel) at w h enough =
        parse_tree-inner fuel at es cs (children_pages (suc at) cs) (Holds-page file at _ _ h) (
          subst
            (λ t.
              parse_children (λ m. parse_tree fuel file m) t (children_pages (suc at) cs) ≡ some cs)
            w.2
            (parse_children-children_to_bin cs height fuel (suc at) w.3 (Holds-rest file at _ _ h)
              (omega arith)))

    parse_children-children_to_bin :
        (cs : Children) (height fuel at : ℕ)
        → AreNodes layout height cs
        → Holds file at (children_to_bin at cs)
        → page_count_below cs ≤ fuel
        → parse_children (λ m. parse_tree fuel file m) (child_count cs) (children_pages at cs)
          ≡ some cs
    parse_children-children_to_bin none_left height fuel at w h enough = refl
    parse_children-children_to_bin (child n ns) height fuel at w h enough =
        parse_children-cons (λ m. parse_tree fuel file m) (child_count ns) at
          (children_pages (at + page_count n) ns) n ns
          (parse_tree-btree_to_bin n height layout.min_keys fuel at w.0 (Holds-left file at _ _ h)
            (omega arith))
          (parse_children-children_to_bin ns height fuel (at + page_count n) w.1
            (Holds-right file at (page_count n) _ _ (length-btree_to_bin at n) h) (omega arith))

Holds-all : (pages : List Page) → Holds pages 0 pages
Holds-all pages = record { before = []; behind = []; whole = sym (append-nil pages); placed = refl }

-- The tree that is read from the pages that are written for a well-formed tree is that tree.
pub parse_tree-whole :
    (layout : BtreeLayout) (n : Node) (height fewest : ℕ)
    → IsNode layout height fewest n
    → parse_tree (length (btree_to_bin 0 n)) (btree_to_bin 0 n) 0 ≡ some n
parse_tree-whole layout n height fewest w =
    parse_tree-btree_to_bin layout (btree_to_bin 0 n) n height fewest _ 0 w
      (Holds-all (btree_to_bin 0 n)) (omega (arith, length-btree_to_bin 0 n))

-- A search in the pages that are written for a tree answers as the search in the tree does.
pub search_pages-whole :
    (compare : KeyComparator) (n : Node) (key : Key)
    → search_pages compare (length (btree_to_bin 0 n)) (btree_to_bin 0 n) 0 key
      ≡ search_node compare key n
search_pages-whole compare n key =
    search_pages-search_node compare (btree_to_bin 0 n) key n _ 0 (Holds-all (btree_to_bin 0 n))
      (omega (arith, length-btree_to_bin 0 n))
