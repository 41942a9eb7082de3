-- ===== src/Index/Mirror.antt =====
-- What an index promises the code in src/index, and an index that answers as the rows of its table do.
use maxql.Prelude.{
  ℕ, ◌≤◌, length, List, [], ◌∷◌, ◌++◌, true, false, Option, none, some, ◌≡◌, refl, sym, ap, ◌∙◌,
  arith, Option-cases, inl, inr,
}
use Prim.Native.Nat.Ordering.{lt, eq, gt}
use maxql.Btree.Order.{Key, KeyComparator, IsKeyOrder, eq_symm}
use maxql.Parser.Ast.{ConditionOp, op_equals}
use maxql.Types.Value.{DataValue}
use maxql.Schema.Table.{IndexDefinition}
use maxql.Storage.{StoredRow}
use maxql.Index.Registry.{IndexVTable, index_vtable}
use maxql.Index.Keys.{Index, with_tree, row_key, index_insert, index_search, index_key_exists}

-- The answer once a key has an offset.
abbrev pub put_key : KeyComparator → Key → ℕ → Key → Option ℕ → Option ℕ
put_key compare key offset q before = elim (compare q key) [
  | eq ↦ some offset
  | lt ↦ before
  | gt ↦ before
]

put_key-same :
    (compare : KeyComparator) (o : IsKeyOrder compare) (key : Key) (offset : ℕ) (before : Option ℕ)
    → put_key compare key offset key before ≡ some offset
put_key-same compare o key offset before = ground (arith, o.compare_refl key)

-- An index supports equality only, keeps keys in an order, and takes one that it does not have. One that
-- has a key is loaded as it was saved, and is searched in its file as in memory.
pub record IsIndex {D : Type 0} (vt : IndexVTable D) (comparator : D → KeyComparator)
    (IsValid : D → Type 0) : Type 0 where
  pub equality : (op : ConditionOp) → vt.supports_op op ≡ true → op ≡ op_equals
  pub ordered : (d : D) → IsValid d → IsKeyOrder (comparator d)
  pub inserted :
      (d : D) (key : Key) (offset : ℕ)
      → IsValid d
      → vt.search d key ≡ some none
      → (d' : D) × (vt.insert d key offset ≡ some d')
        × IsValid d'
        × (comparator d' ≡ comparator d)
        × ((q : Key) (before : Option ℕ)
            → vt.search d q ≡ some before
            → vt.search d' q ≡ some (put_key (comparator d) key offset q before))
  pub stored :
      (d : D) (key : Key) (offset : ℕ)
      → IsValid d
      → vt.search d key ≡ some (some offset)
      → (vt.load d ≡ some d) × ((q : Key) → vt.search_stream d q ≡ vt.search d q)

-- The offset of the first row whose key compares equal.
unfoldable pub find_row : IndexDefinition → KeyComparator → Key → List StoredRow → Option ℕ
unfolding row_key
find_row index_def compare q [] = none
find_row index_def compare q (r ∷ rs) =
    let rest = find_row index_def compare q rs in
    elim (row_key index_def r.row) [ none ↦ rest | some key ↦ put_key compare key r.offset q rest ]

-- Each row has a key, and no later row has an equal one.
abbrev pub KeysApart : IndexDefinition → KeyComparator → List StoredRow → Type 0
KeysApart index_def compare [] = Unit
KeysApart index_def compare (r ∷ rs) =
    ((key : Key) × (row_key index_def r.row ≡ some key)
      × (find_row index_def compare key rs ≡ none))
    × KeysApart index_def compare rs

module _ (index_def : IndexDefinition) (compare : KeyComparator) (o : IsKeyOrder compare) where
  -- Equal keys find the same row.
  pub find_row-eq :
      (p q : Key) (rs : List StoredRow)
      → compare p q ≡ eq
      → find_row index_def compare p rs ≡ none
      → find_row index_def compare q rs ≡ none
  unfolding find_row
  find_row-eq p q [] h absent = refl
  find_row-eq p q (r ∷ rs) h absent = elim (Option-cases (row_key index_def r.row)) [
    | inl e ↦ rw (find_row, e) (find_row-eq p q rs h (rw (find_row, e) at absent))
    | inr (key, e) ↦
        rw (find_row, e)
          (step key r.offset (find_row index_def compare p rs) (find_row index_def compare q rs)
            (λ a. find_row-eq p q rs h a) (rw (find_row, e) at absent))
  ]
    where
      step :
          (key : Key) (offset : ℕ) (before after : Option ℕ)
          → (before ≡ none → after ≡ none)
          → put_key compare key offset p before ≡ none
          → put_key compare key offset q after ≡ none
      step key offset before after rest gone = ground (arith, o.eq_trans p q key h, rest)

  find_row-append :
      (q key : Key) (new : StoredRow) (rs : List StoredRow)
      → row_key index_def new.row ≡ some key
      → find_row index_def compare key rs ≡ none
      → find_row index_def compare q (rs ++ new ∷ [])
        ≡ put_key compare key new.offset q (find_row index_def compare q rs)
  unfolding find_row
  find_row-append q key new [] made fresh = rw (find_row, made) refl
  find_row-append q key new (r ∷ rs) made fresh = elim (Option-cases (row_key index_def r.row)) [
    | inl e ↦ rw (find_row, e) (find_row-append q key new rs made (rw (find_row, e) at fresh))
    | inr (k, e) ↦
        rw (find_row, e)
          (swap k r.offset (find_row index_def compare key rs) (find_row index_def compare q rs) _
            (λ a. find_row-append q key new rs made a) (rw (find_row, e) at fresh))
  ]
    where
      swap :
          (k : Key) (offset : ℕ) (absent before after : Option ℕ)
          → (absent ≡ none → after ≡ put_key compare key new.offset q before)
          → put_key compare k offset key absent ≡ none
          → put_key compare k offset q after
            ≡ put_key compare key new.offset q (put_key compare k offset q before)
      swap k offset absent before after rest gone =
          ground (arith, rest, o.eq_trans key q k, eq_symm compare o q key)

  KeysApart-append :
      (key : Key) (new : StoredRow) (rs : List StoredRow)
      → KeysApart index_def compare rs
      → row_key index_def new.row ≡ some key
      → find_row index_def compare key rs ≡ none
      → KeysApart index_def compare (rs ++ new ∷ [])
  unfolding find_row
  KeysApart-append key new [] apart made fresh = ((key, made, refl), tt)
  KeysApart-append key new (r ∷ rs) ((k, e, none_later), apart) made fresh =
      let fresh' : put_key compare k r.offset key (find_row index_def compare key rs) ≡ none =
        rw (find_row, e) at fresh in
      let absent : find_row index_def compare key rs ≡ none = unput _ fresh' in
      (
        (k, e, find_row-append k key new rs made absent ∙ settle _ fresh'),
        KeysApart-append key new rs apart made absent,
      )
    where
      unput : (before : Option ℕ) → put_key compare k r.offset key before ≡ none → before ≡ none
      unput before h = ground arith

      settle :
          (before : Option ℕ)
          → put_key compare k r.offset key before ≡ none
          → put_key compare key new.offset k (find_row index_def compare k rs) ≡ none
      settle before h = ground (arith, eq_symm compare o k key)

module _ {D : Type 0} (registry : List (IndexVTable D)) (comparator : D → KeyComparator)
    (IsValid : D → Type 0) where
  -- A search in the index answers with the first row of the list that has the key.
  pub record Mirrors (index : Index D) (rows : List StoredRow) : Type 0 where
    pub registered : index_vtable registry index.index_def.type ≡ some index.vtable
    pub laws : IsIndex index.vtable comparator IsValid
    pub valid : IsValid index.tree
    pub apart : KeysApart index.index_def (comparator index.tree) rows
    pub answers :
        (q : Key)
        → index.vtable.search index.tree q
          ≡ some (find_row index.index_def (comparator index.tree) q rows)

  -- The index of a table with a row has a key.
  pub Mirrors-stored :
      (index : Index D) (rows : List StoredRow)
      → Mirrors index rows
      → 1 ≤ length rows
      → (index.vtable.load index.tree ≡ some index.tree)
        × ((q : Key) → index.vtable.search_stream index.tree q ≡ index.vtable.search index.tree q)
  unfolding find_row
  Mirrors-stored index [] m some_row = absurd (omega arith)
  Mirrors-stored index (r ∷ rs) m some_row =
      let (key, made, apart) = m.apart.0 in
      let first : find_row index.index_def (comparator index.tree) key (r ∷ rs) ≡ some r.offset =
        rw (find_row, made)
          (put_key-same (comparator index.tree) (m.laws.ordered index.tree m.valid) key r.offset
            _) in
      m.laws.stored index.tree key r.offset m.valid (m.answers key ∙ ap some first)

  pub index_key_exists-find_row :
      (index : Index D) (rows : List StoredRow) (values : List DataValue) (key : Key)
      → Mirrors index rows
      → row_key index.index_def values ≡ some key
      → index_key_exists registry index values
        ≡ some (elim (find_row index.index_def (comparator index.tree) key rows) [
          | none ↦ false
          | some o ↦ true
        ])
  unfolding index_key_exists index_search
  index_key_exists-find_row index rows values key m made =
      rw (index_key_exists, index_search, made, m.registered, m.answers key) refl

  pub index_insert-Mirrors :
      (index : Index D) (rows : List StoredRow) (values : List DataValue) (new : StoredRow)
      (key : Key)
      → Mirrors index rows
      → row_key index.index_def values ≡ some key
      → row_key index.index_def new.row ≡ some key
      → index_key_exists registry index values ≡ some false
      → (index' : Index D) × (index_insert index values new.offset ≡ some index')
        × (index'.index_def ≡ index.index_def)
        × Mirrors index' (rows ++ new ∷ [])
  unfolding index_insert
  index_insert-Mirrors index rows values new key m made made' fresh =
      let absent : find_row index.index_def (comparator index.tree) key rows ≡ none =
        none_of _ (sym (index_key_exists-find_row index rows values key m made) ∙ fresh) in
      let (tree, put, valid, same, answers) =
        m.laws.inserted index.tree key new.offset m.valid (m.answers key ∙ ap some absent) in
      let o = m.laws.ordered index.tree m.valid in
      (
        with_tree index tree,
        rw (index_insert, made, put) refl,
        refl,
        record {
          registered = m.registered;
          laws = m.laws;
          valid = valid;
          apart = rw same (
              KeysApart-append index.index_def (comparator index.tree) o key new rows m.apart made'
                absent);
          answers = λ q.
              answers q _ (m.answers q)
              ∙ ap some (
                  sym (
                    find_row-append index.index_def (comparator index.tree) o q key new rows made'
                      absent))
              ∙ ap (λ c. some (find_row index.index_def c q (rows ++ new ∷ []))) (sym same);
        },
      )
    where
      none_of :
          (f : Option ℕ) → some (elim f [ none ↦ false | some o ↦ true ]) ≡ some false → f ≡ none
      none_of none h = refl
      none_of (some o) h = cc
