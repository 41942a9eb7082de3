-- ===== src/Index/Set/Mirrors.antt =====
-- The indexes of a table in src/index/index_set.c answer as the rows of the table do.
use maxql.Prelude.{
  ℕ, ◌≤◌, length, List, [], ◌∷◌, ◌++◌, Bool, true, false, Option, none, some, ◌≡◌, ◌⊎◌, inl, inr,
  refl, ap, ◌∙◌, All, Option-cases,
}
use maxql.Btree.Order.{Key, KeyComparator}
use maxql.Types.Value.{DataValue}
use maxql.Schema.Table.{IndexDefinition}
use maxql.Storage.{StoredRow}
use maxql.Index.Registry.{IndexVTable}
use maxql.Index.Keys.{Index, row_key, index_key_exists}
use maxql.Index.Set.{
  IndexSet, index_load, index_set_load, first_unique, index_set_insert, index_set_has_duplicate,
}
use maxql.Index.Mirror.{
  find_row, Mirrors, Mirrors-stored, index_key_exists-find_row, index_insert-Mirrors,
}

-- An index makes the same key of the values and of what a table stores of them.
abbrev pub KeepsKey : {D : Type 0} → List DataValue → List DataValue → Index D → Type 0
KeepsKey values stored index =
    (key : Key) × (row_key index.index_def values ≡ some key)
    × (row_key index.index_def stored ≡ some key)

module _ {D : Type 0} (registry : List (IndexVTable D)) (comparator : D → KeyComparator)
    (IsValid : D → Type 0) where
  -- The indexes of a table with a row are loaded as they were saved.
  pub index_set_load-Mirrors :
      (is : IndexSet D) (rows : List StoredRow)
      → All (λ i. Mirrors registry comparator IsValid i rows) is
      → (is ≡ []) ⊎ (1 ≤ length rows)
      → index_set_load is ≡ some is
  unfolding index_set_load
  index_set_load-Mirrors [] rows ms h = refl
  index_set_load-Mirrors (i ∷ is) rows ms (inl none_there) = cc
  index_set_load-Mirrors (i ∷ is) rows ms (inr some_row) =
      let (loaded, streamed) = Mirrors-stored registry comparator IsValid i rows ms.0 some_row in
      rw (index_set_load, index_load, loaded, index_set_load-Mirrors is rows ms.1 (inr some_row))
        refl

  -- Some index of the set has a row among these with the key of the values.
  abbrev pub Clashes : IndexSet D → List StoredRow → List DataValue → Type 0
  Clashes [] rows values = ⊥
  Clashes (i ∷ is) rows values =
      ((key : Key) × (offset : ℕ) × (row_key i.index_def values ≡ some key)
        × (find_row i.index_def (comparator i.tree) key rows ≡ some offset))
      ⊎ Clashes is rows values

  -- What the search for a duplicate answers.
  abbrev pub Tells : IndexSet D → List StoredRow → List DataValue → Option IndexDefinition → Type 0
  Tells is rows values none = All (λ i. index_key_exists registry i values ≡ some false) is
  Tells is rows values (some index_def) = Clashes is rows values

  first_unique-eq :
      (index_def : IndexDefinition) {unique : Bool} {check : Option Bool} {found : Bool}
      (rest : Option (Option IndexDefinition))
      → unique ≡ true
      → check ≡ some found
      → first_unique index_def unique check rest ≡ first_unique index_def true (some found) rest
  first_unique-eq index_def {unique} {check} rest h k =
      ap (λ b. first_unique index_def b check rest) h
      ∙ ap (λ c. first_unique index_def true c rest) k

  pub index_set_has_duplicate-Tells :
      (is : IndexSet D) (rows : List StoredRow) (values stored : List DataValue)
      → All (λ i. Mirrors registry comparator IsValid i rows) is
      → All (KeepsKey values stored) is
      → All (λ i. i.index_def.is_unique ≡ true) is
      → (answer : Option IndexDefinition) × (index_set_has_duplicate registry is values
          ≡ some answer)
        × Tells is rows values answer
  unfolding index_set_has_duplicate first_unique
  index_set_has_duplicate-Tells [] rows values stored ms ks us = (none, refl, tt)
  index_set_has_duplicate-Tells (i ∷ is) rows values stored ms ks us =
      let (key, made, made') = ks.0 in
      let e = index_key_exists-find_row registry comparator IsValid i rows values key ms.0 made in
      let (answer, told, tells) =
        index_set_has_duplicate-Tells is rows values stored ms.1 ks.1 us.1 in
      elim (Option-cases (find_row i.index_def (comparator i.tree) key rows)) [
        | inr (offset, found) ↦ (
          some i.index_def,
          first_unique-eq i.index_def _ us.0 (rw found at e),
          inl (key, offset, made, found),
        )
        | inl absent ↦ (
          answer,
          first_unique-eq i.index_def _ us.0 (rw absent at e) ∙ told,
          later (rw absent at e) answer tells,
        )
      ]
    where
      later :
          index_key_exists registry i values ≡ some false
          → (answer : Option IndexDefinition) → Tells is rows values answer
          → Tells (i ∷ is) rows values answer
      later e none h = (e, h)
      later e (some index_def) h = inr h

  pub index_set_insert-Mirrors :
      (is : IndexSet D) (rows : List StoredRow) (values : List DataValue) (new : StoredRow)
      → All (λ i. Mirrors registry comparator IsValid i rows) is
      → All (KeepsKey values new.row) is
      → All (λ i. i.index_def.is_unique ≡ true) is
      → All (λ i. index_key_exists registry i values ≡ some false) is
      → (is' : IndexSet D) × (index_set_insert is values new.offset ≡ some is')
        × All (λ i. Mirrors registry comparator IsValid i (rows ++ new ∷ [])) is'
        × All (λ i. i.index_def.is_unique ≡ true) is'
  unfolding index_set_insert
  index_set_insert-Mirrors [] rows values new ms ks us fs = ([], refl, tt, tt)
  index_set_insert-Mirrors (i ∷ is) rows values new ms ks us fs =
      let (key, made, made') = ks.0 in
      let (j, put, same, m) =
        index_insert-Mirrors registry comparator IsValid i rows values new key ms.0 made made'
          fs.0 in
      let (js, puts, ms', us') = index_set_insert-Mirrors is rows values new ms.1 ks.1 us.1 fs.1 in
      (
        j ∷ js,
        rw (index_set_insert, put, puts) refl,
        (m, ms'),
        (ap (λ d. d.is_unique) same ∙ us.0, us'),
      )
