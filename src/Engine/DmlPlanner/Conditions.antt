-- ===== src/Engine/DmlPlanner/Conditions.antt =====
-- The conditions that src/engine/dml/planner.c searches an index with, and the scores of indexes.
use maxql.Prelude.{
  ℕ, ◌≤◌, List, [], ◌∷◌, Bool, true, false, not, zero, suc, All, ◌&&◌, Option, none, some, ◌≡◌, ◌⊎◌,
  inl, inr, refl, arith, length, ◌==◌, if◌then◌else◌, Bool-cases,
}
use maxql.Schema.Table.{IndexType, IndexPart, IndexDefinition}
use maxql.Index.Registry.{IndexVTable, index_vtable, index_supports_op}
use maxql.Engine.DmlTypes.{WherePredicate, WhereFilter, IndexCondition}
use maxql.Engine.DmlPlanner.{column_covered, score_parts, score_index, fill_conditions}

-- An element of a list.
abbrev pub Among : {A : Type 0} → A → List A → Type 0
Among x [] = ⊥
Among x (y ∷ ys) = (y ≡ x) ⊎ Among x ys

same_of_test : (a b : ℕ) → (a == b) ≡ true → b ≡ a
same_of_test a b h = ground arith

-- The first condition on a column.
abbrev pub IsFirstOn : ℕ → WhereFilter → WherePredicate → Type 0
IsFirstOn column_pos [] q = ⊥
IsFirstOn column_pos (p ∷ ps) q =
    ((p ≡ q) × (p.column_index ≡ column_pos))
    ⊎ (((column_pos == p.column_index) ≡ false) × IsFirstOn column_pos ps q)

-- No condition is on a column.
abbrev pub NoneOn : ℕ → WhereFilter → Type 0
NoneOn column_pos where_filter =
    All (λ (p : WherePredicate). (column_pos == p.column_index) ≡ false) where_filter

-- The score of an index, 0 where it has to be matched in full and is not.
abbrev pub usable : {D : Type 0} → IndexVTable D → IndexDefinition → ℕ → ℕ
usable vt d score = if vt.requires_full_match && not (score == length d.parts) then 0 else score

module _ {D : Type 0} (registry : List (IndexVTable D)) where
  -- Each index is of a registered type.
  abbrev pub IsRegistered : IndexDefinition → Type 0
  IsRegistered d = (vt : IndexVTable D) × (index_vtable registry d.type ≡ some vt)

  -- The first condition on the column has an operator that the index supports, or does not.
  abbrev pub IsAnswered : WhereFilter → IndexType → ℕ → Bool → Type 0
  IsAnswered where_filter type column_pos can =
      (q : WherePredicate) × IsFirstOn column_pos where_filter q
      × (index_supports_op registry type q.op ≡ some can)

  -- The number of the first parts whose columns are covered; the next one, if there is one, is not.
  abbrev pub IsScore : WhereFilter → IndexType → List IndexPart → ℕ → Type 0
  IsScore where_filter type [] n = n ≡ 0
  IsScore where_filter type (p ∷ ps) zero =
      NoneOn p.column_pos where_filter ⊎ IsAnswered where_filter type p.column_pos false
  IsScore where_filter type (p ∷ ps) (suc n) =
      IsAnswered where_filter type p.column_pos true × IsScore where_filter type ps n

  -- What a score counts: an index of a registered type with its usable score.
  pub record Scored (where_filter : WhereFilter) (d : IndexDefinition) (n : ℕ) : Type 0 where
    pub vtable : IndexVTable D
    pub registered : index_vtable registry d.type ≡ some vtable
    pub score : ℕ
    pub counted : score_index registry d where_filter ≡ some score
    pub meaning : IsScore where_filter d.type d.parts score
    pub worth : usable vtable d score ≡ n

  -- No index has a better usable score.
  abbrev pub AtMost : WhereFilter → ℕ → IndexDefinition → Type 0
  AtMost where_filter max_score d = (n : ℕ) × Scored where_filter d n × (n ≤ max_score)

  -- A condition of the statement on the column that the index's part stands for.
  pub record IsCondition (where_filter : WhereFilter) (type : IndexType) (p : IndexPart)
      (c : IndexCondition) : Type 0 where
    pub predicate : WherePredicate
    pub among : Among predicate where_filter
    pub on_column : predicate.column_index ≡ p.column_pos
    pub at_column : c.column_position ≡ p.column_pos
    pub same_value : c.value ≡ predicate.value
    pub same_op : c.op ≡ predicate.op
    pub supported : index_supports_op registry type c.op ≡ some true

  -- The conditions are on the first parts, in order.
  abbrev pub AreConditions : WhereFilter → IndexType → List IndexPart → List IndexCondition → Type 0
  AreConditions where_filter type ps [] = Unit
  AreConditions where_filter type [] (c ∷ cs) = ⊥
  AreConditions where_filter type (p ∷ ps) (c ∷ cs) =
      IsCondition where_filter type p c × AreConditions where_filter type ps cs

  -- What is known of the predicate that covers a column.
  abbrev Covers : WhereFilter → IndexType → ℕ → Option WherePredicate → Type 0
  Covers where_filter type column_pos none =
      NoneOn column_pos where_filter ⊎ IsAnswered where_filter type column_pos false
  Covers where_filter type column_pos (some p) =
      Among p where_filter
      × (p.column_index ≡ column_pos)
      × (index_supports_op registry type p.op ≡ some true)
      × IsFirstOn column_pos where_filter p

  column_covered-Covers :
      (column_pos : ℕ) (type : IndexType) (vt : IndexVTable D) (where_filter : WhereFilter)
      → index_vtable registry type ≡ some vt
      → (o : Option WherePredicate) × (column_covered registry column_pos type where_filter
          ≡ some o)
        × Covers where_filter type column_pos o
  unfolding column_covered index_supports_op
  column_covered-Covers column_pos type vt [] reg = (none, refl, inl tt)
  column_covered-Covers column_pos type vt (p ∷ ps) reg =
      elim (Bool-cases (column_pos == p.column_index)) [
        | inl here ↦ elim (Bool-cases (vt.supports_op p.op)) [
          | inl can ↦ (
            some p,
            rw (column_covered, here, index_supports_op, reg, can) refl,
            (
              inl refl,
              same_of_test _ _ here,
              rw (index_supports_op, reg, can) refl,
              inl (refl, same_of_test _ _ here),
            ),
          )
          | inr cannot ↦ (
            none,
            rw (column_covered, here, index_supports_op, reg, cannot) refl,
            inr (p, inl (refl, same_of_test _ _ here), rw (index_supports_op, reg, cannot) refl),
          )
        ]
        | inr other ↦
            let (o, e, covers) = column_covered-Covers column_pos type vt ps reg in
            (o, rw (column_covered, other) e, later other o covers)
      ]
    where
      later :
          (column_pos == p.column_index) ≡ false
          → (o : Option WherePredicate) → Covers ps type column_pos o
          → Covers (p ∷ ps) type column_pos o
      later other none (inl none_on) = inl (other, none_on)
      later other none (inr (q, first, cannot)) = inr (q, inr (other, first), cannot)
      later other (some q) h = (inr h.0, h.1, h.2, inr (other, h.3))

  -- The conditions of an index, as many as its score.
  pub fill_conditions-AreConditions :
      (ps : List IndexPart) (type : IndexType) (vt : IndexVTable D) (where_filter : WhereFilter)
      → index_vtable registry type ≡ some vt
      → (cs : List IndexCondition) × (fill_conditions registry ps type where_filter ≡ some cs)
        × (score_parts registry ps type where_filter ≡ some (length cs))
        × AreConditions where_filter type ps cs
        × IsScore where_filter type ps (length cs)
  unfolding fill_conditions score_parts
  fill_conditions-AreConditions [] type vt where_filter reg = ([], refl, refl, tt, refl)
  fill_conditions-AreConditions (p ∷ ps) type vt where_filter reg =
      let (o, e, covers) = column_covered-Covers p.column_pos type vt where_filter reg in
      go (fill_conditions-AreConditions ps type vt where_filter reg) o e covers
    where
      go :
          (cs : List IndexCondition) × (fill_conditions registry ps type where_filter ≡ some cs)
            × (score_parts registry ps type where_filter ≡ some (length cs))
            × AreConditions where_filter type ps cs
            × IsScore where_filter type ps (length cs)
          → (o : Option WherePredicate)
          → column_covered registry p.column_pos type where_filter ≡ some o
          → Covers where_filter type p.column_pos o
          → (cs : List IndexCondition) × (fill_conditions registry (p ∷ ps) type where_filter
              ≡ some cs)
            × (score_parts registry (p ∷ ps) type where_filter ≡ some (length cs))
            × AreConditions where_filter type (p ∷ ps) cs
            × IsScore where_filter type (p ∷ ps) (length cs)
      go rest none e covers =
          ([], rw (fill_conditions, e) refl, rw (score_parts, e) refl, tt, covers)
      go (cs, filled, scored, are, meaning) (some q) e covers = (
        record { value = q.value; op = q.op; column_position = p.column_pos } ∷ cs,
        rw (fill_conditions, e, filled) refl,
        rw (score_parts, e, scored) refl,
        (
          record {
            predicate = q;
            among = covers.0;
            on_column = covers.1;
            at_column = refl;
            same_value = refl;
            same_op = refl;
            supported = covers.2;
          },
          are,
        ),
        ((q, covers.3, covers.2), meaning),
      )
