-- ===== src/Engine/DmlPlanner/Best.antt =====
-- The index that src/engine/dml/planner.c chooses, and the conditions that it is searched with.
use maxql.Prelude.{
  ℕ, ◌≤◌, ◌<◌, List, [], ◌∷◌, true, not, ◌&&◌, Option, none, some, ◌≡◌, ◌⊎◌, inl, inr, refl, sym,
  ◌∙◌, arith, All, length, ltb, ◌==◌, Bool-cases, ltb→lt, ltb→le, lt→ltb,
}
use maxql.Schema.Table.{IndexDefinition}
use maxql.Index.Registry.{IndexVTable}
use maxql.Engine.DmlTypes.{WhereFilter, IndexDecision}
use maxql.Engine.DmlPlanner.{
  no_decision, score_index, better, choose_loop, choose_best_index, fill_best_index,
  select_best_index,
}
use maxql.Engine.DmlPlanner.Conditions.{
  Among, IsRegistered, usable, Scored, AtMost, AreConditions, fill_conditions-AreConditions,
}

module _ {D : Type 0} (registry : List (IndexVTable D)) where
  -- The best score so far after an index, and the index that has it.
  better-cases :
      (vt : IndexVTable D) (d : IndexDefinition) (score max_score : ℕ)
      (best : Option IndexDefinition)
      → ((better vt d score (max_score, best) ≡ (max_score, best))
          × (usable vt d score ≤ max_score))
        ⊎ ((better vt d score (max_score, best) ≡ (score, some d))
            × (max_score < score)
            × (usable vt d score ≡ score))
  better-cases vt d score max_score best =
      elim (Bool-cases (vt.requires_full_match && not (score == length d.parts))) [
        | inl skip ↦ inl (rw skip refl, rw skip (omega arith))
        | inr keep ↦ elim (Bool-cases (ltb max_score score)) [
          | inl more ↦ inr (rw (keep, more) refl, ltb→lt _ _ more, rw keep refl)
          | inr less ↦ inl (rw (keep, less) refl, rw keep (ltb→le _ _ less))
        ]
      ]

  -- Where the best of the loop comes from: it is the one before, or an index of the list.
  abbrev Chosen :
      WhereFilter
      → List IndexDefinition
      → ℕ
      → Option IndexDefinition
      → ℕ
      → Option IndexDefinition
      → Type 0
  Chosen where_filter ds m b m' b' =
      ((b' ≡ b) × (m' ≡ m))
      ⊎ ((d : IndexDefinition) × (b' ≡ some d)
          × Among d ds
          × Scored registry where_filter d m'
          × (m < m'))

  Chosen-cons :
      {where_filter : WhereFilter} (ds : List IndexDefinition) (d : IndexDefinition) {m m' : ℕ}
      {b b' : Option IndexDefinition}
      → Chosen where_filter ds m b m' b'
      → Chosen where_filter (d ∷ ds) m b m' b'
  Chosen-cons ds d (inl kept) = inl kept
  Chosen-cons ds d (inr (e, is, among, scored, more)) = inr (e, is, inr among, scored, more)

  Chosen-here :
      {where_filter : WhereFilter} (ds : List IndexDefinition) {d : IndexDefinition} {m n m' : ℕ}
      {b b' : Option IndexDefinition}
      → m < n
      → Scored registry where_filter d n
      → Chosen where_filter ds n (some d) m' b'
      → Chosen where_filter (d ∷ ds) m b m' b'
  Chosen-here ds {d = d} above scored (inl (is, same)) =
      inr (d, is, inl refl, rw same scored, rw same above)
  Chosen-here ds above scored (inr (e, is, among, best, more)) =
      inr (e, is, inr among, best, omega arith)

  choose_loop-Chosen :
      (where_filter : WhereFilter) (ds : List IndexDefinition) (m : ℕ) (b : Option IndexDefinition)
      → All (IsRegistered registry) ds
      → (m' : ℕ) × (b' : Option IndexDefinition) × (choose_loop registry where_filter ds (m, b)
          ≡ some (m', b'))
        × (m ≤ m')
        × All (AtMost registry where_filter m') ds
        × Chosen where_filter ds m b m' b'
  unfolding choose_loop score_index
  choose_loop-Chosen where_filter [] m b regs = (m, b, refl, omega arith, tt, inl (refl, refl))
  choose_loop-Chosen where_filter (d ∷ ds) m b regs =
      let (vt, reg) = regs.0 in
      let (cs, filled, counted, are, meaning) =
        fill_conditions-AreConditions registry d.parts d.type vt where_filter reg in
      let scored : Scored registry where_filter d (usable vt d (length cs)) = record {
        vtable = vt;
        registered = reg;
        score = length cs;
        counted = rw (score_index, counted) refl;
        meaning = meaning;
        worth = refl;
      } in
      elim (better-cases vt d (length cs) m b) [
        | inl (same, low) ↦
            let (m', b', e, up, all, chosen) = choose_loop-Chosen where_filter ds m b regs.1 in
            (
              m',
              b',
              rw (choose_loop, score_index, counted, reg, same) e,
              up,
              ((usable vt d (length cs), scored, omega arith), all),
              Chosen-cons ds d chosen,
            )
        | inr (new, above, worth) ↦
            let (m', b', e, up, all, chosen) =
              choose_loop-Chosen where_filter ds (length cs) (some d) regs.1 in
            (
              m',
              b',
              rw (choose_loop, score_index, counted, reg, new) e,
              omega arith,
              ((usable vt d (length cs), scored, omega arith), all),
              Chosen-here ds above (rw worth at scored) chosen,
            )
      ]

  -- What is chosen: no index, where none has a usable score; or an index that has the best usable
  -- score, with a condition of the statement for each of its parts up to that score.
  abbrev pub IsBest : WhereFilter → List IndexDefinition → IndexDecision → Type 0
  IsBest where_filter index_meta decision =
      ((decision ≡ no_decision) × All (AtMost registry where_filter 0) index_meta)
      ⊎ ((d : IndexDefinition) × Among d index_meta
          × (decision.index_def ≡ some d)
          × (decision.use_index ≡ true)
          × (0 < length decision.conditions)
          × AreConditions registry where_filter d.type d.parts decision.conditions
          × Scored registry where_filter d (length decision.conditions)
          × All (AtMost registry where_filter (length decision.conditions)) index_meta)

  usable_pos :
      (vt : IndexVTable D) (d : IndexDefinition) (score m : ℕ)
      → usable vt d score ≡ m
      → 0 < m
      → m ≡ score
  usable_pos vt d score m h pos =
      elim (Bool-cases (vt.requires_full_match && not (score == length d.parts))) [
        | inl skip ↦ let none_left : 0 ≡ m = rw skip at h in absurd (omega arith)
        | inr keep ↦ sym (rw keep at h)
      ]

  fill_best_index-IsBest :
      (where_filter : WhereFilter) (index_meta : List IndexDefinition) (d : IndexDefinition) (m : ℕ)
      → Among d index_meta
      → Scored registry where_filter d m
      → 0 < m
      → All (AtMost registry where_filter m) index_meta
      → (decision : IndexDecision) × (fill_best_index registry (some d) where_filter
          ≡ some decision)
        × IsBest where_filter index_meta decision
  unfolding fill_best_index score_index
  fill_best_index-IsBest where_filter index_meta d m among scored pos all =
      let (cs, filled, counted, are, meaning) =
        fill_conditions-AreConditions registry d.parts d.type scored.vtable where_filter
          scored.registered in
      let both : some scored.score ≡ some (length cs) = sym scored.counted ∙ counted in
      let same : scored.score ≡ length cs = cc in
      let count : m ≡ length cs =
        usable_pos scored.vtable d scored.score m scored.worth pos ∙ same in
      let some_cs : 0 < length cs = omega arith in
      (
        record { index_def = some d; conditions = cs; use_index = ltb 0 (length cs) },
        rw (fill_best_index, filled) refl,
        inr (
          d,
          among,
          refl,
          lt→ltb _ _ some_cs,
          some_cs,
          are,
          rw (count) at scored,
          rw (count) at all,
        ),
      )

  -- Where all indexes are of registered types, the planner decides: for no index, if none has a
  -- usable score; or for one of the table's indexes that has the best usable score, which is the number
  -- of its first parts whose columns are covered, all of them where its type asks for that. A column is
  -- covered where the first condition of the statement on it has an operator that the type supports. Each
  -- covered part goes with a condition on its column, whose operator the type supports.
  pub select_best_index-IsBest :
      (where_filter : WhereFilter) (index_meta : List IndexDefinition)
      → All (IsRegistered registry) index_meta
      → (decision : IndexDecision) × (select_best_index registry where_filter index_meta
          ≡ some decision)
        × IsBest where_filter index_meta decision
  unfolding select_best_index choose_best_index
  select_best_index-IsBest where_filter index_meta regs =
      let (m, b, e, up, all, chosen) = choose_loop-Chosen where_filter index_meta 0 none regs in
      go m b e all chosen
    where
      go :
          (m : ℕ) (b : Option IndexDefinition)
          → choose_loop registry where_filter index_meta (0, none) ≡ some (m, b)
          → All (AtMost registry where_filter m) index_meta
          → Chosen where_filter index_meta 0 none m b
          → (decision : IndexDecision) × (select_best_index registry where_filter index_meta
              ≡ some decision)
            × IsBest where_filter index_meta decision
      go m b e all (inl (is, low)) = (
        no_decision,
        rw (select_best_index, choose_best_index, e, is) refl,
        inl (refl, rw low at all),
      )
      go m b e all (inr (d, is, among, scored, pos)) =
          let (decision, filled, best) =
            fill_best_index-IsBest where_filter index_meta d m among scored pos all in
          (decision, rw (select_best_index, choose_best_index, e, is) filled, best)
