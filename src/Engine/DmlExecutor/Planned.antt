-- ===== src/Engine/DmlExecutor/Planned.antt =====
-- The planner of src/engine/dml/planner.c and the selection of src/engine/dml/executor.c together.
use maxql.Prelude.{
  ℕ, ◌+◌, ◌-◌, ◌≤◌, ◌<◌, List, [], ◌∷◌, ◌++◌, Bool, true, false, not, ◌&&◌, some, ◌≡◌, inl, inr,
  refl, sym, ap, ◌∙◌, arith, All, map, length, length-append, length-replicate, min, replicate,
  le→ltb, Bool-cases, ◌==◌, if◌then◌else◌,
}
use mathlib.Core.Path.{subst}
use maxql.Btree.Order.{Key, KeyComparator}
use maxql.Core.StrView.{take_bytes}
use maxql.Types.Value.{DataValue, value_null, value_int, value_string, value_binary, value_float}
use maxql.Types.Mapper.RoundTrip.{length-take_bytes}
use maxql.Schema.Table.{TableSchema, IndexType, IndexPart, IndexDefinition}
use maxql.Storage.{StoredRow, append_bytes}
use maxql.Index.Registry.{IndexVTable, index_vtable}
use maxql.Index.Keys.{Index, data_value_raw_ptr, part_bytes, parts_bytes, prepare_index_key}
use maxql.Index.Keys.Equal.{IsBitwise}
use maxql.Engine.DmlTypes.{WhereFilter, IndexCondition, IndexDecision, SelectExecPlan}
use maxql.Engine.DmlPlanner.{no_decision, with_decision, planned, select_best_index, plan_select}
use maxql.Engine.DmlPlanner.Conditions.{AreConditions, IsRegistered, Scored, usable}
use maxql.Engine.DmlPlanner.Best.{IsBest, select_best_index-IsBest}
use maxql.Engine.DmlExecutor.{Table, index_named, execute_select}
use maxql.Engine.DmlExecutor.Insert.{IsTable}
use maxql.Engine.DmlExecutor.Keys.{IsBitwise-Among}
use maxql.Engine.DmlExecutor.Select.{IsTested}
use maxql.Engine.DmlExecutor.IndexSelect.{All-Among, index_named-Mirrors, execute_select-scan}

-- The bytes of all parts of a key.
abbrev pub total_len : List IndexPart → ℕ
total_len [] = 0
total_len (p ∷ ps) = p.part_len + total_len ps

part_filled :
    (n size : ℕ) (raw : List ℕ)
    → length (take_bytes (min size n) raw ++ replicate (n - min size n) 0) ≡ n
part_filled n size raw = omega (
  arith,
  length-append (take_bytes (min size n) raw) (replicate (n - min size n) 0),
  length-take_bytes (min size n) raw,
  length-replicate {A = ℕ} (n - min size n) 0,
)

part_bytes-length :
    (p : IndexPart) (v : DataValue)
    → IsBitwise v
    → (bs : List ℕ) × (part_bytes p v ≡ some bs) × (length bs ≡ p.part_len)
unfolding part_bytes data_value_raw_ptr
part_bytes-length p (value_int w) h = (_, refl, part_filled p.part_len p.part_len _)
part_bytes-length p (value_string s) h = (_, refl, part_filled p.part_len _ s)
part_bytes-length p (value_binary b) h = (_, refl, part_filled p.part_len _ b)
part_bytes-length p (value_float w) h = absurd h
part_bytes-length p value_null h = absurd h

module _ {D : Type 0} (registry : List (IndexVTable D)) where
  parts_bytes-length :
      (where_filter : WhereFilter) (type : IndexType) (ps : List IndexPart)
      (cs : List IndexCondition)
      → AreConditions registry where_filter type ps cs
      → All (λ q. IsBitwise q.value) where_filter
      → (bs : List ℕ) × (parts_bytes ps (map (λ (c : IndexCondition). c.value) cs) ≡ some bs)
        × (length bs ≤ total_len ps)
  unfolding parts_bytes
  parts_bytes-length where_filter type ps [] are bits = ([], refl, omega arith)
  parts_bytes-length where_filter type [] (c ∷ cs) are bits = absurd are
  parts_bytes-length where_filter type (p ∷ ps) (c ∷ cs) are bits =
      let (ds, rest, short) = parts_bytes-length where_filter type ps cs are.1 bits in
      let bit = IsBitwise-Among where_filter are.0.predicate bits are.0.among in
      let (bs, made, long) =
        part_bytes-length p c.value (subst IsBitwise (sym are.0.same_value) bit) in
      (
        bs ++ ds,
        ap (λ t. append_bytes t (parts_bytes ps (map (λ (c : IndexCondition). c.value) cs))) made
            ∙ ap (λ t. append_bytes (some bs) t) rest,
        omega (arith, length-append bs ds),
      )

  prepare_index_key-conditions :
      (where_filter : WhereFilter) (d : IndexDefinition) (cs : List IndexCondition)
      → AreConditions registry where_filter d.type d.parts cs
      → All (λ q. IsBitwise q.value) where_filter
      → total_len d.parts ≤ d.key_size
      → (q : Key) × (prepare_index_key d (map (λ (c : IndexCondition). c.value) cs) ≡ some q)
  unfolding prepare_index_key
  prepare_index_key-conditions where_filter d cs are bits sized =
      let (bs, made, short) = parts_bytes-length where_filter d.type d.parts cs are bits in
      (
        bs ++ replicate (d.key_size - length bs) 0,
        rw (prepare_index_key, made, le→ltb d.key_size (length bs) (omega arith)) refl,
      )

-- An index of the table that the definition names, with room for its parts in the key, and that has to be
-- matched in full.
pub record Opens {D : Type 0} (t : Table D) (d : IndexDefinition) : Type 0 where
  pub index : Index D
  pub named : index_named t.indexes index.index_def.name ≡ some index
  pub same : index.index_def ≡ d
  pub sized : total_len index.index_def.parts ≤ index.index_def.key_size
  pub full : index.vtable.requires_full_match ≡ true

full_score :
    {D : Type 0} (vt : IndexVTable D) (d : IndexDefinition) (score n : ℕ)
    → vt.requires_full_match ≡ true
    → usable vt d score ≡ n
    → 0 < n
    → n ≡ length d.parts
full_score vt d score n full h pos = go (vt.requires_full_match) full h
  where
    go :
        (b : Bool)
        → b ≡ true
        → (if b && not (score == length d.parts) then 0 else score) ≡ n
        → n ≡ length d.parts
    go true e k = ground arith
    go false e k = cc

module _ {D : Type 0} (registry : List (IndexVTable D)) (comparator : D → KeyComparator)
    (IsValid : D → Type 0) (schema : TableSchema) where
  -- The planner changes what a select does, but not what it shows: where the table has a row, each index of the table is of
  -- a registered type that asks for a full match, is found by its name and has room for its parts in
  -- its keys, no condition has a float or a null, and each can be tested on each row.
  pub plan_select-execute_select :
      (t : Table D) (rows : List StoredRow) (plan : SelectExecPlan)
      (index_meta : List IndexDefinition)
      → IsTable registry comparator IsValid schema t rows
      → All (IsRegistered registry) index_meta
      → All (Opens t) index_meta
      → All (λ p. IsBitwise p.value) plan.where_filter
      → All (IsTested plan.where_filter) rows
      → plan.index_decision ≡ no_decision
      → 1 ≤ length rows
      → (plan' : SelectExecPlan) × (plan_select registry plan index_meta ≡ some plan')
        × (execute_select schema t plan' ≡ execute_select schema t (with_decision plan no_decision))
  unfolding plan_select
  plan_select-execute_select t rows plan index_meta is_table regs opens bits tested fresh some_row =
      elim (Bool-cases plan.ignore_index) [
        | inl ignore ↦ (
          plan,
          ap
              (λ b.
                if b
                then some plan
                else planned plan (select_best_index registry plan.where_filter index_meta))
              ignore,
          ap (λ x. execute_select schema t (with_decision plan x)) fresh,
        )
        | inr heed ↦
            let (decision, chosen, best) =
              select_best_index-IsBest registry plan.where_filter index_meta regs in
            (
              with_decision plan decision,
              ap
                    (λ b.
                      if b
                      then some plan
                      else planned plan (select_best_index registry plan.where_filter index_meta))
                    heed
                  ∙ ap (planned plan) chosen,
              go decision best,
            )
      ]
    where
      through_index :
          (decision : IndexDecision) (d : IndexDefinition)
          → Opens t d
          → decision.index_def ≡ some d
          → decision.use_index ≡ true
          → 0 < length decision.conditions
          → AreConditions registry plan.where_filter d.type d.parts decision.conditions
          → Scored registry plan.where_filter d (length decision.conditions)
          → execute_select schema t (with_decision plan decision)
            ≡ execute_select schema t (with_decision plan no_decision)
      through_index decision d o def used pos are scored =
          let m =
            index_named-Mirrors registry comparator IsValid schema t.indexes rows
              o.index.index_def.name o.index is_table.mirrored o.named in
          let both : some o.index.vtable ≡ some scored.vtable =
            sym m.registered ∙ ap (λ x. index_vtable registry x.type) o.same ∙ scored.registered in
          let one : o.index.vtable ≡ scored.vtable = cc in
          let asks = sym (ap (λ v. v.requires_full_match) one) ∙ o.full in
          let are' =
            subst (λ x. AreConditions registry plan.where_filter x.type x.parts decision.conditions)
              (sym o.same) are in
          let (q, made) =
            prepare_index_key-conditions registry plan.where_filter o.index.index_def
              decision.conditions are' bits o.sized in
          execute_select-scan registry comparator IsValid schema t rows
            (with_decision plan decision) o.index q is_table used (def ∙ ap some (sym o.same))
            o.named are'
            (full_score scored.vtable d scored.score (length decision.conditions) asks scored.worth
                pos
              ∙ ap (λ x. length x.parts) (sym o.same))
            made bits tested some_row

      go :
          (decision : IndexDecision)
          → IsBest registry plan.where_filter index_meta decision
          → execute_select schema t (with_decision plan decision)
            ≡ execute_select schema t (with_decision plan no_decision)
      go decision (inl (none_chosen, low)) =
          ap (λ x. execute_select schema t (with_decision plan x)) none_chosen
      go decision (inr (d, among, def, used, pos, are, scored, most)) =
          through_index decision d (All-Among (Opens t) d index_meta opens among) def used pos are
            scored
