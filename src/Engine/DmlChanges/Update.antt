-- ===== src/Engine/DmlChanges/Update.antt =====
-- What `execute_update` of src/engine/dml/executor.c makes of a table.
use maxql.Prelude.{
  ℕ, ◌≤◌, ◌<◌, List, [], ◌∷◌, ◌++◌, Bool, true, false, Option, none, some, ◌≡◌, inl, inr, refl, sym,
  ap, ◌∙◌, arith, Bool-cases, All, All-imp, All-imp₂, map, length, append_assoc, append-nil, ◌==◌,
}
use mathlib.Core.Path.{subst}
use maxql.Core.Error.{error_ok}
use maxql.Types.Value.{DataValue}
use maxql.Schema.Table.{TableSchema}
use maxql.Storage.{StoredRow, storage_delete_row}
use maxql.Storage.Rows.{FitsRow, stored_row}
use maxql.Storage.Slots.{live_rows}
use maxql.Scan.{scan_table}
use maxql.Scan.Writes.{IsData, scan_data, storage_insert_row-scan_table}
use maxql.Scan.Deletes.{HasOffset, remove_offset, storage_delete_row-scan_table}
use maxql.Index.Registry.{IndexVTable}
use maxql.Engine.DmlTypes.{IndexDecision, WhereFilter}
use maxql.Engine.DmlExecutor.{row_source}
use maxql.Engine.DmlExecutor.Select.{IsTested}
use maxql.Engine.DmlChanges.{
  Change, UpdatePair, push_pair, fill_update_row, update_pairs, update_row, update_rows,
  has_conflict, batch_check_unique_keys, update_checked, execute_update, matching_of,
}
use maxql.Engine.DmlChanges.Offsets.{
  Grows, live_rows-Grows, remove_offsets, matched, matching_rows-matched, matched-HasOffset,
  matched-Grows, HasOffset-remove,
}
use maxql.Engine.DmlChanges.Delete.{plain_table, row_source-scan}

-- The rows of a data file have offsets that grow.
scan_table-Grows :
    (schema : TableSchema) {file : List ℕ} (rows : List StoredRow)
    → IsData file
    → scan_table file schema ≡ some rows
    → Grows rows
scan_table-Grows schema rows d seen =
    let both : some (live_rows schema 0 d.slots) ≡ some rows = sym (scan_data schema d) ∙ seen in
    let same : live_rows schema 0 d.slots ≡ rows = cc in
    subst Grows same (live_rows-Grows schema d.slots 0)

abbrev Below : ℕ → List StoredRow → Type 0
Below n rows = All (λ (r : StoredRow). r.offset < n) rows

-- The last row has the highest offset.
Grows-last :
    (rows : List StoredRow) (new : StoredRow) → Grows (rows ++ new ∷ []) → Below new.offset rows
Grows-last [] new h = tt
Grows-last (r ∷ rs) new h = (last_above rs h.0, Grows-last rs new h.1)
  where
    last_above :
        (ss : List StoredRow)
        → All (λ (s : StoredRow). r.offset < s.offset) (ss ++ new ∷ [])
        → r.offset < new.offset
    last_above [] k = k.0
    last_above (s ∷ ss) k = last_above ss k.1

HasOffset-lt : (rows : List StoredRow) (o n : ℕ) → HasOffset o rows → Below n rows → o < n
HasOffset-lt [] o n h k = absurd h
HasOffset-lt (r ∷ rs) o n (inl here) k = omega (arith, here, k.0)
HasOffset-lt (r ∷ rs) o n (inr later) k = HasOffset-lt rs o n later k.1

HasOffset-append :
    (rows : List StoredRow) (new : StoredRow) (o : ℕ)
    → HasOffset o rows
    → HasOffset o (rows ++ new ∷ [])
HasOffset-append [] new o h = absurd h
HasOffset-append (r ∷ rs) new o (inl here) = inl here
HasOffset-append (r ∷ rs) new o (inr later) = inr (HasOffset-append rs new o later)

remove_offset-append :
    (rows : List StoredRow) (new : StoredRow) (o : ℕ)
    → o < new.offset
    → remove_offset o (rows ++ new ∷ []) ≡ remove_offset o rows ++ new ∷ []
remove_offset-append [] new o h =
    let other : (new.offset == o) ≡ false = ground (arith, h) in rw (other) refl
remove_offset-append (r ∷ rs) new o h = elim (Bool-cases (r.offset == o)) [
  | inl same ↦ rw (same) (remove_offset-append rs new o h)
  | inr other ↦ rw (other) (ap (λ t. r ∷ t) (remove_offset-append rs new o h))
]

remove_offsets-append :
    (os : List ℕ) (rows : List StoredRow) (new : StoredRow)
    → All (λ o. o < new.offset) os
    → remove_offsets os (rows ++ new ∷ []) ≡ remove_offsets os rows ++ new ∷ []
remove_offsets-append [] rows new h = refl
remove_offsets-append (o ∷ os) rows new h =
    ap (remove_offsets os) (remove_offset-append rows new o h.0)
    ∙ remove_offsets-append os (remove_offset o rows) new h.1

abbrev pub pair_offsets : List UpdatePair → List ℕ
pair_offsets ps = map (λ (p : UpdatePair). p.original.offset) ps

-- The pairs have the offsets of rows of the table, which grow.
abbrev pub PairsGrow : List UpdatePair → Type 0
PairsGrow [] = Unit
PairsGrow (p ∷ ps) =
    All (λ (q : UpdatePair). p.original.offset < q.original.offset) ps × PairsGrow ps

abbrev pub AreOf : List StoredRow → List UpdatePair → Type 0
AreOf rows ps = All (λ (p : UpdatePair). HasOffset p.original.offset rows) ps

-- New rows, as the columns store the values of the pairs.
abbrev pub AreNew : TableSchema → List UpdatePair → List StoredRow → Type 0
AreNew schema [] [] = Unit
AreNew schema [] (r ∷ rs) = ⊥
AreNew schema (p ∷ ps) [] = ⊥
AreNew schema (p ∷ ps) (r ∷ rs) =
    (r.row ≡ stored_row schema.columns p.updated) × AreNew schema ps rs

module _ (D : Type 0) (schema : TableSchema) (few : length schema.columns ≤ 16) where
  -- One pair: its row goes, and the new one is last, with the highest offset.
  update_row-plain :
      (file : List ℕ) (rows : List StoredRow) (p : UpdatePair)
      → IsData file
      → scan_table file schema ≡ some rows
      → HasOffset p.original.offset rows
      → FitsRow schema.columns p.updated
      → (file' : List ℕ) × (new : StoredRow) × (update_row schema (plain_table D file) p
          ≡ some (plain_table D file'))
        × IsData file'
        × (scan_table file' schema ≡ some (remove_offset p.original.offset rows ++ new ∷ []))
        × (new.row ≡ stored_row schema.columns p.updated)
        × Below new.offset (remove_offset p.original.offset rows)
  unfolding update_row
  update_row-plain file rows p d seen has fits =
      let o = p.original.offset in
      let (d', left) = storage_delete_row-scan_table file schema rows o d seen has in
      let (file', offset, rows', written, whole, seen', after) =
        storage_insert_row-scan_table (storage_delete_row file o) schema p.updated d' few fits in
      let both : some rows' ≡ some (remove_offset o rows) = sym seen' ∙ left in
      let same : rows' ≡ remove_offset o rows = cc in
      let new : StoredRow = record { row = stored_row schema.columns p.updated; offset = offset } in
      let all : scan_table file' schema ≡ some (remove_offset o rows ++ new ∷ []) =
        rw same at after in
      (
        file',
        new,
        rw (update_row, written) refl,
        whole,
        all,
        refl,
        Grows-last (remove_offset o rows) new
            (scan_table-Grows schema (remove_offset o rows ++ new ∷ []) whole all),
      )

  update_rows-plain :
      (ps : List UpdatePair) (file : List ℕ) (rows : List StoredRow)
      → IsData file
      → scan_table file schema ≡ some rows
      → PairsGrow ps
      → AreOf rows ps
      → All (λ (p : UpdatePair). FitsRow schema.columns p.updated) ps
      → (file' : List ℕ) × (news : List StoredRow) × (update_rows schema (plain_table D file) ps
          ≡ some (plain_table D file'))
        × IsData file'
        × (scan_table file' schema ≡ some (remove_offsets (pair_offsets ps) rows ++ news))
        × AreNew schema ps news
  unfolding update_rows
  update_rows-plain [] file rows d seen grows of fits =
      (file, [], refl, d, seen ∙ ap some (sym (append-nil rows)), tt)
  update_rows-plain (p ∷ ps) file rows d seen grows of fits =
      let o = p.original.offset in
      let (file1, new, made, d1, seen1, stored, below) =
        update_row-plain file rows p d seen of.0 fits.0 in
      let of' : AreOf (remove_offset o rows) ps =
        All-imp₂ (λ (q : UpdatePair) above h. HasOffset-remove rows q.original.offset o above h) ps
          grows.0 of.1 in
      let of1 : AreOf (remove_offset o rows ++ new ∷ []) ps =
        All-imp
          (λ (q : UpdatePair) h. HasOffset-append (remove_offset o rows) new q.original.offset h) ps
          of' in
      let (file', news, rest, d', seen', are) =
        update_rows-plain ps file1 (remove_offset o rows ++ new ∷ []) d1 seen1 grows.1 of1 fits.1 in
      (
        file',
        new ∷ news,
        rw (update_rows, made) rest,
        d',
        seen'
            ∙ ap (λ t. some (t ++ news))
                (remove_offsets-append (pair_offsets ps) (remove_offset o rows) new
                  (lower (remove_offset o rows) new.offset below ps of'))
            ∙ ap some (
                append_assoc (remove_offsets (pair_offsets ps) (remove_offset o rows)) (new ∷ [])
                  news),
        (stored, are),
      )
    where
      lower :
          (rs : List StoredRow) (n : ℕ)
          → Below n rs
          → (qs : List UpdatePair) → AreOf rs qs
          → All (λ o. o < n) (pair_offsets qs)
      lower rs n below [] h = tt
      lower rs n below (q ∷ qs) h =
          (HasOffset-lt rs q.original.offset n h.0 below, lower rs n below qs h.1)

abbrev PairsIf : (UpdatePair → Type 0) → Option (List UpdatePair) → Type 0
PairsIf P none = Unit
PairsIf P (some ps) = All P ps

push_pair-PairsIf :
    (P : UpdatePair → Type 0) (r : StoredRow) (o : Option (Bool × List DataValue))
    (rest : Option (List UpdatePair))
    → ((row : List DataValue) → P (record { original = r; updated = row }))
    → PairsIf P rest
    → PairsIf P (push_pair r o rest)
push_pair-PairsIf P r none rest h k = tt
push_pair-PairsIf P r (some (false, row)) rest h k = k
push_pair-PairsIf P r (some (true, row)) none h k = tt
push_pair-PairsIf P r (some (true, row)) (some ps) h k = (h row, k)

update_pairs-PairsIf :
    (P : StoredRow → Type 0) (changes : List Change) (rows : List StoredRow)
    → All P rows
    → PairsIf (λ p. P p.original) (update_pairs changes rows)
unfolding update_pairs
update_pairs-PairsIf P changes [] h = tt
update_pairs-PairsIf P changes (r ∷ rs) h =
    push_pair-PairsIf (λ p. P p.original) r (fill_update_row changes r.row)
      (update_pairs changes rs) (λ row. h.0) (update_pairs-PairsIf P changes rs h.1)

abbrev GrowIf : Option (List UpdatePair) → Type 0
GrowIf none = Unit
GrowIf (some ps) = PairsGrow ps

push_pair-GrowIf :
    (r : StoredRow) (o : Option (Bool × List DataValue)) (rest : Option (List UpdatePair))
    → PairsIf (λ q. r.offset < q.original.offset) rest
    → GrowIf rest
    → GrowIf (push_pair r o rest)
push_pair-GrowIf r none rest h k = tt
push_pair-GrowIf r (some (false, row)) rest h k = k
push_pair-GrowIf r (some (true, row)) none h k = tt
push_pair-GrowIf r (some (true, row)) (some ps) h k = (h, k)

update_pairs-GrowIf :
    (changes : List Change) (rows : List StoredRow)
    → Grows rows
    → GrowIf (update_pairs changes rows)
unfolding update_pairs
update_pairs-GrowIf changes [] h = tt
update_pairs-GrowIf changes (r ∷ rs) h =
    push_pair-GrowIf r (fill_update_row changes r.row) (update_pairs changes rs)
      (update_pairs-PairsIf (λ s. r.offset < s.offset) changes rs h.0)
      (update_pairs-GrowIf changes rs h.1)

module _ {D : Type 0} (registry : List (IndexVTable D)) (schema : TableSchema)
    (few : length schema.columns ≤ 16) where
  has_conflict-plain : (ps : List UpdatePair) → has_conflict registry [] ps ≡ some false
  unfolding has_conflict
  has_conflict-plain [] = refl
  has_conflict-plain (p ∷ ps) = has_conflict-plain ps

  -- An update by a scan of a table of at most 16 columns and without indexes succeeds, where its
  -- conditions can be tested on each row, the rows that match are filled to pairs of a row and its new
  -- values, and these fit the columns. In the file, the rows of the pairs are gone, the others stay in
  -- their order, and behind them are the new rows as the columns store them, in the order of the pairs.
  pub execute_update-scan_table :
      (file : List ℕ) (rows : List StoredRow) (decision : IndexDecision)
      (where_filter : WhereFilter) (changes : List Change) (pairs : List UpdatePair)
      → IsData file
      → scan_table file schema ≡ some rows
      → decision.use_index ≡ false
      → All (IsTested where_filter) rows
      → update_pairs changes (matched where_filter rows) ≡ some pairs
      → All (λ (p : UpdatePair). FitsRow schema.columns p.updated) pairs
      → (file' : List ℕ) × (news : List StoredRow) × (execute_update registry schema
            (plain_table D file)
            decision
            where_filter
            changes
          ≡ some (error_ok, plain_table D file'))
        × IsData file'
        × (scan_table file' schema ≡ some (remove_offsets (pair_offsets pairs) rows ++ news))
        × AreNew schema pairs news
  unfolding execute_update update_checked batch_check_unique_keys
  execute_update-scan_table file rows decision ps changes pairs d seen by_scan tested made fits =
      let ms = matched ps rows in
      let source : matching_of ps (row_source decision schema (plain_table D file)) ≡ some ms =
        ap (matching_of ps) (row_source-scan decision schema (plain_table D file) by_scan ∙ seen)
        ∙ matching_rows-matched ps rows tested in
      let of : AreOf rows pairs = subst (PairsIf (λ p. HasOffset p.original.offset rows)) made (
        update_pairs-PairsIf (λ m. HasOffset m.offset rows) changes ms
          (matched-HasOffset ps rows)) in
      let grows : PairsGrow pairs = subst GrowIf made (
        update_pairs-GrowIf changes ms
          (matched-Grows ps rows (scan_table-Grows schema rows d seen))) in
      let (file', news, done', d', seen', are) =
        update_rows-plain D schema few pairs file rows d seen grows of fits in
      (
        file',
        news,
        rw (execute_update, source, made, update_checked, has_conflict-plain pairs, done') refl,
        d',
        seen',
        are,
      )
