-- ===== src/Engine/DmlChanges/Offsets.antt =====
-- The rows of a table that match conditions, and the deletions at their offsets.
use maxql.Prelude.{
  ℕ, ◌+◌, ◌<◌, List, [], ◌∷◌, Bool, true, false, Option, none, some, ◌≡◌, inl, inr, refl, sym, ap,
  ◌∙◌, arith, Bool-cases, All, All-imp, All-imp₂, length, ◌==◌, if◌then◌else◌,
}
use maxql.Schema.Table.{TableSchema}
use maxql.Storage.{StoredRow, header_size, storage_delete_row, storage_delete_rows}
use maxql.Storage.Slots.{Slot, kept, removed, live_rows}
use maxql.Scan.{scan_table}
use maxql.Scan.Writes.{IsData}
use maxql.Scan.Deletes.{HasOffset, remove_offset, storage_delete_row-scan_table}
use maxql.Engine.DmlTypes.{WhereFilter}
use maxql.Engine.DmlExecutor.{matches_where, keep_row, matching_rows}
use maxql.Engine.DmlExecutor.Select.{IsTested}
use maxql.Engine.DmlChanges.{offsets_of}

abbrev pub is_true : Option Bool → Bool
is_true none = false
is_true (some b) = b

-- The rows that match the conditions, and the others.
abbrev pub matched : WhereFilter → List StoredRow → List StoredRow
matched ps [] = []
matched ps (r ∷ rs) =
    let rest = matched ps rs in if is_true (matches_where r.row ps) then r ∷ rest else rest

abbrev pub remaining : WhereFilter → List StoredRow → List StoredRow
remaining ps [] = []
remaining ps (r ∷ rs) =
    let rest = remaining ps rs in if is_true (matches_where r.row ps) then rest else r ∷ rest

pub matching_rows-matched :
    (ps : WhereFilter) (rows : List StoredRow)
    → All (IsTested ps) rows
    → matching_rows ps rows ≡ some (matched ps rows)
unfolding matching_rows
matching_rows-matched ps [] h = refl
matching_rows-matched ps (r ∷ rs) h =
    ap (keep_row (matches_where r.row ps) r) (matching_rows-matched ps rs h.1) ∙ go h.0.0 h.0.1
  where
    pick : Option Bool → List StoredRow
    pick o = if is_true o then r ∷ matched ps rs else matched ps rs

    go :
        (b : Bool)
        → matches_where r.row ps ≡ some b
        → keep_row (matches_where r.row ps) r (some (matched ps rs))
          ≡ some (pick (matches_where r.row ps))
    go true e = ap (λ o. keep_row o r (some (matched ps rs))) e ∙ ap (λ o. some (pick o)) (sym e)
    go false e = ap (λ o. keep_row o r (some (matched ps rs))) e ∙ ap (λ o. some (pick o)) (sym e)

-- The offsets of the rows grow.
abbrev Above : ℕ → List StoredRow → Type 0
Above n rows = All (λ (r : StoredRow). n < r.offset) rows

abbrev pub Grows : List StoredRow → Type 0
Grows [] = Unit
Grows (r ∷ rs) = Above r.offset rs × Grows rs

live_rows-Above :
    (schema : TableSchema) (slots : List Slot) (pos n : ℕ)
    → n < pos
    → Above n (live_rows schema pos slots)
unfolding live_rows
live_rows-Above schema [] pos n h = tt
live_rows-Above schema (removed bs ∷ ss) pos n h =
    live_rows-Above schema ss (pos + (header_size + length bs)) n (omega (arith, h))
live_rows-Above schema (kept bs ∷ ss) pos n h =
    (h, live_rows-Above schema ss (pos + (header_size + length bs)) n (omega (arith, h)))

pub live_rows-Grows :
    (schema : TableSchema) (slots : List Slot) (pos : ℕ) → Grows (live_rows schema pos slots)
unfolding live_rows
live_rows-Grows schema [] pos = tt
live_rows-Grows schema (removed bs ∷ ss) pos =
    live_rows-Grows schema ss (pos + (header_size + length bs))
live_rows-Grows schema (kept bs ∷ ss) pos = (
  live_rows-Above schema ss (pos + (header_size + length bs)) pos (omega arith),
  live_rows-Grows schema ss (pos + (header_size + length bs)),
)

abbrev pub remove_offsets : List ℕ → List StoredRow → List StoredRow
remove_offsets [] rows = rows
remove_offsets (o ∷ os) rows = remove_offsets os (remove_offset o rows)

pub HasOffset-remove :
    (rows : List StoredRow) (o o' : ℕ)
    → o' < o
    → HasOffset o rows
    → HasOffset o (remove_offset o' rows)
HasOffset-remove [] o o' h has = has
HasOffset-remove (r ∷ rs) o o' h (inl here) =
    let other : (r.offset == o') ≡ false = ground (arith, h, here) in rw (other) (inl here)
HasOffset-remove (r ∷ rs) o o' h (inr later) = elim (Bool-cases (r.offset == o')) [
  | inl same ↦ rw (same) (HasOffset-remove rs o o' h later)
  | inr other ↦ rw (other) (inr (HasOffset-remove rs o o' h later))
]

remove_offset-Above : (rows : List StoredRow) (o : ℕ) → Above o rows → remove_offset o rows ≡ rows
remove_offset-Above [] o h = refl
remove_offset-Above (r ∷ rs) o h =
    let other : (r.offset == o) ≡ false = ground (arith, h.0) in
    rw (other) (ap (λ t. r ∷ t) (remove_offset-Above rs o h.1))

remove_offset-here :
    (r : StoredRow) (rows : List StoredRow)
    → Above r.offset rows
    → remove_offset r.offset (r ∷ rows) ≡ rows
remove_offset-here r rows h =
    let same : (r.offset == r.offset) ≡ true = ground arith in
    rw (same) (remove_offset-Above rows r.offset h)

remove_offsets-cons :
    (os : List ℕ) (r : StoredRow) (rows : List StoredRow)
    → All (λ o. r.offset < o) os
    → remove_offsets os (r ∷ rows) ≡ r ∷ remove_offsets os rows
remove_offsets-cons [] r rows h = refl
remove_offsets-cons (o ∷ os) r rows h =
    let other : (r.offset == o) ≡ false = ground (arith, h.0) in
    rw (other) (remove_offsets-cons os r (remove_offset o rows) h.1)

matched-All :
    (P : StoredRow → Type 0) (ps : WhereFilter) (rows : List StoredRow)
    → All P rows
    → All P (matched ps rows)
matched-All P ps [] h = tt
matched-All P ps (r ∷ rs) h = elim (Bool-cases (is_true (matches_where r.row ps))) [
  | inl yes' ↦ rw (yes') (h.0, matched-All P ps rs h.1)
  | inr no' ↦ rw (no') (matched-All P ps rs h.1)
]

pub matched-HasOffset :
    (ps : WhereFilter) (rows : List StoredRow)
    → All (λ (m : StoredRow). HasOffset m.offset rows) (matched ps rows)
matched-HasOffset ps [] = tt
matched-HasOffset ps (r ∷ rs) =
    let later = All-imp (λ (m : StoredRow) h. inr h) (matched ps rs) (matched-HasOffset ps rs) in
    elim (Bool-cases (is_true (matches_where r.row ps))) [
      | inl yes' ↦ rw (yes') (inl refl, later)
      | inr no' ↦ rw (no') later
    ]

pub matched-Grows :
    (ps : WhereFilter) (rows : List StoredRow) → Grows rows → Grows (matched ps rows)
matched-Grows ps [] h = tt
matched-Grows ps (r ∷ rs) h =
    let rest = matched-Grows ps rs h.1 in
    elim (Bool-cases (is_true (matches_where r.row ps))) [
      | inl yes' ↦ rw (yes') (matched-All (λ s. r.offset < s.offset) ps rs h.0, rest)
      | inr no' ↦ rw (no') rest
    ]

All-offsets_of : (n : ℕ) (rows : List StoredRow) → Above n rows → All (λ o. n < o) (offsets_of rows)
All-offsets_of n [] h = tt
All-offsets_of n (r ∷ rs) h = (h.0, All-offsets_of n rs h.1)

-- Without the rows at the offsets of those that match, the others remain.
pub remove_offsets-remaining :
    (ps : WhereFilter) (rows : List StoredRow)
    → Grows rows
    → remove_offsets (offsets_of (matched ps rows)) rows ≡ remaining ps rows
remove_offsets-remaining ps [] h = refl
remove_offsets-remaining ps (r ∷ rs) h =
    let rest = remove_offsets-remaining ps rs h.1 in
    let above =
      All-offsets_of r.offset (matched ps rs) (matched-All (λ s. r.offset < s.offset) ps rs h.0) in
    elim (Bool-cases (is_true (matches_where r.row ps))) [
      | inl yes' ↦
          rw (yes')
            (ap (remove_offsets (offsets_of (matched ps rs))) (remove_offset-here r rs h.0) ∙ rest)
      | inr no' ↦
          rw (no')
            (remove_offsets-cons (offsets_of (matched ps rs)) r rs above ∙ ap (λ t. r ∷ t) rest)
    ]

-- The deletions one after the other.
pub storage_delete_rows-remove_offsets :
    (schema : TableSchema) (ms : List StoredRow) (file : List ℕ) (rows : List StoredRow)
    → IsData file
    → scan_table file schema ≡ some rows
    → Grows ms
    → All (λ (m : StoredRow). HasOffset m.offset rows) ms
    → IsData (storage_delete_rows file (offsets_of ms))
      × (scan_table (storage_delete_rows file (offsets_of ms)) schema
          ≡ some (remove_offsets (offsets_of ms) rows))
unfolding storage_delete_rows
storage_delete_rows-remove_offsets schema [] file rows d seen grows has = (d, seen)
storage_delete_rows-remove_offsets schema (m ∷ ms) file rows d seen grows has =
    let (d', seen') = storage_delete_row-scan_table file schema rows m.offset d seen has.0 in
    storage_delete_rows-remove_offsets schema ms (storage_delete_row file m.offset)
      (remove_offset m.offset rows) d' seen' grows.1
      (All-imp₂ (λ (s : StoredRow) above h. HasOffset-remove rows s.offset m.offset above h) ms
        grows.0 has.1)

pub matched-remaining :
    (ps : WhereFilter) (rows : List StoredRow)
    → length (matched ps rows) + length (remaining ps rows) ≡ length rows
matched-remaining ps [] = refl
matched-remaining ps (r ∷ rs) =
    let rest = matched-remaining ps rs in
    elim (Bool-cases (is_true (matches_where r.row ps))) [
      | inl yes' ↦ rw (yes') (omega (arith, rest))
      | inr no' ↦ rw (no') (omega (arith, rest))
    ]
