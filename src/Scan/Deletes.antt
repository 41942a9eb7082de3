-- ===== src/Scan/Deletes.antt =====
-- What a table scan sees after src/storage/storage.c deletes a row, and that it loads the rows seen.
use maxql.Prelude.{
  ℕ, zero, suc, ◌+◌, ◌-◌, ◌≤◌, ◌<◌, List, [], ◌∷◌, ◌++◌, some, ◌≡◌, ◌⊎◌, inl, inr, refl, sym, ap,
  ◌∙◌, arith, length, drop, All, append_assoc, length-append, ◌==◌, if◌then◌else◌,
}
use maxql.Schema.Table.{TableSchema}
use maxql.Storage.{StoredRow, header_size, write_byte, storage_delete_row, storage_load_row}
use maxql.Storage.Slots.{
  Slot, kept, removed, bytes_of, IsSlot, slot_bytes, slot_size, file_bytes, live_rows, slot_answer,
  take-append_at,
}
use maxql.Scan.{scan_table}
use maxql.Scan.Slots.{At, At-next, At-read, scan_table-live_rows}
use maxql.Scan.Writes.{IsData, scan_data}

-- The slot at an offset, marked.
mark : ℕ → ℕ → List Slot → List Slot
mark offset pos [] = []
mark offset pos (s ∷ ss) =
    let rest = mark offset (pos + slot_size s) ss in
    if offset == pos then removed (bytes_of s) ∷ ss else s ∷ rest

-- A row among those that a scan sees.
abbrev pub HasOffset : ℕ → List StoredRow → Type 0
HasOffset offset [] = ⊥
HasOffset offset (r ∷ rs) = (r.offset ≡ offset) ⊎ HasOffset offset rs

-- The rows without the one at an offset.
abbrev pub remove_offset : ℕ → List StoredRow → List StoredRow
remove_offset offset [] = []
remove_offset offset (r ∷ rs) =
    let rest = remove_offset offset rs in if r.offset == offset then rest else r ∷ rest

remove_offset-above :
    (schema : TableSchema) (ss : List Slot) (offset pos : ℕ)
    → offset < pos
    → remove_offset offset (live_rows schema pos ss) ≡ live_rows schema pos ss
unfolding live_rows
remove_offset-above schema [] offset pos h = refl
remove_offset-above schema (removed bs ∷ ss) offset pos h =
    remove_offset-above schema ss offset (pos + (header_size + length bs)) (omega arith)
remove_offset-above schema (kept bs ∷ ss) offset pos h =
    ground (arith, remove_offset-above schema ss offset (pos + (header_size + length bs)))

HasOffset-above :
    (schema : TableSchema) (ss : List Slot) (offset pos : ℕ)
    → HasOffset offset (live_rows schema pos ss)
    → pos ≤ offset
unfolding live_rows
HasOffset-above schema [] offset pos h = absurd h
HasOffset-above schema (removed bs ∷ ss) offset pos h =
    omega (arith, HasOffset-above schema ss offset (pos + (header_size + length bs)) h)
HasOffset-above schema (kept bs ∷ ss) offset pos (inl h) = omega arith
HasOffset-above schema (kept bs ∷ ss) offset pos (inr h) =
    omega (arith, HasOffset-above schema ss offset (pos + (header_size + length bs)) h)

live_rows-mark :
    (schema : TableSchema) (ss : List Slot) (offset pos : ℕ)
    → HasOffset offset (live_rows schema pos ss)
    → live_rows schema pos (mark offset pos ss) ≡ remove_offset offset (live_rows schema pos ss)
unfolding live_rows mark
live_rows-mark schema [] offset pos h = refl
live_rows-mark schema (removed bs ∷ ss) offset pos h =
    let next = pos + (header_size + length bs) in
    ground (arith, live_rows-mark schema ss offset next h, HasOffset-above schema ss offset next h)
live_rows-mark schema (kept bs ∷ ss) offset pos (inl h) =
    ground (arith, remove_offset-above schema ss offset (pos + (header_size + length bs)))
live_rows-mark schema (kept bs ∷ ss) offset pos (inr h) =
    let next = pos + (header_size + length bs) in
    ground (arith, live_rows-mark schema ss offset next h, HasOffset-above schema ss offset next h)

drop_behind : (xs ys : List ℕ) (c n : ℕ) → n ≡ length xs → drop (suc n) (xs ++ c ∷ ys) ≡ ys
drop_behind [] ys c zero h = refl
drop_behind [] ys c (suc n) h = absurd (omega arith)
drop_behind (x ∷ xs) ys c zero h = absurd (omega arith)
drop_behind (x ∷ xs) ys c (suc n) h = drop_behind xs ys c n (omega arith)

write_byte-append :
    (xs ys : List ℕ) (c b n : ℕ) → n ≡ length xs → write_byte (xs ++ c ∷ ys) n b ≡ xs ++ b ∷ ys
write_byte-append xs ys c b n h =
    let inside : n - length (xs ++ c ∷ ys) ≡ 0 = omega (arith, length-append xs (c ∷ ys)) in
    rw (inside, take-append_at xs (c ∷ ys) n h, drop_behind xs ys c n h) refl

mark_other :
    (s : Slot) (ss : List Slot) (offset pos : ℕ)
    → pos < offset
    → mark offset pos (s ∷ ss) ≡ s ∷ mark offset (pos + slot_size s) ss
unfolding mark
mark_other s ss offset pos h = ground arith

mark_here :
    (s : Slot) (ss : List Slot) (offset pos : ℕ)
    → pos ≡ offset
    → mark offset pos (s ∷ ss) ≡ removed (bytes_of s) ∷ ss
unfolding mark
mark_here s ss offset pos h = ground arith

delete_later :
    (schema : TableSchema) (s : Slot) (ss : List Slot) (before : List ℕ) (offset pos : ℕ)
    → pos ≡ length before
    → storage_delete_row ((before ++ slot_bytes s) ++ file_bytes ss) offset
      ≡ (before ++ slot_bytes s) ++ file_bytes (mark offset (pos + slot_size s) ss)
    → storage_delete_row (before ++ file_bytes (s ∷ ss)) offset
      ≡ before ++ file_bytes (s ∷ mark offset (pos + slot_size s) ss)
unfolding file_bytes
delete_later schema s ss before offset pos e h =
    ap (λ t. storage_delete_row t offset) (sym (append_assoc before (slot_bytes s) (file_bytes ss)))
    ∙ h
    ∙ append_assoc before (slot_bytes s) (file_bytes (mark offset (pos + slot_size s) ss))

delete-mark :
    (schema : TableSchema) (ss : List Slot) (before : List ℕ) (offset pos : ℕ)
    → pos ≡ length before
    → HasOffset offset (live_rows schema pos ss)
    → storage_delete_row (before ++ file_bytes ss) offset
      ≡ before ++ file_bytes (mark offset pos ss)
unfolding storage_delete_row live_rows file_bytes
delete-mark schema [] before offset pos e h = absurd h
delete-mark schema (removed bs ∷ ss) before offset pos e h =
    let next = pos + (header_size + length bs) in
    rw
      (mark_other (removed bs) ss offset pos
        (omega (arith, HasOffset-above schema ss offset next h)))
      (delete_later schema (removed bs) ss before offset pos e (
        delete-mark schema ss (before ++ slot_bytes (removed bs)) offset next
          (omega (arith, length-append before (slot_bytes (removed bs)))) h))
delete-mark schema (kept bs ∷ ss) before offset pos e (inl h) =
    rw (mark_here (kept bs) ss offset pos h) (write_byte-append before _ 0 1 offset (sym h ∙ e))
delete-mark schema (kept bs ∷ ss) before offset pos e (inr h) =
    let next = pos + (header_size + length bs) in
    rw (mark_other (kept bs) ss offset pos (omega (arith, HasOffset-above schema ss offset next h)))
      (delete_later schema (kept bs) ss before offset pos e (
        delete-mark schema ss (before ++ slot_bytes (kept bs)) offset next
          (omega (arith, length-append before (slot_bytes (kept bs)))) h))

mark-IsSlot : (ss : List Slot) (offset pos : ℕ) → All IsSlot ss → All IsSlot (mark offset pos ss)
unfolding mark
mark-IsSlot [] offset pos h = tt
mark-IsSlot (removed bs ∷ ss) offset pos h =
    ground (arith, mark-IsSlot ss offset (pos + (header_size + length bs)) h.1)
mark-IsSlot (kept bs ∷ ss) offset pos h =
    ground (arith, mark-IsSlot ss offset (pos + (header_size + length bs)) h.1)

-- Deletion at the offset of a row that a scan sees marks that row in the file; a scan then sees the
-- same rows in the same order without it.
pub storage_delete_row-scan_table :
    (file : List ℕ) (schema : TableSchema) (rows : List StoredRow) (offset : ℕ)
    → IsData file
    → scan_table file schema ≡ some rows
    → HasOffset offset rows
    → IsData (storage_delete_row file offset)
      × (scan_table (storage_delete_row file offset) schema ≡ some (remove_offset offset rows))
storage_delete_row-scan_table file schema rows offset d seen has =
    let all = scan_data schema d in
    let same : live_rows schema 0 d.slots ≡ rows = cc in
    let has' : HasOffset offset (live_rows schema 0 d.slots) = rw same has in
    let marked : storage_delete_row file offset ≡ file_bytes (mark offset 0 d.slots) =
      ap (λ t. storage_delete_row t offset) d.whole
      ∙ delete-mark schema d.slots [] offset 0 refl has' in
    let small = mark-IsSlot d.slots offset 0 d.small in
    (
      record { slots = mark offset 0 d.slots; whole = marked; small = small },
      ap (λ t. scan_table t schema) marked
          ∙ scan_table-live_rows schema (mark offset 0 d.slots) small
          ∙ ap some (live_rows-mark schema d.slots offset 0 has')
          ∙ ap (λ t. some (remove_offset offset t)) same,
    )

At-load :
    (schema : TableSchema) (ss : List Slot) (file : List ℕ) (pos : ℕ)
    → At file pos ss
    → All IsSlot ss
    → All
        (λ (r : StoredRow).
          (next : ℕ) × (storage_load_row file schema r.offset ≡ some (some r.row, next)))
        (live_rows schema pos ss)
unfolding live_rows storage_load_row slot_answer
At-load schema [] file pos a ok = tt
At-load schema (removed bs ∷ ss) file pos a ok =
    At-load schema ss file (pos + (header_size + length bs)) (At-next (removed bs) ss a) ok.1
At-load schema (kept bs ∷ ss) file pos a ok = (
  (pos + (header_size + length bs), At-read (kept bs) ss schema a ok.0),
  At-load schema ss file (pos + (header_size + length bs)) (At-next (kept bs) ss a) ok.1,
)

-- Each row that a scan of a data file sees is the row that is loaded at its offset.
pub storage_load_row-scan_table :
    (file : List ℕ) (schema : TableSchema)
    → IsData file
    → (rows : List StoredRow) × (scan_table file schema ≡ some rows)
      × All
          (λ (r : StoredRow).
            (next : ℕ) × (storage_load_row file schema r.offset ≡ some (some r.row, next)))
          rows
unfolding file_bytes
storage_load_row-scan_table file schema d = (
  live_rows schema 0 d.slots,
  scan_data schema d,
  At-load schema d.slots file 0 (record { before = []; whole = d.whole; reached = refl }) d.small,
)
