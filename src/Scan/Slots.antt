-- ===== src/Scan/Slots.antt =====
-- A table scan of src/scan/table_scan.c sees the rows of a file's slots that are not deleted, in order.
use maxql.Prelude.{
  ℕ, zero, suc, ◌+◌, ◌≤◌, ◌<◌, List, [], ◌∷◌, ◌++◌, Option, none, some, ◌≡◌, refl, sym, ap, ◌∙◌,
  arith, length, All, append_assoc, append-nil, length-append, lt→ltb, le→ltb,
}
use maxql.Schema.Table.{TableSchema}
use maxql.Storage.{
  StoredRow, header_size, storage_read_current_row, deserialize_row_data, table_scan_next,
}
use maxql.Storage.Slots.{
  Slot, kept, removed, IsSlot, slot_bytes, slot_size, file_bytes, live_rows, slot_answer, read-slot,
}
use maxql.Scan.{Next, drain, scan_table}

-- The next row that is not deleted, and the position behind it.
next_live : TableSchema → ℕ → List Slot → Option StoredRow × ℕ
next_live schema pos [] = (none, pos)
next_live schema pos (removed bs ∷ ss) = next_live schema (pos + (header_size + length bs)) ss
next_live schema pos (kept bs ∷ ss) = (
  some (record { row = deserialize_row_data bs schema; offset = pos }),
  pos + (header_size + length bs),
)

length-slot_bytes : (s : Slot) → length (slot_bytes s) ≡ slot_size s
length-slot_bytes s = omega arith

-- A position where the rest of the file is slots.
pub record At (file : List ℕ) (pos : ℕ) (ss : List Slot) : Type 0 where
  pub before : List ℕ
  pub whole : file ≡ before ++ file_bytes ss
  pub reached : pos ≡ length before

pub At-next :
    {file : List ℕ} {pos : ℕ} (s : Slot) (ss : List Slot)
    → At file pos (s ∷ ss)
    → At file (pos + slot_size s) ss
unfolding file_bytes
At-next s ss a = record {
  before = a.before ++ slot_bytes s;
  whole = a.whole ∙ sym (append_assoc a.before (slot_bytes s) (file_bytes ss));
  reached = omega (arith, a.reached, length-append a.before (slot_bytes s), length-slot_bytes s);
}

At-end : {file : List ℕ} {pos : ℕ} → At file pos [] → pos ≡ length file
unfolding file_bytes
At-end a = a.reached ∙ ap length (sym (append-nil a.before)) ∙ ap length (sym a.whole)

At-lt :
    {file : List ℕ} {pos : ℕ} (s : Slot) (ss : List Slot) → At file pos (s ∷ ss) → pos < length file
unfolding file_bytes
At-lt s ss a = omega (
  arith,
  a.reached,
  ap length a.whole,
  length-append a.before (slot_bytes s ++ file_bytes ss),
  length-append (slot_bytes s) (file_bytes ss),
  length-slot_bytes s,
)

pub At-read :
    {file : List ℕ} {pos : ℕ} (s : Slot) (ss : List Slot) (schema : TableSchema)
    → At file pos (s ∷ ss)
    → IsSlot s
    → storage_read_current_row file schema pos ≡ slot_answer s schema (pos + slot_size s)
unfolding file_bytes
At-read s ss schema a ok = rw (a.whole, a.reached) (read-slot a.before s (file_bytes ss) schema ok)

table_scan_next-next_live :
    (schema : TableSchema) (ss : List Slot) (file : List ℕ) (pos fuel : ℕ)
    → At file pos ss
    → All IsSlot ss
    → length ss < fuel
    → table_scan_next fuel file schema pos ≡ some (next_live schema pos ss)
unfolding table_scan_next next_live slot_answer
table_scan_next-next_live schema ss file pos zero a ok h = absurd (omega arith)
table_scan_next-next_live schema [] file pos (suc fuel) a ok h =
    rw (table_scan_next, le→ltb pos (length file) (omega (arith, At-end a))) refl
table_scan_next-next_live schema (removed bs ∷ ss) file pos (suc fuel) a ok h =
    rw
      (
        table_scan_next,
        lt→ltb pos (length file) (At-lt (removed bs) ss a),
        At-read (removed bs) ss schema a ok.0,
      )
      (table_scan_next-next_live schema ss file (pos + (header_size + length bs)) fuel
        (At-next (removed bs) ss a) ok.1 (omega arith))
table_scan_next-next_live schema (kept bs ∷ ss) file pos (suc fuel) a ok h =
    rw
      (
        table_scan_next,
        lt→ltb pos (length file) (At-lt (kept bs) ss a),
        At-read (kept bs) ss schema a ok.0,
      )
      refl

drain_step :
    {S : Type 0} (next : Next S) (fuel : ℕ) (s t : S)
    → next s ≡ next t
    → drain next (suc fuel) s ≡ drain next (suc fuel) t
unfolding drain
drain_step next fuel s t h = rw (drain, h) refl

drain-live_rows :
    (schema : TableSchema) (ss : List Slot) (file : List ℕ) (pos fuel more : ℕ)
    → At file pos ss
    → All IsSlot ss
    → length ss < fuel
    → length ss < more
    → drain (table_scan_next more file schema) fuel pos ≡ some (live_rows schema pos ss)
unfolding drain live_rows next_live
drain-live_rows schema ss file pos zero more a ok h k = absurd (omega arith)
drain-live_rows schema [] file pos (suc fuel) more a ok h k =
    rw (drain, table_scan_next-next_live schema [] file pos more a ok k) refl
drain-live_rows schema (removed bs ∷ ss) file pos (suc fuel) more a ok h k =
    let next = pos + (header_size + length bs) in
    let b = At-next (removed bs) ss a in
    drain_step (table_scan_next more file schema) fuel pos next (
      table_scan_next-next_live schema (removed bs ∷ ss) file pos more a ok k
      ∙ sym (table_scan_next-next_live schema ss file next more b ok.1 (omega arith)))
    ∙ drain-live_rows schema ss file next (suc fuel) more b ok.1 (omega arith) (omega arith)
drain-live_rows schema (kept bs ∷ ss) file pos (suc fuel) more a ok h k =
    rw
      (
        drain,
        table_scan_next-next_live schema (kept bs ∷ ss) file pos more a ok k,
        drain-live_rows schema ss file (pos + (header_size + length bs)) fuel more
            (At-next (kept bs) ss a) ok.1 (omega arith) (omega arith),
      )
      refl

length-file_bytes : (ss : List Slot) → length ss ≤ length (file_bytes ss)
unfolding file_bytes
length-file_bytes [] = omega arith
length-file_bytes (s ∷ ss) =
    omega (
      arith,
      length-append (slot_bytes s) (file_bytes ss),
      length-slot_bytes s,
      length-file_bytes ss,
    )

pub scan_table-live_rows :
    (schema : TableSchema) (ss : List Slot)
    → All IsSlot ss
    → scan_table (file_bytes ss) schema ≡ some (live_rows schema 0 ss)
unfolding scan_table
scan_table-live_rows schema ss ok =
    drain-live_rows schema ss (file_bytes ss) 0 (suc (length (file_bytes ss)))
      (suc (length (file_bytes ss))) (record { before = []; whole = refl; reached = refl }) ok
      (omega (arith, length-file_bytes ss)) (omega (arith, length-file_bytes ss))
