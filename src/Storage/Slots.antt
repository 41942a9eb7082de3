-- ===== src/Storage/Slots.antt =====
-- A data file as a list of slots, each a row with a mark of deletion; what src/storage/storage.c reads
-- and writes at a slot.
use maxql.Prelude.{
  ℕ, zero, suc, ◌+◌, ◌-◌, ◌*◌, ◌%◌, ◌/◌, ◌≤◌, List, [], ◌∷◌, ◌++◌, Option, none, some, ◌≡◌, refl,
  sym, ap, ◌∙◌, arith, length, take, drop, append_assoc, length-append, le→ltb, ltb, false,
  if◌then◌else◌,
}
use maxql.Core.StrView.{take_bytes}
use maxql.Types.Value.{DataValue}
use maxql.Types.Mapper.RoundTrip.{take_bytes-append}
use maxql.Schema.Table.{TableSchema}
use maxql.Storage.{
  StoredRow, header_size, max_row_size, row_bytes, half_bytes, read_row, deserialize_row_data,
  storage_read_current_row,
}

pub data Slot : Type 0 where
  kept : List ℕ → Slot
  removed : List ℕ → Slot

abbrev pub bytes_of : Slot → List ℕ
bytes_of (kept bs) = bs
bytes_of (removed bs) = bs

abbrev pub flags_of : Slot → ℕ
flags_of (kept bs) = 0
flags_of (removed bs) = 1

-- The bytes of a row are within its buffer.
abbrev pub IsSlot : Slot → Type 0
IsSlot s = header_size + length (bytes_of s) ≤ max_row_size

abbrev pub slot_bytes : Slot → List ℕ
slot_bytes s = row_bytes (flags_of s) (bytes_of s)

unfoldable pub file_bytes : List Slot → List ℕ
file_bytes [] = []
file_bytes (s ∷ ss) = slot_bytes s ++ file_bytes ss

abbrev pub slot_size : Slot → ℕ
slot_size s = header_size + length (bytes_of s)

-- The rows that are not deleted, with the offsets of their slots, from an offset on.
unfoldable pub live_rows : TableSchema → ℕ → List Slot → List StoredRow
live_rows schema pos [] = []
live_rows schema pos (removed bs ∷ ss) = live_rows schema (pos + (header_size + length bs)) ss
live_rows schema pos (kept bs ∷ ss) =
    record { row = deserialize_row_data bs schema; offset = pos }
    ∷ live_rows schema (pos + (header_size + length bs)) ss

pub drop-append_at : {A : Type 0} (xs ys : List A) (n : ℕ) → n ≡ length xs → drop n (xs ++ ys) ≡ ys
drop-append_at [] ys zero h = refl
drop-append_at [] ys (suc n) h = absurd (omega arith)
drop-append_at (x ∷ xs) ys zero h = absurd (omega arith)
drop-append_at (x ∷ xs) ys (suc n) h = drop-append_at xs ys n (omega arith)

pub take-append_at : {A : Type 0} (xs ys : List A) (n : ℕ) → n ≡ length xs → take n (xs ++ ys) ≡ xs
take-append_at [] ys zero h = refl
take-append_at [] ys (suc n) h = absurd (omega arith)
take-append_at (x ∷ xs) ys zero h = absurd (omega arith)
take-append_at (x ∷ xs) ys (suc n) h = ap (λ t. x ∷ t) (take-append_at xs ys n (omega arith))

-- What is read of a slot, with the position behind it.
unfoldable pub slot_answer : Slot → TableSchema → ℕ → Option (Option (List DataValue) × ℕ)
slot_answer (removed bs) schema next = some (none, next)
slot_answer (kept bs) schema next = some (some (deserialize_row_data bs schema), next)

header_row_size :
    (n : ℕ)
    → header_size + n ≤ max_row_size
    → ((header_size + n) % 65536 % 256
          + 256 * ((header_size + n) % 65536 / 256 % 256)
          + 65536
          - header_size)
        % 65536
      ≡ n
header_row_size n h = omega arith

read_row-slot :
    (s : Slot) (rest : List ℕ) (schema : TableSchema) (pos : ℕ)
    → IsSlot s
    → read_row (flags_of s ∷ half_bytes (slot_size s % 65536)) (bytes_of s ++ rest) schema pos
      ≡ slot_answer s schema (pos + slot_size s)
unfolding slot_answer read_row
read_row-slot (removed bs) rest schema pos h =
    let next : pos + header_size + length bs ≡ pos + (header_size + length bs) = omega arith in
    rw (read_row, header_row_size (length bs) h, next) refl
read_row-slot (kept bs) rest schema pos h =
    let next : pos + header_size + length bs ≡ pos + (header_size + length bs) = omega arith in
    rw
      (
        read_row,
        header_row_size (length bs) h,
        le→ltb max_row_size (length bs) (omega arith),
        le→ltb (length (bs ++ rest)) (length bs) (omega (arith, length-append bs rest)),
        next,
        take_bytes-append bs rest (length bs) refl,
      )
      refl

-- What is read where a slot begins.
pub read-slot :
    (pre : List ℕ) (s : Slot) (rest : List ℕ) (schema : TableSchema)
    → IsSlot s
    → storage_read_current_row (pre ++ (slot_bytes s ++ rest)) schema (length pre)
      ≡ slot_answer s schema (length pre + slot_size s)
unfolding storage_read_current_row
read-slot pre s rest schema h =
    let file = pre ++ (slot_bytes s ++ rest) in
    let header = flags_of s ∷ half_bytes (slot_size s % 65536) in
    let a : take_bytes header_size (drop (length pre) file) ≡ header =
      ap (take_bytes header_size) (drop-append_at pre (slot_bytes s ++ rest) (length pre) refl) in
    let b : drop (length pre + header_size) file ≡ bytes_of s ++ rest =
      ap (drop (length pre + header_size)) (sym (append_assoc pre header (bytes_of s ++ rest)))
      ∙ drop-append_at (pre ++ header) (bytes_of s ++ rest) (length pre + header_size)
          (sym (length-append pre header)) in
    let enough : ltb (length (drop (length pre) file)) header_size ≡ false =
      ap (λ t. ltb (length t) header_size)
        (drop-append_at pre (slot_bytes s ++ rest) (length pre) refl)
      ∙ le→ltb (length (slot_bytes s ++ rest)) header_size (omega arith) in
    ap
      (λ b.
        if b
        then none
        else read_row (take_bytes header_size (drop (length pre) file))
            (drop (length pre + header_size) file) schema (length pre))
      enough
    ∙ ap (λ t. read_row t (drop (length pre + header_size) file) schema (length pre)) a
    ∙ ap (λ t. read_row header t schema (length pre)) b
    ∙ read_row-slot s rest schema (length pre) h
