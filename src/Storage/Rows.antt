-- ===== src/Storage/Rows.antt =====
-- A row of values goes through src/serializer/serializer.c and comes back as the table stores it.
use maxql.Prelude.{
  ℕ, ◌*◌, ◌≤◌, List, [], ◌∷◌, ◌++◌, some, ◌≡◌, refl, ap, ◌∙◌, arith, length, drop, append_assoc,
  length-append,
}
use maxql.Types.Value.{DataValue}
use maxql.Types.Mapper.{type_mapping}
use maxql.Types.Mapper.RoundTrip.{Fits, stored, serialize-Written}
use maxql.Schema.Table.{Column}
use maxql.Storage.{serialize_columns, deserialize_columns}

-- The values fit the columns, whose types are entries of the table.
abbrev pub FitsRow : List Column → List DataValue → Type 0
FitsRow [] [] = Unit
FitsRow [] (v ∷ vs) = ⊥
FitsRow (c ∷ cs) [] = ⊥
FitsRow (c ∷ cs) (v ∷ vs) =
    let rt = c.resolved_type in
    (rt.type_info ≡ type_mapping rt.type_info.column_type)
    × Fits rt.type_info.column_type rt.byte_len v
    × FitsRow cs vs

-- The values as the columns store them.
unfoldable pub stored_row : List Column → List DataValue → List DataValue
stored_row [] vs = []
stored_row (c ∷ cs) [] = []
stored_row (c ∷ cs) (v ∷ vs) =
    let rt = c.resolved_type in stored rt.type_info.column_type rt.byte_len v ∷ stored_row cs vs

-- The bytes written for a row, from which it is read.
pub record WrittenRow (cs : List Column) (vs : List DataValue) : Type 0 where
  pub bytes : List ℕ
  pub made : serialize_columns cs vs ≡ some bytes
  pub short : length bytes ≤ 256 * length cs
  pub back : (rest : List ℕ) → deserialize_columns (bytes ++ rest) cs ≡ stored_row cs vs

drop-append : (xs ys : List ℕ) → drop (length xs) (xs ++ ys) ≡ ys
drop-append [] ys = refl
drop-append (x ∷ xs) ys = drop-append xs ys

column_written :
    (c : Column) (v : DataValue)
    → c.resolved_type.type_info ≡ type_mapping c.resolved_type.type_info.column_type
    → Fits c.resolved_type.type_info.column_type c.resolved_type.byte_len v
    → (bytes : List ℕ) × (c.resolved_type.type_info.serialize v c.resolved_type.byte_len
        ≡ some bytes)
      × (length bytes ≤ 256)
      × ((rest : List ℕ)
          → c.resolved_type.type_info.deserialize (bytes ++ rest) c.resolved_type.byte_len ≡ (
            stored c.resolved_type.type_info.column_type c.resolved_type.byte_len v,
            length bytes,
          ))
column_written c v same fits =
    let w =
      serialize-Written c.resolved_type.type_info.column_type c.resolved_type.byte_len v fits in
    (
      w.bytes,
      ap (λ t. t.serialize v c.resolved_type.byte_len) same ∙ w.made,
      w.short,
      λ rest. ap (λ t. t.deserialize (w.bytes ++ rest) c.resolved_type.byte_len) same ∙ w.back rest,
    )

-- A row of values that fit its columns is written in at most 256 bytes for each column, from which
-- the row is read as stored, whatever follows.
pub serialize_columns-WrittenRow :
    (cs : List Column) (vs : List DataValue) → FitsRow cs vs → WrittenRow cs vs
unfolding serialize_columns deserialize_columns stored_row
serialize_columns-WrittenRow [] [] h = record {
  bytes = [];
  made = refl;
  short = omega arith;
  back = λ rest. refl;
}
serialize_columns-WrittenRow [] (v ∷ vs) h = absurd h
serialize_columns-WrittenRow (c ∷ cs) [] h = absurd h
serialize_columns-WrittenRow (c ∷ cs) (v ∷ vs) h =
    let (bs, made, short, back) = column_written c v h.0 h.1 in
    let w = serialize_columns-WrittenRow cs vs h.2 in
    record {
      bytes = bs ++ w.bytes;
      made = rw (made, w.made) refl;
      short = omega (arith, length-append bs w.bytes, short, w.short);
      back = λ rest.
          ap
            (λ (d : DataValue × ℕ).
              d.0 ∷ deserialize_columns (drop d.1 ((bs ++ w.bytes) ++ rest)) cs)
            (ap (λ t. c.resolved_type.type_info.deserialize t c.resolved_type.byte_len)
                (append_assoc bs w.bytes rest)
              ∙ back (w.bytes ++ rest))
          ∙ ap
              (λ t.
                stored c.resolved_type.type_info.column_type c.resolved_type.byte_len v
                ∷ deserialize_columns t cs)
              (ap (drop (length bs)) (append_assoc bs w.bytes rest)
                ∙ drop-append bs (w.bytes ++ rest))
          ∙ ap (λ t. stored c.resolved_type.type_info.column_type c.resolved_type.byte_len v ∷ t)
              (w.back rest);
    }
