-- ===== src/Engine/IndexPlanner/Parts.antt =====
-- The definition that `plan_create_index` of src/engine/ddl/planner.c makes of an index.
use maxql.Prelude.{
  ℕ, zero, suc, ◌+◌, ◌*◌, ◌%◌, ◌≤◌, ◌<◌, List, [], ◌∷◌, true, false, ◌||◌, Option, none, some, ◌≡◌,
  ◌⊎◌, inl, inr, refl, sym, ap, ◌∙◌, arith, Bool-cases, All, All-get_elem?, All-imp, Ordering,
  length, get_elem?, ltb, leb, ltb→le, ◌==◌,
}
use Prim.Native.Nat.Ordering.{eq}
use mathlib.Core.Path.{subst}
use maxql.Core.Error.{Error, err_planner, err_index}
use maxql.Core.Result.{Result, done, and_then, Holds, Holds-and_then, Holds-if, Holds-imp}
use maxql.Core.StrView.{sv_to_cstr}
use maxql.Parser.Ast.{IndexKeyPart}
use maxql.Types.Value.{
  ColumnType, type_int, type_varchar, type_char, type_binary, type_float, DataValue, value_null,
  value_int, value_string, value_binary, value_float,
}
use maxql.Types.Compare.{strcmp}
use maxql.Types.Resolve.{is_eq, IsWidth}
use maxql.Types.Converter.{convert_int}
use maxql.Types.Converter.Bounds.{IsInt, convert_int-OfInt}
use maxql.Schema.Table.{Column, TableSchema, IndexPart, next_pos, column_pos_in, table_column_pos}
use maxql.Schema.Columns.{IsTyped, IsColumn}
use maxql.Database.{copy_string}
use maxql.Engine.Checks.{found, converted-IsInt}
use maxql.Engine.DmlExecutor.Planned.{total_len}
use maxql.Engine.IndexPlanner.{
  PartErrors, planner_errors, part_length_of, key_part_length, column_at, plan_part, plan_parts,
  key_size_of,
}

-- An error of the planner of indexes.
abbrev pub IsRefusal : Error → Type 0
IsRefusal e = (e.code ≡ err_planner) ⊎ (e.code ≡ err_index)

-- A position with a column of a name.
abbrev HasName : List Column → List ℕ → ℕ → Type 0
HasName columns name i =
    (c : Column) × (get_elem? columns i ≡ some c) × (strcmp name c.column_name ≡ eq)

abbrev HasNameIf : List Column → List ℕ → Option ℕ → Type 0
HasNameIf columns name none = Unit
HasNameIf columns name (some i) = HasName columns name i

next_pos-HasNameIf :
    (c : Column) (columns : List Column) (name : List ℕ) (o : Option ℕ)
    → HasNameIf columns name o
    → HasNameIf (c ∷ columns) name (next_pos o)
next_pos-HasNameIf c columns name none h = tt
next_pos-HasNameIf c columns name (some i) h = h

eq_of : (o : Ordering) → is_eq o ≡ true → o ≡ eq
eq_of Ordering.eq h = refl
eq_of Ordering.lt h = cc
eq_of Ordering.gt h = cc

column_pos_in-HasNameIf :
    (columns : List Column) (name : List ℕ) → HasNameIf columns name (column_pos_in columns name)
unfolding column_pos_in
column_pos_in-HasNameIf [] name = tt
column_pos_in-HasNameIf (c ∷ cs) name =
    let rest =
      next_pos-HasNameIf c cs name (column_pos_in cs name) (column_pos_in-HasNameIf cs name) in
    elim (Bool-cases (is_eq (strcmp name c.column_name))) [
      | inl same ↦ rw (column_pos_in, same) (c, refl, eq_of _ same)
      | inr other ↦ rw (column_pos_in, other) rest
    ]

column_at-done :
    (columns : List Column) (i : ℕ) (c : Column)
    → get_elem? columns i ≡ some c
    → column_at columns i ≡ done c
column_at-done [] i c h = cc
column_at-done (d ∷ cs) zero c h = let same : d ≡ c = cc in ap done same
column_at-done (d ∷ cs) (suc i) c h = column_at-done cs i c h

-- The length of a part: as given, or the whole column.
abbrev IsPartLength : IndexKeyPart → ℕ → ℕ → Type 0
IsPartLength k size n = (n ≤ size) × (1 ≤ size → 1 ≤ n) × (k.has_key_len ≡ false → n ≡ size)

IsWidth-pos : (c : ColumnType) (n : ℕ) → IsWidth c n → (1 ≤ n) × (n ≤ 255)
IsWidth-pos type_int n h = (omega (arith, h), omega (arith, h))
IsWidth-pos type_varchar n h = (h.0, h.1)
IsWidth-pos type_char n h = (h.0, omega (arith, h.1))
IsWidth-pos type_binary n h = (h.0, omega (arith, h.1))
IsWidth-pos type_float n h = (omega (arith, h), omega (arith, h))

-- A part as it is asked for: a column of its name, at its position, with the type and the comparison of
-- the column, and at least a byte of it.
pub record IsPlannedPart (schema : TableSchema) (k : IndexKeyPart) (p : IndexPart) : Type 0 where
  pub column : Column
  pub here : get_elem? schema.columns p.column_pos ≡ some column
  pub column_named : strcmp (sv_to_cstr k.column 32) column.column_name ≡ eq
  pub name_kept : p.column ≡ copy_string 32 (sv_to_cstr k.column 32)
  pub type_kept : p.part_type ≡ column.resolved_type.type_info.value_type
  pub order_kept : p.part_compare ≡ column.resolved_type.type_info.comparator
  pub some_byte : 1 ≤ p.part_len
  pub within : p.part_len ≤ column.resolved_type.byte_len
  pub byte_len : p.part_len ≤ 255
  pub whole : k.has_key_len ≡ false → p.part_len ≡ column.resolved_type.byte_len

abbrev pub ArePlannedParts : TableSchema → List IndexKeyPart → List IndexPart → Type 0
ArePlannedParts schema [] [] = Unit
ArePlannedParts schema [] (p ∷ ps) = ⊥
ArePlannedParts schema (k ∷ ks) [] = ⊥
ArePlannedParts schema (k ∷ ks) (p ∷ ps) = IsPlannedPart schema k p × ArePlannedParts schema ks ps

module _ (E : Error → Type 0) (errors : PartErrors) (no_column : E errors.no_column)
    (bad_length : E errors.bad_length) (not_pos : E errors.not_positive)
    (too_big : E errors.too_big) where
  found-HasName :
      (columns : List Column) (name : List ℕ) (e : Error) (o : Option ℕ)
      → E e
      → HasNameIf columns name o
      → Holds E (HasName columns name) (found e o)
  found-HasName columns name e none bad h = bad
  found-HasName columns name e (some i) bad h = h

  part_length_of-bounds :
      (size : ℕ) (v : DataValue)
      → IsInt v
      → Holds E (λ n. (1 ≤ n) × (n ≤ size)) (part_length_of errors size v)
  part_length_of-bounds size (value_int w) h =
      Holds-if E (λ n. (1 ≤ n) × (n ≤ size)) (w == 0 || leb 2147483648 w) _ _ (λ _. not_pos)
        (λ low.
          Holds-if E (λ n. (1 ≤ n) × (n ≤ size)) (ltb size w) _ _ (λ _. too_big)
            (λ fits. (ground (arith, low), ltb→le size w fits)))
  part_length_of-bounds size value_null h = absurd h
  part_length_of-bounds size (value_string s) h = absurd h
  part_length_of-bounds size (value_binary b) h = absurd h
  part_length_of-bounds size (value_float w) h = absurd h

  key_part_length-IsPartLength :
      (k : IndexKeyPart) (size : ℕ) → Holds E (IsPartLength k size) (key_part_length errors k size)
  unfolding key_part_length
  key_part_length-IsPartLength k size =
      Holds-if E (IsPartLength k size) k.has_key_len _ _
        (λ has.
          Holds-and_then E IsInt (IsPartLength k size) _ _
            (converted-IsInt E errors.bad_length bad_length (convert_int k.key_len)
              (convert_int-OfInt k.key_len))
            (λ v _ int.
              Holds-imp E _ (IsPartLength k size) (part_length_of errors size v)
                (part_length_of-bounds size v int) (λ n b. (b.1, (λ _. b.0), λ none_given. cc))))
        (λ _. (omega arith, (λ h. h), λ _. refl))

  module _ (schema : TableSchema)
      (columns : All (λ (c : Column). IsTyped c.resolved_type) schema.columns) where
    pub plan_part-IsPlannedPart :
        (k : IndexKeyPart) → Holds E (IsPlannedPart schema k) (plan_part errors schema k)
    unfolding plan_part table_column_pos
    plan_part-IsPlannedPart k =
        let name = sv_to_cstr k.column 32 in
        Holds-and_then E (HasName schema.columns name) (IsPlannedPart schema k) _ _
          (found-HasName schema.columns name _ (column_pos_in schema.columns name) no_column
            (column_pos_in-HasNameIf schema.columns name))
          (λ pos _ at. go pos at.0 at.1 at.2)
      where
        part_of : ℕ → Column → ℕ → IndexPart
        part_of pos c len = record {
          column = copy_string 32 (sv_to_cstr k.column 32);
          column_pos = pos;
          part_len = len;
          part_type = c.resolved_type.type_info.value_type;
          part_compare = c.resolved_type.type_info.comparator;
        }

        made : ℕ → Result Column → Result IndexPart
        made pos r = and_then r (λ c.
            and_then (key_part_length errors k c.resolved_type.byte_len)
              (λ len. done (part_of pos c len)))

        go :
            (pos : ℕ) (c : Column)
            → get_elem? schema.columns pos ≡ some c
            → strcmp (sv_to_cstr k.column 32) c.column_name ≡ eq
            → Holds E (IsPlannedPart schema k) (made pos (column_at schema.columns pos))
        go pos c here named =
            let size = c.resolved_type.byte_len in
            let (pos', most) =
              IsWidth-pos _ size
                (All-get_elem? (λ (d : Column). IsTyped d.resolved_type) schema.columns pos columns
                  here).width in
            subst (λ r. Holds E (IsPlannedPart schema k) (made pos r))
              (sym (column_at-done schema.columns pos c here))
              (Holds-and_then E (IsPartLength k size) (IsPlannedPart schema k) _ _
                (key_part_length-IsPartLength k size)
                (λ len _ b. record {
                  column = c;
                  here = here;
                  column_named = named;
                  name_kept = refl;
                  type_kept = refl;
                  order_kept = refl;
                  some_byte = b.1 pos';
                  within = b.0;
                  byte_len = omega (arith, b.0, most);
                  whole = b.2;
                }))

module _ (schema : TableSchema) (columns : All IsColumn schema.columns) where
  pub plan_parts-ArePlannedParts :
      (ks : List IndexKeyPart) → Holds IsRefusal (ArePlannedParts schema ks) (plan_parts schema ks)
  unfolding plan_parts
  plan_parts-ArePlannedParts [] = tt
  plan_parts-ArePlannedParts (k ∷ ks) =
      Holds-and_then IsRefusal (IsPlannedPart schema k) (ArePlannedParts schema (k ∷ ks)) _ _
        (plan_part-IsPlannedPart IsRefusal planner_errors (inl refl) (inl refl) (inl refl)
          (inl refl) schema
          (All-imp (λ (c : Column) (h : IsColumn c). h.typed) schema.columns columns) k)
        (λ p _ made.
          Holds-and_then IsRefusal (ArePlannedParts schema ks) (ArePlannedParts schema (k ∷ ks)) _ _
            (plan_parts-ArePlannedParts ks) (λ ps _ rest. (made, rest)))

-- The size of the key does not wrap around.
pub key_size_of-total_len :
    (schema : TableSchema) (ks : List IndexKeyPart) (ps : List IndexPart) (size : ℕ)
    → ArePlannedParts schema ks ps
    → size + 255 * length ks < 65536
    → key_size_of size ps ≡ size + total_len ps
key_size_of-total_len schema [] [] size h k = omega arith
key_size_of-total_len schema [] (p ∷ ps) size h k = absurd h
key_size_of-total_len schema (q ∷ ks) [] size h k = absurd h
key_size_of-total_len schema (q ∷ ks) (p ∷ ps) size h k =
    let short = h.0.byte_len in
    let next : (size + p.part_len) % 65536 ≡ size + p.part_len = omega (arith, short, k) in
    ap (λ n. key_size_of n ps) next
    ∙ key_size_of-total_len schema ks ps (size + p.part_len) h.1 (omega (arith, short, k))
    ∙ omega arith
