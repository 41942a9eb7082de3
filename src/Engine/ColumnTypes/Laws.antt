-- ===== src/Engine/ColumnTypes/Laws.antt =====
-- What the resolution of a column's type answers, whatever its errors are.
use maxql.Prelude.{true, if◌then◌else◌, ℕ, ltb, ◌≡◌, refl, sym, ap, ◌∙◌}
use Prim.Native.Nat.Ordering.{eq}
use mathlib.Core.Path.{subst}
use maxql.Core.Error.{Error}
use maxql.Core.Result.{Holds, Holds-and_then, Holds-if, Holds-imp}
use maxql.Core.StrView.{sv_to_cstr}
use maxql.Parser.Ast.{ColumnTypeDef}
use maxql.Types.Value.{
  ColumnType, type_int, type_varchar, type_char, type_binary, type_float, DataValue, value_null,
  value_int, value_string, value_binary, value_float,
}
use maxql.Types.Compare.{strcmp}
use maxql.Types.Mapper.{type_mapping}
use maxql.Types.Resolve.{
  ResolvedType, TypeResolveResult, resolve_ok, resolve_unknown_type, resolve_length_not_expected,
  resolve_length_required, resolve_length_too_big, resolve_length_too_small, resolve_misconfigured,
  IsResolved, Resolves, resolve_type-Resolves, IsWidth,
}
use maxql.Types.Converter.{
  ConvertResult, convert_ok, convert_not_a_number, convert_out_of_range, convert_too_long,
  convert_bad_hex, convert_int,
}
use maxql.Types.Converter.Bounds.{IsInt, OfInt, convert_int-OfInt}
use maxql.Schema.Columns.{IsTyped}
use maxql.Engine.Checks.{converted}
use maxql.Engine.ColumnTypes.{TypeErrors, resolved, length_of, column_type_length, column_type}

column_type-mapping : (c : ColumnType) → (type_mapping c).column_type ≡ c
unfolding type_mapping
column_type-mapping type_int = refl
column_type-mapping type_varchar = refl
column_type-mapping type_char = refl
column_type-mapping type_binary = refl
column_type-mapping type_float = refl

-- The length that a definition gives, if it gives one, and no matter what if not.
abbrev pub IsGivenLength : ColumnTypeDef → ℕ → Type 0
IsGivenLength type n = type.has_len ≡ true → convert_int type.len ≡ convert_ok (value_int n)

-- A type that is resolved is an entry of the table of types, by its name, with a length it can have. A
-- length is given exactly where the entry takes one, and it is the integer that is given.
abbrev pub IsNamed : ColumnTypeDef → ResolvedType → Type 0
IsNamed type rt =
    IsTyped rt
    × (strcmp (sv_to_cstr type.name 16) rt.type_info.type_name ≡ eq)
    × (rt.type_info.expects_len ≡ type.has_len)
    × IsGivenLength type rt.byte_len

IsResolved-IsNamed :
    (type : ColumnTypeDef) (len : ℕ) (rt : ResolvedType)
    → IsResolved (sv_to_cstr type.name 16) type.has_len len rt
    → IsGivenLength type len
    → IsNamed type rt
IsResolved-IsNamed type len rt h given =
    let same : rt.type_info.column_type ≡ h.column =
      ap (λ t. t.column_type) h.info ∙ column_type-mapping h.column in
    (
      record {
        entry = h.info ∙ ap type_mapping (sym same);
        width = subst (λ c. IsWidth c rt.byte_len) (sym same) h.width;
      },
      h.named,
      h.length_given,
      λ has.
          let kept : rt.byte_len ≡ len = h.length_kept ∙ ap (λ b. if b then len else 4) has in
          given has ∙ ap (λ n. convert_ok (value_int n)) (sym kept),
    )

module _ (E : Error → Type 0) (errors : TypeErrors) (bad_length : E errors.bad_length)
    (bad_range : E errors.out_of_range) (bad_type : E errors.unresolved) where
  resolved-IsNamed :
      (type : ColumnTypeDef) (len : ℕ) (r : TypeResolveResult)
      → Resolves (sv_to_cstr type.name 16) type.has_len len r
      → IsGivenLength type len
      → Holds E (IsNamed type) (resolved errors.unresolved r)
  resolved-IsNamed type len (resolve_ok rt) h given = IsResolved-IsNamed type len rt h given
  resolved-IsNamed type len resolve_unknown_type h given = bad_type
  resolved-IsNamed type len resolve_length_not_expected h given = bad_type
  resolved-IsNamed type len resolve_length_required h given = bad_type
  resolved-IsNamed type len resolve_length_too_big h given = bad_type
  resolved-IsNamed type len resolve_length_too_small h given = bad_type
  resolved-IsNamed type len resolve_misconfigured h given = bad_type

  -- What is known of a value that is converted.
  converted-ok :
      (r : ConvertResult)
      → OfInt r
      → Holds E (λ v. IsInt v × (r ≡ convert_ok v)) (converted errors.bad_length r)
  converted-ok (convert_ok v) h = (h, refl)
  converted-ok convert_not_a_number h = bad_length
  converted-ok convert_out_of_range h = bad_length
  converted-ok convert_too_long h = bad_length
  converted-ok convert_bad_hex h = bad_length

  length_of-value :
      (v : DataValue) → IsInt v → Holds E (λ n. v ≡ value_int n) (length_of errors.out_of_range v)
  length_of-value (value_int w) h =
      Holds-if E (λ n. value_int w ≡ value_int n) (ltb 255 w) _ _ (λ _. bad_range) (λ _. refl)
  length_of-value value_null h = absurd h
  length_of-value (value_string s) h = absurd h
  length_of-value (value_binary b) h = absurd h
  length_of-value (value_float w) h = absurd h

  column_type_length-IsGivenLength :
      (type : ColumnTypeDef) → Holds E (IsGivenLength type) (column_type_length errors type)
  unfolding column_type_length
  column_type_length-IsGivenLength type =
      Holds-if E (IsGivenLength type) type.has_len _ _
        (λ _.
          Holds-and_then E (λ v. IsInt v × (convert_int type.len ≡ convert_ok v))
            (IsGivenLength type) _ _
            (converted-ok (convert_int type.len) (convert_int-OfInt type.len))
            (λ v _ int.
              Holds-imp E (λ n. v ≡ value_int n) (IsGivenLength type) _ (length_of-value v int.0)
                (λ n same _. int.1 ∙ ap convert_ok same)))
        (λ not_given has. cc)

  pub column_type-IsNamed :
      (type : ColumnTypeDef) → Holds E (IsNamed type) (column_type errors type)
  unfolding column_type
  column_type-IsNamed type =
      Holds-and_then E (IsGivenLength type) (IsNamed type) _ _
        (column_type_length-IsGivenLength type)
        (λ len _ given.
          resolved-IsNamed type len _
            (resolve_type-Resolves (sv_to_cstr type.name 16) type.has_len len) given)
