-- ===== src/Engine/Checks.antt =====
-- The checks that src/engine/dml/analyzer.c and src/engine/ddl/planner.c share: a name that is looked up,
-- a literal that is converted, and a value that is checked against its column's type.
use maxql.Prelude.{ℕ, ◌<◌, List, Option, none, some, ◌≡◌, refl, All}
use maxql.Core.Error.{Error}
use maxql.Core.Result.{Result, done, refused, undefined, Holds}
use maxql.Parser.Ast.{LiteralType, RawValue}
use maxql.Types.Value.{DataValue}
use maxql.Types.Mapper.{
  TypeValidateResult, validate_ok, validate_type_mismatch, validate_value_too_long,
}
use maxql.Types.Converter.{
  ConvertResult, convert_ok, convert_not_a_number, convert_out_of_range, convert_too_long,
  convert_bad_hex, Strtof, convert_value,
}
use maxql.Types.Converter.Bounds.{
  IsValue, OfLiteral, IsByte, IsInt, OfInt, Converted, convert_value-Converted,
}
use maxql.Types.Resolve.{ResolvedType}
use maxql.Schema.Columns.{FitsType, Validated}

-- The error is the return where nothing is found.
abbrev pub found {ℓ} : {A : Type ℓ} → Error → Option A → Result A
found e none = refused e
found e (some a) = done a

-- The error is the return where something is found.
abbrev pub unless_found {ℓ κ} : {A : Type ℓ} {B : Type κ} → Error → Option A → Result B → Result B
unless_found e none rest = rest
unless_found e (some a) rest = refused e

abbrev pub converted : Error → ConvertResult → Result DataValue
converted e (convert_ok v) = done v
converted e convert_not_a_number = refused e
converted e convert_out_of_range = refused e
converted e convert_too_long = refused e
converted e convert_bad_hex = refused e

-- A check of a value that reads another member of the union than the one stored is undefined.
abbrev pub validated : Error → Option TypeValidateResult → DataValue → Result DataValue
validated e none v = undefined
validated e (some validate_ok) v = done v
validated e (some validate_type_mismatch) v = refused e
validated e (some validate_value_too_long) v = refused e

unfoldable pub raw_value : (List ℕ → Strtof) → Error → RawValue → Result DataValue
unfolding convert_value
raw_value strtof e value = converted e (convert_value strtof value.type value.value)

-- The text of a literal is bytes.
abbrev pub IsText : RawValue → Type 0
IsText value = All IsByte value.value.ptr

-- A value of a literal of a kind.
abbrev pub IsLiteral : LiteralType → DataValue → Type 0
IsLiteral type v = IsValue v × OfLiteral type v

pub Holds-unless_found {ℓ κ} :
    {A : Type ℓ} {B : Type κ} (E : Error → Type 0) (P : B → Type 0) (e : Error) (o : Option A)
    (rest : Result B)
    → E e
    → (o ≡ none → Holds E P rest)
    → Holds E P (unless_found e o rest)
Holds-unless_found E P e none rest bad h = h refl
Holds-unless_found E P e (some a) rest bad h = bad

-- What a literal converts to.
abbrev pub Converts : (List ℕ → Strtof) → RawValue → DataValue → Type 0
Converts strtof value v = convert_value strtof value.type value.value ≡ convert_ok v

pub raw_value-Converts :
    (strtof : List ℕ → Strtof) (e : Error) (value : RawValue) (v : DataValue)
    → raw_value strtof e value ≡ done v
    → Converts strtof value v
unfolding raw_value
raw_value-Converts strtof e value v h = go (convert_value strtof value.type value.value) h
  where
    go : (r : ConvertResult) → converted e r ≡ done v → r ≡ convert_ok v
    go (convert_ok w) k = cc
    go convert_not_a_number k = cc
    go convert_out_of_range k = cc
    go convert_too_long k = cc
    go convert_bad_hex k = cc

module _ (E : Error → Type 0) (e : Error) (bad : E e) where
  pub validated-Fits :
      (rt : ResolvedType) (o : Option TypeValidateResult) (v : DataValue)
      → Validated rt.type_info.column_type rt.byte_len v o
      → Holds E (FitsType rt) (validated e o v)
  validated-Fits rt none v h = h
  validated-Fits rt (some validate_ok) v h = h
  validated-Fits rt (some validate_type_mismatch) v h = bad
  validated-Fits rt (some validate_value_too_long) v h = bad

  pub converted-IsLiteral :
      (type : LiteralType) (r : ConvertResult)
      → Converted type r
      → Holds E (IsLiteral type) (converted e r)
  converted-IsLiteral type (convert_ok v) h = h
  converted-IsLiteral type convert_not_a_number h = bad
  converted-IsLiteral type convert_out_of_range h = bad
  converted-IsLiteral type convert_too_long h = bad
  converted-IsLiteral type convert_bad_hex h = bad

  pub converted-IsInt : (r : ConvertResult) → OfInt r → Holds E IsInt (converted e r)
  converted-IsInt (convert_ok v) h = h
  converted-IsInt convert_not_a_number h = bad
  converted-IsInt convert_out_of_range h = bad
  converted-IsInt convert_too_long h = bad
  converted-IsInt convert_bad_hex h = bad

  -- The value after a check is the one before.
  pub validated-same :
      (P : DataValue → Type 0) (o : Option TypeValidateResult) (v : DataValue)
      → Holds E P (validated e o v)
      → Holds E (λ w. P w × (v ≡ w)) (validated e o v)
  validated-same P none v h = h
  validated-same P (some validate_ok) v h = (h, refl)
  validated-same P (some validate_type_mismatch) v h = bad
  validated-same P (some validate_value_too_long) v h = bad

  -- A literal gives a value of its kind and its range.
  pub raw_value-IsLiteral :
      (strtof : List ℕ → Strtof) (value : RawValue)
      → ((s : List ℕ) → (strtof s).value < 4294967296)
      → IsText value
      → Holds E (IsLiteral value.type) (raw_value strtof e value)
  unfolding raw_value
  raw_value-IsLiteral strtof value single h =
      converted-IsLiteral value.type (convert_value strtof value.type value.value)
        (convert_value-Converted strtof single value.type value.value h)
