-- ===== src/Schema/Columns.antt =====
-- The columns of a schema, and the values that pass the check of include/maxql/types/types.h for them.
use maxql.Prelude.{
  ℕ, List, Bool, true, false, Option, none, some, ◌≡◌, refl, sym, arith, length, ltb, ltb→le,
  if◌then◌else◌,
}
use mathlib.Core.Path.{subst}
use maxql.Core.StrView.{strlen}
use maxql.Types.Value.{
  ColumnType, type_int, type_varchar, type_char, type_binary, type_float, DataValue, value_null,
  value_int, value_string, value_binary, value_float,
}
use maxql.Types.Mapper.{
  type_mapping, TypeValidateResult, validate_ok, validate_type_mismatch, validate_value_too_long,
}
use maxql.Types.Mapper.RoundTrip.{Fits, strlen-length}
use maxql.Types.Resolve.{ResolvedType, resolved_type_validate, IsWidth}
use maxql.Types.Converter.Bounds.{IsValue}
use maxql.Schema.Table.{Column}

-- A type of the table, with a length that it can have.
pub record IsTyped (rt : ResolvedType) : Type 0 where
  pub entry : rt.type_info ≡ type_mapping rt.type_info.column_type
  pub width : IsWidth rt.type_info.column_type rt.byte_len

abbrev pub FitsType : ResolvedType → DataValue → Type 0
FitsType rt v = Fits rt.type_info.column_type rt.byte_len v

abbrev pub FitsColumn : Column → DataValue → Type 0
FitsColumn c v = FitsType c.resolved_type v

-- A column of such a type, whose default fits it.
pub record IsColumn (c : Column) : Type 0 where
  pub typed : IsTyped c.resolved_type
  pub default : c.has_default ≡ true → FitsColumn c c.default_value

-- A check that passes says that the value fits.
abbrev pub Validated : ColumnType → ℕ → DataValue → Option TypeValidateResult → Type 0
Validated c n v none = ⊥
Validated c n v (some validate_ok) = Fits c n v
Validated c n v (some validate_type_mismatch) = Unit
Validated c n v (some validate_value_too_long) = Unit

Validated-if :
    (c : ColumnType) (n : ℕ) (v : DataValue) (b : Bool)
    → (b ≡ false → Fits c n v)
    → Validated c n v (some (if b then validate_value_too_long else validate_ok))
Validated-if c n v true h = tt
Validated-if c n v false h = h refl

type_of : ColumnType → ℕ → List ℕ → ResolvedType
type_of c n name = record { type_info = type_mapping c; byte_len = n; resolved_type_name = name }

type_of-Validated :
    (c : ColumnType) (n : ℕ) (name : List ℕ) (v : DataValue)
    → IsWidth c n
    → IsValue v
    → Validated c n v (resolved_type_validate (type_of c n name) v)
unfolding type_of resolved_type_validate type_mapping
type_of-Validated type_int n name value_null h k = absurd k
type_of-Validated type_int n name (value_int w) h k = (h, k)
type_of-Validated type_int n name (value_string s) h k = tt
type_of-Validated type_int n name (value_binary b) h k = tt
type_of-Validated type_int n name (value_float w) h k = tt
type_of-Validated type_varchar n name value_null h k = absurd k
type_of-Validated type_varchar n name (value_int w) h k = tt
type_of-Validated type_varchar n name (value_string s) h k =
    Validated-if type_varchar n (value_string s) (ltb n (strlen s))
      (λ fits. (omega (arith, ltb→le _ _ fits, strlen-length s k.1), omega (arith, h), k.1))
type_of-Validated type_varchar n name (value_binary b) h k = tt
type_of-Validated type_varchar n name (value_float w) h k = tt
type_of-Validated type_char n name value_null h k = absurd k
type_of-Validated type_char n name (value_int w) h k = tt
type_of-Validated type_char n name (value_string s) h k =
    Validated-if type_char n (value_string s) (ltb n (strlen s))
      (λ fits. (omega (arith, ltb→le _ _ fits, strlen-length s k.1), omega (arith, h), k.1))
type_of-Validated type_char n name (value_binary b) h k = tt
type_of-Validated type_char n name (value_float w) h k = tt
type_of-Validated type_binary n name value_null h k = absurd k
type_of-Validated type_binary n name (value_int w) h k = tt
type_of-Validated type_binary n name (value_string s) h k = tt
type_of-Validated type_binary n name (value_binary b) h k =
    Validated-if type_binary n (value_binary b) (ltb n (length b))
      (λ fits. (ltb→le _ _ fits, omega (arith, h)))
type_of-Validated type_binary n name (value_float w) h k = tt
type_of-Validated type_float n name value_null h k = absurd k
type_of-Validated type_float n name (value_int w) h k = tt
type_of-Validated type_float n name (value_string s) h k = tt
type_of-Validated type_float n name (value_binary b) h k = tt
type_of-Validated type_float n name (value_float w) h k = (h, k)

-- A value of a literal that passes the check fits a column of the type; the check never reads another
-- member of the union than the one stored.
pub resolved_type_validate-Validated :
    (rt : ResolvedType) (v : DataValue)
    → IsTyped rt
    → IsValue v
    → Validated rt.type_info.column_type rt.byte_len v (resolved_type_validate rt v)
unfolding type_of
resolved_type_validate-Validated rt v typed h =
    let c = rt.type_info.column_type in
    subst
      (λ t. Validated c rt.byte_len v (
        resolved_type_validate
          (record {
            type_info = t;
            byte_len = rt.byte_len;
            resolved_type_name = rt.resolved_type_name;
          })
          v))
      (sym typed.entry) (type_of-Validated c rt.byte_len rt.resolved_type_name v typed.width h)
