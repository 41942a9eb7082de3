-- ===== src/Types/Resolve.antt =====
-- src/types/mapper.c: from the name and the length in a column's definition to its type, and the check
-- of a value against it.
use maxql.Prelude.{
  ℕ, ◌+◌, ◌/◌, ◌%◌, ◌≤◌, ◌<◌, List, [], ◌∷◌, ◌++◌, Bool, true, false, Option, none, some, ◌≡◌, refl,
  Ordering, take, ltb, ◌==◌, if◌then◌else◌, Bool-cases, inl, inr, ltb→le, ltb→lt, All,
}
use Prim.Native.Nat.Ordering.{lt, eq, gt}
use maxql.Types.Compare.{strcmp}
use maxql.Types.Value.{
  ColumnType, type_int, type_varchar, type_char, type_binary, type_float, ValueType, null_type,
  int_type, string_type, binary_type, float_type, DataValue, value_type,
}
use maxql.Types.Mapper.{
  TypeInfo, type_mapping, TypeValidateResult, validate_ok, validate_type_mismatch,
}

pub record ResolvedType : Type 0 where
  pub type_info : TypeInfo
  pub byte_len : ℕ
  pub resolved_type_name : List ℕ

-- `resolve_ok` holds what is written to `out`.
pub data TypeResolveResult : Type 0 where
  resolve_ok : ResolvedType → TypeResolveResult
  resolve_unknown_type resolve_length_not_expected resolve_length_required : TypeResolveResult
  resolve_length_too_big resolve_length_too_small resolve_misconfigured : TypeResolveResult

abbrev pub column_types : List ColumnType
column_types = type_int ∷ type_varchar ∷ type_char ∷ type_binary ∷ type_float ∷ []

abbrev pub is_eq : Ordering → Bool
is_eq eq = true
is_eq lt = false
is_eq gt = false

-- The loop over the table.
unfoldable pub find_type : List ℕ → List ColumnType → Option ColumnType
unfolding type_mapping strcmp
find_type name [] = none
find_type name (c ∷ cs) =
    if is_eq (strcmp name (type_mapping c).type_name) then some c else find_type name cs

unfoldable pub type_by_name : List ℕ → Option ColumnType
unfolding find_type
type_by_name name = find_type name column_types

-- `%i` of a number below 1000.
abbrev pub decimal : ℕ → List ℕ
decimal n =
    if ltb n 10
    then (48 + n) ∷ []
    else if ltb n 100
    then (48 + n / 10) ∷ (48 + n % 10) ∷ []
    else (48 + n / 100) ∷ (48 + n / 10 % 10) ∷ (48 + n % 10) ∷ []

-- `%s(%i)` in a buffer of 16 bytes, the 0 at the end not written.
abbrev pub sized_name : List ℕ → ℕ → List ℕ
sized_name name len = take 15 (name ++ 40 ∷ decimal len ++ 41 ∷ [])

-- A type that takes a length, and one that does not.
unfoldable pub resolve_sized : TypeInfo → List ℕ → Bool → ℕ → TypeResolveResult
resolve_sized t name false len = resolve_length_required
resolve_sized t name true len =
    if ltb t.max_len len
    then resolve_length_too_big
    else if ltb len t.min_len
    then resolve_length_too_small
    else resolve_ok
        (record { type_info = t; byte_len = len; resolved_type_name = sized_name name len })

unfoldable pub resolve_fixed : TypeInfo → List ℕ → Bool → TypeResolveResult
resolve_fixed t name true = resolve_length_not_expected
resolve_fixed t name false =
    if t.fixed_size == 0
    then resolve_misconfigured
    else resolve_ok
        (record { type_info = t; byte_len = t.fixed_size; resolved_type_name = take 15 name })

unfoldable pub resolve_found : Option ColumnType → List ℕ → Bool → ℕ → TypeResolveResult
unfolding type_mapping resolve_sized resolve_fixed
resolve_found none name has_len len = resolve_unknown_type
resolve_found (some c) name has_len len =
    let t = type_mapping c in
    if t.expects_len then resolve_sized t name has_len len else resolve_fixed t name has_len

unfoldable pub resolve_type : List ℕ → Bool → ℕ → TypeResolveResult
unfolding type_by_name resolve_found
resolve_type name has_len len = resolve_found (type_by_name name) name has_len len

abbrev pub same_type : ValueType → ValueType → Bool
same_type null_type null_type = true
same_type int_type int_type = true
same_type string_type string_type = true
same_type binary_type binary_type = true
same_type float_type float_type = true
same_type _ _ = false

unfoldable pub resolved_type_validate : ResolvedType → DataValue → Option TypeValidateResult
resolved_type_validate rt value =
    if same_type (value_type value) rt.type_info.value_type
    then elim rt.type_info.validate [
      | none ↦ some validate_ok
      | some check ↦ check value rt.byte_len
    ]
    else some validate_type_mismatch

-- The lengths that a column of a type can have.
abbrev pub IsWidth : ColumnType → ℕ → Type 0
IsWidth type_int n = n ≡ 4
IsWidth type_varchar n = (1 ≤ n) × (n ≤ 255)
IsWidth type_char n = (1 ≤ n) × (n ≤ 128)
IsWidth type_binary n = (1 ≤ n) × (n ≤ 128)
IsWidth type_float n = n ≡ 4

-- What a resolved type is.
pub record IsResolved (name : List ℕ) (has_len : Bool) (len : ℕ) (rt : ResolvedType) : Type 0 where
  pub column : ColumnType
  pub info : rt.type_info ≡ type_mapping column
  pub named : strcmp name rt.type_info.type_name ≡ eq
  pub width : IsWidth column rt.byte_len
  pub length_given : rt.type_info.expects_len ≡ has_len
  pub length_kept : rt.byte_len ≡ (if has_len then len else 4)

-- An entry of the table by its name, and whether it takes a length.
abbrev pub IsEntry : List ℕ → Bool → ColumnType → Type 0
IsEntry name takes_len c =
    (strcmp name (type_mapping c).type_name ≡ eq) × ((type_mapping c).expects_len ≡ takes_len)

-- What the resolution of a type answers.
abbrev pub Resolves : List ℕ → Bool → ℕ → TypeResolveResult → Type 0
Resolves name has_len len (resolve_ok rt) = IsResolved name has_len len rt
Resolves name has_len len resolve_unknown_type =
    All (λ c. is_eq (strcmp name (type_mapping c).type_name) ≡ false) column_types
Resolves name has_len len resolve_misconfigured = ⊥
Resolves name has_len len resolve_length_not_expected =
    (c : ColumnType) × IsEntry name false c × (has_len ≡ true)
Resolves name has_len len resolve_length_required =
    (c : ColumnType) × IsEntry name true c × (has_len ≡ false)
Resolves name has_len len resolve_length_too_big =
    (c : ColumnType) × IsEntry name true c × (has_len ≡ true) × ((type_mapping c).max_len < len)
Resolves name has_len len resolve_length_too_small =
    (c : ColumnType) × IsEntry name true c × (has_len ≡ true) × (len < (type_mapping c).min_len)

eq_of_is_eq : (o : Ordering) → is_eq o ≡ true → o ≡ eq
eq_of_is_eq eq h = refl
eq_of_is_eq lt h = cc
eq_of_is_eq gt h = cc

find_type-named :
    (name : List ℕ) (cs : List ColumnType) (c : ColumnType)
    → find_type name cs ≡ some c
    → strcmp name (type_mapping c).type_name ≡ eq
unfolding find_type
find_type-named name [] c h = cc
find_type-named name (d ∷ cs) c h =
    elim (Bool-cases (is_eq (strcmp name (type_mapping d).type_name))) [
      | inl same ↦
          let here : some d ≡ some c = rw (find_type, same) at h in
          let e : d ≡ c = cc in rw (← e) (eq_of_is_eq _ same)
      | inr other ↦ find_type-named name cs c (rw (find_type, other) at h)
    ]

find_type-none :
    (name : List ℕ) (cs : List ColumnType)
    → find_type name cs ≡ none
    → All (λ c. is_eq (strcmp name (type_mapping c).type_name) ≡ false) cs
unfolding find_type
find_type-none name [] h = tt
find_type-none name (d ∷ cs) h =
    elim (Bool-cases (is_eq (strcmp name (type_mapping d).type_name))) [
      | inl same ↦ let found : some d ≡ none = rw (find_type, same) at h in cc
      | inr other ↦ (other, find_type-none name cs (rw (find_type, other) at h))
    ]

Resolves-if :
    (name : List ℕ) (has_len : Bool) (len : ℕ) (b : Bool) (r s : TypeResolveResult)
    → (b ≡ true → Resolves name has_len len r)
    → (b ≡ false → Resolves name has_len len s)
    → Resolves name has_len len (if b then r else s)
Resolves-if name has_len len true r s f g = f refl
Resolves-if name has_len len false r s f g = g refl

Resolves-sized :
    (name : List ℕ) (c : ColumnType) (len : ℕ)
    → ((type_mapping c).min_len ≤ len → len ≤ (type_mapping c).max_len → IsWidth c len)
    → (type_mapping c).expects_len ≡ true
    → strcmp name (type_mapping c).type_name ≡ eq
    → Resolves name true len (resolve_sized (type_mapping c) name true len)
unfolding resolve_sized
Resolves-sized name c len width takes named =
    let t = type_mapping c in
    Resolves-if name true len (ltb t.max_len len) _ _
      (λ big. (c, (named, takes), refl, ltb→lt _ _ big))
      (λ fits.
        Resolves-if name true len (ltb len t.min_len) _ _
          (λ small. (c, (named, takes), refl, ltb→lt _ _ small))
          (λ enough. record {
            column = c;
            info = refl;
            named = named;
            width = width (ltb→le _ _ enough) (ltb→le _ _ fits);
            length_given = takes;
            length_kept = refl;
          }))

-- At one type of the table.
resolve_found-Resolves :
    (name : List ℕ) (c : ColumnType) (has_len : Bool) (len : ℕ)
    → strcmp name (type_mapping c).type_name ≡ eq
    → Resolves name has_len len (resolve_found (some c) name has_len len)
unfolding resolve_found type_mapping
resolve_found-Resolves name type_int true len named = (type_int, (named, refl), refl)
resolve_found-Resolves name type_int false len named = record {
  column = type_int;
  info = refl;
  named = named;
  width = refl;
  length_given = refl;
  length_kept = refl;
}
resolve_found-Resolves name type_varchar true len named =
    Resolves-sized name type_varchar len (λ a b. (a, b)) refl named
resolve_found-Resolves name type_varchar false len named = (type_varchar, (named, refl), refl)
resolve_found-Resolves name type_char true len named =
    Resolves-sized name type_char len (λ a b. (a, b)) refl named
resolve_found-Resolves name type_char false len named = (type_char, (named, refl), refl)
resolve_found-Resolves name type_binary true len named =
    Resolves-sized name type_binary len (λ a b. (a, b)) refl named
resolve_found-Resolves name type_binary false len named = (type_binary, (named, refl), refl)
resolve_found-Resolves name type_float true len named = (type_float, (named, refl), refl)
resolve_found-Resolves name type_float false len named = record {
  column = type_float;
  info = refl;
  named = named;
  width = refl;
  length_given = refl;
  length_kept = refl;
}

-- A column's type resolves to an entry of the table that has the name given, with a length exactly
-- where the entry expects one; the length is kept and within the entry's limits, and is 4 where the
-- type has none. Each refusal has its reason: no entry has the name; the entry of the name takes no
-- length, and one is given; it takes one, and none is given, or it is above or below the entry's limits.
-- The table never shows to be misconfigured.
pub resolve_type-Resolves :
    (name : List ℕ) (has_len : Bool) (len : ℕ)
    → Resolves name has_len len (resolve_type name has_len len)
unfolding resolve_type type_by_name
resolve_type-Resolves name has_len len = go (type_by_name name) refl
  where
    go :
        (found : Option ColumnType)
        → type_by_name name ≡ found
        → Resolves name has_len len (resolve_found found name has_len len)
    go none h = find_type-none name column_types h
    go (some c) h =
        resolve_found-Resolves name c has_len len (find_type-named name column_types c h)
