-- ===== src/Engine/DmlValidator/Laws.antt =====
-- What a statement satisfies that passes src/engine/dml/validator.c or `validate_create_table`.
use maxql.Prelude.{
  ℕ, ◌≤◌, List, [], ◌∷◌, Bool, true, false, Option, none, some, ◌≡◌, ◌↔◌, ltb, length, arith, All,
  ltb→le, le→ltb, refl,
}
use Prim.Native.String.{String}
use maxql.Core.Error.{Error, error_ok, error_is_ok}
use maxql.Core.StrView.{StrView, sv_equal, sv_to_cstr}
use maxql.Parser.Ast.{Assignment, Condition, ColumnDef}
use maxql.Types.Value.{ColumnType}
use maxql.Types.Resolve.{type_by_name}
use maxql.Engine.DdlValidator.{reject_if, passed}
use maxql.Engine.DmlValidator.{
  some_long, same_later, some_same, assigned, compared, defined, is_unknown, validate_where,
  validate_assignments, validate_column_defs,
}

-- Names within the limit, of which no two are the same text.
abbrev pub AreShort : List StrView → Type 0
AreShort cs = All (λ c. c.len ≤ 31) cs

abbrev pub AreApart : List StrView → Type 0
AreApart [] = Unit
AreApart (c ∷ cs) = All (λ d. sv_equal c d ≡ false) cs × AreApart cs

pub some_long-AreShort : (cs : List StrView) → (some_long cs ≡ false) ↔ AreShort cs
unfolding some_long
some_long-AreShort [] = (λ h. tt, λ h. refl)
some_long-AreShort (c ∷ cs) =
    let (to, from) = some_long-AreShort cs in
    (λ h. (ground arith, to (ground arith)), λ h. ground (arith, from h.1))

same_later-All :
    (c : StrView) (cs : List StrView)
    → (same_later c cs ≡ false) ↔ All (λ d. sv_equal c d ≡ false) cs
unfolding same_later
same_later-All c [] = (λ h. tt, λ h. refl)
same_later-All c (d ∷ ds) =
    let (to, from) = same_later-All c ds in
    (λ h. (ground arith, to (ground arith)), λ h. ground (arith, from h.1))

pub some_same-AreApart : (cs : List StrView) → (some_same cs ≡ false) ↔ AreApart cs
unfolding some_same
some_same-AreApart [] = (λ h. tt, λ h. refl)
some_same-AreApart (c ∷ cs) =
    let (to, from) = some_same-AreApart cs in
    let (to_one, from_one) = same_later-All c cs in
    (λ h. (to_one (ground arith), to (ground arith)), λ h. ground (arith, from h.1, from_one h.0))

-- A check and the rest are passed exactly if the check does not fire and the rest is passed.
pub reject_if-ok :
    {P Q : Type 0} (b : Bool) (msg : String) (rest : Error)
    → (b ≡ false) ↔ P
    → (error_is_ok rest ≡ true) ↔ Q
    → (error_is_ok (reject_if b msg rest) ≡ true) ↔ (P × Q)
unfolding reject_if
reject_if-ok b msg rest (to, from) (to_rest, from_rest) = (
  λ h. let (off, ok) = passed b msg rest h in (to off, to_rest ok),
  λ h. rw (reject_if, from h.0) (from_rest h.1),
)

-- A bound as it is tested.
pub bound-ok : (limit n : ℕ) → (ltb limit n ≡ false) ↔ (n ≤ limit)
bound-ok limit n = (ltb→le limit n, le→ltb limit n)

-- The last check.
pub last-ok :
    {P : Type 0} (b : Bool) (msg : String)
    → (b ≡ false) ↔ P
    → (error_is_ok (reject_if b msg error_ok) ≡ true) ↔ P
unfolding reject_if
last-ok b msg (to, from) = (λ h. to (passed b msg error_ok h).0, λ h. rw (reject_if, from h) refl)

-- Conditions within the limits.
abbrev pub IsWhere : List Condition → Type 0
IsWhere cs = (length cs ≤ 8) × AreShort (compared cs)

pub validate_where-IsWhere :
    (cs : List Condition) → (error_is_ok (validate_where cs) ≡ true) ↔ IsWhere cs
unfolding validate_where
validate_where-IsWhere cs =
    reject_if-ok _ _ _ (bound-ok 8 (length cs)) (last-ok _ _ (some_long-AreShort (compared cs)))

-- Assignments within the limits, to distinct columns.
abbrev pub AreAssignments : List Assignment → Type 0
AreAssignments xs = (length xs ≤ 16) × (AreShort (assigned xs) × AreApart (assigned xs))

pub validate_assignments-AreAssignments :
    {Q : Type 0} (xs : List Assignment) (rest : Error)
    → (error_is_ok rest ≡ true) ↔ Q
    → (error_is_ok (validate_assignments xs rest) ≡ true) ↔ (AreAssignments xs × Q)
unfolding validate_assignments
validate_assignments-AreAssignments xs rest q =
    let (to, from) = reject_if-ok _ _ _ (bound-ok 16 (length xs)) (
      reject_if-ok _ _ _ (some_long-AreShort (assigned xs))
        (reject_if-ok _ _ _ (some_same-AreApart (assigned xs)) q)) in
    (
      λ h. let (few, (short, (apart, more))) = to h in ((few, (short, apart)), more),
      λ h. from (h.0.0, (h.0.1.0, (h.0.1.1, h.1))),
    )

-- A column's name and its type's within the limits, of a type in the table.
abbrev pub IsColumn : ColumnDef → Type 0
IsColumn d =
    (d.column.len ≤ 31)
    × (d.type.name.len ≤ 15)
    × ((c : ColumnType) × (type_by_name (sv_to_cstr d.type.name 16) ≡ some c))

is_unknown-false :
    (o : Option ColumnType) → (is_unknown o ≡ false) ↔ ((c : ColumnType) × (o ≡ some c))
is_unknown-false none = (λ h. cc, λ h. let e = h.1 in cc)
is_unknown-false (some c) = (λ h. (c, refl), λ h. refl)

-- Such columns, with distinct names.
abbrev pub AreColumns : List ColumnDef → Type 0
AreColumns [] = Unit
AreColumns (d ∷ ds) =
    All (λ e. sv_equal d.column e ≡ false) (defined ds) × IsColumn d × AreColumns ds

pub validate_column_defs-AreColumns :
    {Q : Type 0} (ds : List ColumnDef) (rest : Error)
    → (error_is_ok rest ≡ true) ↔ Q
    → (error_is_ok (validate_column_defs ds rest) ≡ true) ↔ (AreColumns ds × Q)
unfolding validate_column_defs
validate_column_defs-AreColumns [] rest (to, from) = (λ h. (tt, to h), λ h. from h.1)
validate_column_defs-AreColumns (d ∷ ds) rest q =
    let (to, from) = reject_if-ok _ _ _ (same_later-All d.column (defined ds)) (
      reject_if-ok _ _ _ (bound-ok 31 d.column.len) (
        reject_if-ok _ _ _ (bound-ok 15 d.type.name.len) (
          reject_if-ok _ _ _ (is_unknown-false (type_by_name (sv_to_cstr d.type.name 16)))
            (validate_column_defs-AreColumns ds rest q)))) in
    (
      λ h.
          let (apart, (short, (type_short, (known, later)))) = to h in
          ((apart, (short, type_short, known), later.0), later.1),
      λ h. from (h.0.0, (h.0.1.0, (h.0.1.1, (h.0.1.2, (h.0.2, h.1))))),
    )
