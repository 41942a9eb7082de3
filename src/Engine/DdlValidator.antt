-- ===== src/Engine/DdlValidator.antt =====
-- src/engine/ddl/validator.c: the checks of the statements on indexes, and of those that name a table
-- only; with what a checked index statement satisfies.
use maxql.Prelude.{
  ℕ, ◌≤◌, List, [], ◌∷◌, Bool, true, false, ◌||◌, ◌≡◌, ◌↔◌, ltb, length, arith, All, ltb→le, le→ltb,
  refl,
}
use Prim.Native.String.{String}
use maxql.Core.Error.{Error, error_ok, error_fmt, error_is_ok, err_validator}
use maxql.Core.StrView.{StrView, sv_equal}
use maxql.Parser.Ast.{
  IndexKeyPart, CreateIndexStmt, DropIndexStmt, DropTableStmt, TruncateTableStmt,
}

abbrev pub max_table_name_size : ℕ
max_table_name_size = 31

abbrev pub max_column_name_size : ℕ
max_column_name_size = 31

abbrev pub max_index_name_size : ℕ
max_index_name_size = 31

abbrev pub max_index_type_name_size : ℕ
max_index_type_name_size = 16

abbrev pub max_index_column_count : ℕ
max_index_column_count = 4

-- A check that returns early, and what is done after it.
unfoldable pub reject_if : Bool → String → Error → Error
reject_if true msg rest = error_fmt err_validator msg
reject_if false msg rest = rest

-- The loop over the lengths of the column names.
unfoldable pub some_too_long : List IndexKeyPart → Bool
some_too_long [] = false
some_too_long (p ∷ ps) = ltb max_column_name_size p.column.len || some_too_long ps

-- The inner loop over the parts behind one, and the outer loop.
unfoldable pub occurs_in : StrView → List IndexKeyPart → Bool
occurs_in column [] = false
occurs_in column (p ∷ ps) = sv_equal column p.column || occurs_in column ps

unfoldable pub some_twice : List IndexKeyPart → Bool
unfolding occurs_in
some_twice [] = false
some_twice (p ∷ ps) = occurs_in p.column ps || some_twice ps

unfoldable pub validate_create_index : CreateIndexStmt → Error
unfolding reject_if some_too_long some_twice
validate_create_index s = reject_if (ltb max_index_name_size s.name.len) "Index name is too long" (
    reject_if (ltb max_index_type_name_size s.type.len) "Index type is too long" (
      reject_if (ltb max_table_name_size s.table.len) "Table name is too long" (
        reject_if (ltb max_index_column_count (length s.key_parts)) "Too many key parts provided" (
          reject_if (some_too_long s.key_parts) "Column name is too long" (
            reject_if (some_twice s.key_parts) "Index must not have duplicate columns" error_ok)))))

unfoldable pub validate_drop_index : DropIndexStmt → Error
unfolding reject_if
validate_drop_index s =
    reject_if (ltb max_table_name_size s.table.len) "Table name is too long"
      (reject_if (ltb max_index_name_size s.index.len) "Index name is too long" error_ok)

unfoldable pub validate_drop_table : DropTableStmt → Error
unfolding reject_if
validate_drop_table s =
    reject_if (ltb max_table_name_size s.table.len) "Table name is too long" error_ok

unfoldable pub validate_truncate_table : TruncateTableStmt → Error
unfolding reject_if
validate_truncate_table s =
    reject_if (ltb max_table_name_size s.table.len) "Table name is too long" error_ok

-- No two columns of the parts are the same text.
abbrev pub AreDistinct : List IndexKeyPart → Type 0
AreDistinct [] = Unit
AreDistinct (p ∷ ps) = All (λ q. sv_equal p.column q.column ≡ false) ps × AreDistinct ps

-- An index statement within the limits, with distinct columns.
pub record IsIndexStmt (s : CreateIndexStmt) : Type 0 where
  pub name_fits : s.name.len ≤ 31
  pub type_fits : s.type.len ≤ 16
  pub table_fits : s.table.len ≤ 31
  pub few_parts : length s.key_parts ≤ 4
  pub columns_fit : All (λ p. p.column.len ≤ 31) s.key_parts
  pub distinct : AreDistinct s.key_parts

fit_of : (ps : List IndexKeyPart) → some_too_long ps ≡ false → All (λ p. p.column.len ≤ 31) ps
unfolding some_too_long
fit_of [] h = tt
fit_of (p ∷ ps) h = (ground arith, fit_of ps (ground arith))

of_fit : (ps : List IndexKeyPart) → All (λ p. p.column.len ≤ 31) ps → some_too_long ps ≡ false
unfolding some_too_long
of_fit [] h = refl
of_fit (p ∷ ps) h = ground (arith, of_fit ps h.1)

absent_of :
    (c : StrView) (ps : List IndexKeyPart)
    → occurs_in c ps ≡ false
    → All (λ q. sv_equal c q.column ≡ false) ps
unfolding occurs_in
absent_of c [] h = tt
absent_of c (p ∷ ps) h = (ground arith, absent_of c ps (ground arith))

of_absent :
    (c : StrView) (ps : List IndexKeyPart)
    → All (λ q. sv_equal c q.column ≡ false) ps
    → occurs_in c ps ≡ false
unfolding occurs_in
of_absent c [] h = refl
of_absent c (p ∷ ps) h = ground (arith, of_absent c ps h.1)

distinct_of : (ps : List IndexKeyPart) → some_twice ps ≡ false → AreDistinct ps
unfolding some_twice
distinct_of [] h = tt
distinct_of (p ∷ ps) h = (absent_of p.column ps (ground arith), distinct_of ps (ground arith))

of_distinct : (ps : List IndexKeyPart) → AreDistinct ps → some_twice ps ≡ false
unfolding some_twice
of_distinct [] h = refl
of_distinct (p ∷ ps) h = ground (arith, of_absent p.column ps h.0, of_distinct ps h.1)

pub passed :
    (b : Bool) (msg : String) (rest : Error)
    → error_is_ok (reject_if b msg rest) ≡ true
    → (b ≡ false) × (error_is_ok rest ≡ true)
unfolding reject_if
passed true msg rest h = cc
passed false msg rest h = (refl, h)

-- An index statement is accepted exactly if the names of the index, of its type and of the table
-- and of every column are within their limits, it has at most four key parts, and no two of them
-- name the same column.
pub validate_create_index-IsIndexStmt :
    (s : CreateIndexStmt) → (error_is_ok (validate_create_index s) ≡ true) ↔ IsIndexStmt s
unfolding validate_create_index
validate_create_index-IsIndexStmt s = (accepted, fits)
  where
    accepted : error_is_ok (validate_create_index s) ≡ true → IsIndexStmt s
    accepted h =
        let (a, h₁) = passed _ _ _ h in
        let (b, h₂) = passed _ _ _ h₁ in
        let (c, h₃) = passed _ _ _ h₂ in
        let (d, h₄) = passed _ _ _ h₃ in
        let (e, h₅) = passed _ _ _ h₄ in
        record {
          name_fits = ltb→le _ _ a;
          type_fits = ltb→le _ _ b;
          table_fits = ltb→le _ _ c;
          few_parts = ltb→le _ _ d;
          columns_fit = fit_of s.key_parts e;
          distinct = distinct_of s.key_parts (passed _ _ _ h₅).0;
        }

    fits : IsIndexStmt s → error_is_ok (validate_create_index s) ≡ true
    fits v =
        rw
          (
            le→ltb 31 s.name.len v.name_fits,
            le→ltb 16 s.type.len v.type_fits,
            le→ltb 31 s.table.len v.table_fits,
            le→ltb 4 (length s.key_parts) v.few_parts,
            of_fit s.key_parts v.columns_fit,
            of_distinct s.key_parts v.distinct,
          )
          refl
