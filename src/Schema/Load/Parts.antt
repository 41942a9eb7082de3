-- ===== src/Schema/Load/Parts.antt =====
-- The columns and the indexes that `schema_load_table` of src/schema/schema_io.c makes of their definitions.
use maxql.Prelude.{
  ℕ, zero, suc, ◌≤◌, List, [], ◌∷◌, true, false, Option, none, some, ◌≡◌, inl, inr, refl, sym, ◌∙◌,
  arith, Bool-cases, All, length,
}
use maxql.Core.Error.{Error, error_is_ok}
use maxql.Core.Result.{Result, Holds, Holds-and_then, Holds-if}
use maxql.Core.StrView.{sv_to_cstr}
use maxql.Parser.Ast.{ColumnDef, IndexKeyPart, IndexDef}
use maxql.Types.Value.{DataValue}
use maxql.Types.Converter.{
  Strtof, ConvertResult, convert_ok, convert_not_a_number, convert_out_of_range, convert_too_long,
  convert_bad_hex, convert_value,
}
use maxql.Schema.Table.{Column, TableSchema, IndexPart, IndexDefinition}
use maxql.Schema.Columns.{IsTyped}
use maxql.Database.{copy_string}
use maxql.Index.Registry.{IndexVTable, index_vtable_by_name}
use maxql.Engine.Checks.{found, converted, raw_value, Converts, raw_value-Converts}
use maxql.Engine.ColumnTypes.Laws.{IsNamed, column_type-IsNamed}
use maxql.Engine.DmlExecutor.Planned.{total_len}
use maxql.Engine.DdlPlanner.{plain_column, default_column}
use maxql.Engine.IndexPlanner.Parts.{
  IsPlannedPart, ArePlannedParts, plan_part-IsPlannedPart, key_size_of-total_len,
}
use maxql.Schema.Load.{
  schema_validate_column_name, unless_error, stored_errors, stored_part_errors, default_error,
  load_column, load_columns, resolve_parts, resolve_index, index_resolve,
}

-- An error that is not the one for success.
abbrev pub IsError : Error → Type 0
IsError e = error_is_ok e ≡ false

pub Holds-unless_error :
    {A : Type 0} (P : A → Type 0) (e : Error) (rest : Result A)
    → (error_is_ok e ≡ true → Holds IsError P rest)
    → Holds IsError P (unless_error e rest)
Holds-unless_error P e rest h = elim (Bool-cases (error_is_ok e)) [
  | inl ok ↦ rw (ok) (h ok)
  | inr bad ↦ rw (bad) bad
]

-- A column whose name, type, length and default are as the file says.
pub record IsLoaded (strtof : List ℕ → Strtof) (cd : ColumnDef) (c : Column) : Type 0 where
  pub valid_name : error_is_ok (schema_validate_column_name (sv_to_cstr cd.column 32)) ≡ true
  pub column_named : c.column_name ≡ copy_string 32 (sv_to_cstr cd.column 32)
  pub named : IsNamed cd.type c.resolved_type
  pub same_default : c.has_default ≡ cd.has_default
  pub default_given : cd.has_default ≡ true → Converts strtof cd.default_value c.default_value

abbrev pub AreLoaded : (List ℕ → Strtof) → List ColumnDef → List Column → Type 0
AreLoaded strtof [] [] = Unit
AreLoaded strtof [] (c ∷ cs) = ⊥
AreLoaded strtof (d ∷ ds) [] = ⊥
AreLoaded strtof (d ∷ ds) (c ∷ cs) = IsLoaded strtof d c × AreLoaded strtof ds cs

pub AreLoaded-IsTyped :
    (strtof : List ℕ → Strtof) (ds : List ColumnDef) (cs : List Column)
    → AreLoaded strtof ds cs
    → All (λ (c : Column). IsTyped c.resolved_type) cs
AreLoaded-IsTyped strtof [] [] h = tt
AreLoaded-IsTyped strtof [] (c ∷ cs) h = absurd h
AreLoaded-IsTyped strtof (d ∷ ds) [] h = absurd h
AreLoaded-IsTyped strtof (d ∷ ds) (c ∷ cs) h = (h.0.named.0, AreLoaded-IsTyped strtof ds cs h.1)

abbrev Anything : DataValue → Type 0
Anything v = Unit

default_converts : (r : ConvertResult) → Holds IsError Anything (converted default_error r)
default_converts (convert_ok v) = tt
default_converts convert_not_a_number = refl
default_converts convert_out_of_range = refl
default_converts convert_too_long = refl
default_converts convert_bad_hex = refl

module _ (strtof : List ℕ → Strtof) where
  load_column-IsLoaded :
      (cd : ColumnDef) → Holds IsError (IsLoaded strtof cd) (load_column strtof cd)
  unfolding load_column raw_value plain_column default_column
  load_column-IsLoaded cd =
      Holds-unless_error (IsLoaded strtof cd)
        (schema_validate_column_name (sv_to_cstr cd.column 32)) _
        (λ valid.
          Holds-and_then IsError (IsNamed cd.type) (IsLoaded strtof cd) _ _
            (column_type-IsNamed IsError stored_errors refl refl refl cd.type)
            (λ rt _ named.
              Holds-if IsError (IsLoaded strtof cd) cd.has_default _ _
                (λ has.
                  Holds-and_then IsError Anything (IsLoaded strtof cd) _ _
                    (default_converts
                      (convert_value strtof cd.default_value.type cd.default_value.value))
                    (λ v read _. record {
                      valid_name = valid;
                      column_named = refl;
                      named = named;
                      same_default = sym has;
                      default_given =
                          λ _. raw_value-Converts strtof default_error cd.default_value v read;
                    }))
                (λ not_given. record {
                  valid_name = valid;
                  column_named = refl;
                  named = named;
                  same_default = sym not_given;
                  default_given = λ has. cc;
                })))

  pub load_columns-AreLoaded :
      (room : ℕ) (cds : List ColumnDef)
      → Holds IsError
          (λ cs. AreLoaded strtof cds cs × (length cs ≤ room))
          (load_columns strtof room cds)
  unfolding load_columns
  load_columns-AreLoaded room [] = (tt, omega arith)
  load_columns-AreLoaded zero (cd ∷ cds) = refl
  load_columns-AreLoaded (suc room) (cd ∷ cds) =
      Holds-and_then IsError (IsLoaded strtof cd)
        (λ cs. AreLoaded strtof (cd ∷ cds) cs × (length cs ≤ suc room)) _ _
        (load_column-IsLoaded cd)
        (λ c _ made.
          Holds-and_then IsError (λ cs. AreLoaded strtof cds cs × (length cs ≤ room))
            (λ cs. AreLoaded strtof (cd ∷ cds) cs × (length cs ≤ suc room)) _ _
            (load_columns-AreLoaded room cds)
            (λ cs _ rest. ((made, rest.0), omega (arith, rest.1))))

-- An index as the file says, on columns of the table: by its name, of a registered type and its size of a
-- page, of at most 4 parts, and with room in its keys for exactly these.
pub record IsLoadedIndex {D : Type 0} (registry : List (IndexVTable D)) (schema : TableSchema)
    (def : IndexDef) (d : IndexDefinition) : Type 0 where
  pub vtable : IndexVTable D
  pub registered : index_vtable_by_name registry (sv_to_cstr def.type 17) ≡ some vtable
  pub index_named : d.name ≡ copy_string 32 (sv_to_cstr def.name 32)
  pub type_kept : d.type ≡ vtable.type
  pub node_size_kept : d.node_size ≡ vtable.default_node_size
  pub unique_kept : d.is_unique ≡ def.is_unique
  pub few : length def.key_parts ≤ 4
  pub parts : ArePlannedParts schema def.key_parts d.parts
  pub sized : d.key_size ≡ total_len d.parts

abbrev pub AreLoadedIndexes :
    {D : Type 0}
    → List (IndexVTable D)
    → TableSchema
    → List IndexDef
    → List IndexDefinition
    → Type 0
AreLoadedIndexes registry schema [] [] = Unit
AreLoadedIndexes registry schema [] (d ∷ ds) = ⊥
AreLoadedIndexes registry schema (def ∷ defs) [] = ⊥
AreLoadedIndexes registry schema (def ∷ defs) (d ∷ ds) =
    IsLoadedIndex registry schema def d × AreLoadedIndexes registry schema defs ds

found-some :
    {A : Type 0} (e : Error) (o : Option A)
    → IsError e
    → Holds IsError (λ a. o ≡ some a) (found e o)
found-some e none bad = bad
found-some e (some a) bad = refl

module _ (schema : TableSchema)
    (columns : All (λ (c : Column). IsTyped c.resolved_type) schema.columns) where
  AreParts : ℕ → List IndexKeyPart → List IndexPart → Type 0
  AreParts room ks ps = ArePlannedParts schema ks ps × (length ks ≤ room)

  resolve_parts-AreParts :
      (room : ℕ) (ks : List IndexKeyPart)
      → Holds IsError (AreParts room ks) (resolve_parts room schema ks)
  unfolding resolve_parts AreParts
  resolve_parts-AreParts room [] = (tt, omega arith)
  resolve_parts-AreParts zero (k ∷ ks) = refl
  resolve_parts-AreParts (suc room) (k ∷ ks) =
      Holds-and_then IsError (IsPlannedPart schema k) (AreParts (suc room) (k ∷ ks)) _ _
        (plan_part-IsPlannedPart IsError stored_part_errors refl refl refl refl schema columns k)
        (λ p _ made.
          Holds-and_then IsError (AreParts room ks) (AreParts (suc room) (k ∷ ks)) _ _
            (resolve_parts-AreParts room ks) (λ ps _ rest. ((made, rest.0), omega (arith, rest.1))))

  module _ {D : Type 0} (registry : List (IndexVTable D)) where
    resolve_index-IsLoadedIndex :
        (def : IndexDef)
        → Holds IsError (IsLoadedIndex registry schema def) (resolve_index registry schema def)
    unfolding resolve_index AreParts
    resolve_index-IsLoadedIndex def =
        let named = index_vtable_by_name registry (sv_to_cstr def.type 17) in
        Holds-and_then IsError (λ vt. named ≡ some vt) (IsLoadedIndex registry schema def) _ _
          (found-some _ named refl)
          (λ vt _ registered.
            Holds-and_then IsError (AreParts 4 def.key_parts) (IsLoadedIndex registry schema def) _
              _ (resolve_parts-AreParts 4 def.key_parts)
              (λ parts _ made. record {
                vtable = vt;
                registered = registered;
                index_named = refl;
                type_kept = refl;
                node_size_kept = refl;
                unique_kept = refl;
                few = made.1;
                parts = made.0;
                sized =
                    key_size_of-total_len schema def.key_parts parts 0 made.0
                      (omega (arith, made.1))
                    ∙ omega arith;
              }))

    unfoldable pub AreIndexes : ℕ → List IndexDef → List IndexDefinition → Type 0
    AreIndexes room defs ds = AreLoadedIndexes registry schema defs ds × (length ds ≤ room)

    pub index_resolve-AreIndexes :
        (room : ℕ) (defs : List IndexDef)
        → Holds IsError (AreIndexes room defs) (index_resolve registry room schema defs)
    unfolding index_resolve AreIndexes
    index_resolve-AreIndexes room [] = (tt, omega arith)
    index_resolve-AreIndexes zero (def ∷ defs) = refl
    index_resolve-AreIndexes (suc room) (def ∷ defs) =
        Holds-and_then IsError (IsLoadedIndex registry schema def)
          (AreIndexes (suc room) (def ∷ defs)) _ _ (resolve_index-IsLoadedIndex def)
          (λ d _ made.
            Holds-and_then IsError (AreIndexes room defs) (AreIndexes (suc room) (def ∷ defs)) _ _
              (index_resolve-AreIndexes room defs)
              (λ ds _ rest. ((made, rest.0), omega (arith, rest.1))))
