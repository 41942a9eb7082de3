-- ===== src/Engine/DdlPlanner/Columns.antt =====
-- The columns that `plan_create_table` of src/engine/ddl/planner.c makes of their definitions.
use maxql.Prelude.{
  true, ap, ◌∙◌, ℕ, ◌%◌, ◌<◌, List, [], ◌∷◌, none, ◌≡◌, refl, sym, All, All-take, length, take,
}
use maxql.Core.Error.{Error, err_planner}
use maxql.Core.Result.{Holds, Holds-and_then, Holds-if, Holds-imp}
use maxql.Core.StrView.{sv_to_cstr}
use maxql.Parser.Ast.{ColumnDef, CreateTableStmt}
use maxql.Types.Resolve.{ResolvedType}
use maxql.Types.Converter.{Strtof, convert_ok}
use maxql.Types.Value.{DataValue}
use maxql.Schema.Table.{Column, TableSchema}
use maxql.Schema.Columns.{IsTyped, FitsType, IsColumn, resolved_type_validate-Validated}
use maxql.Database.{Database, database_table_by_name, copy_string}
use maxql.Engine.Checks.{
  Holds-unless_found, IsText, IsLiteral, validated-Fits, validated-same, Converts,
  raw_value-Converts, raw_value-IsLiteral,
}
use maxql.Engine.ColumnTypes.Laws.{IsNamed, column_type-IsNamed}
use maxql.Engine.DdlPlanner.{
  planner_errors, column_error, invalid_default, plain_column, default_column, column_default,
  plan_column, plan_columns, plan_create_table,
}

-- An error of the planner.
abbrev pub IsPlanner : Error → Type 0
IsPlanner e = e.code ≡ err_planner

-- A column as it is defined: by its name, with the type, the length and the default that are given.
pub record IsPlanned (strtof : List ℕ → Strtof) (d : ColumnDef) (c : Column) : Type 0 where
  pub column : IsColumn c
  pub column_named : c.column_name ≡ copy_string 32 (sv_to_cstr d.column 32)
  pub type_given : IsNamed d.type c.resolved_type
  pub same_default : c.has_default ≡ d.has_default
  pub default_given : d.has_default ≡ true → Converts strtof d.default_value c.default_value

-- Columns as they are defined, in their order.
abbrev pub ArePlanned : (List ℕ → Strtof) → List ColumnDef → List Column → Type 0
ArePlanned strtof [] [] = Unit
ArePlanned strtof [] (c ∷ cs) = ⊥
ArePlanned strtof (d ∷ ds) [] = ⊥
ArePlanned strtof (d ∷ ds) (c ∷ cs) = IsPlanned strtof d c × ArePlanned strtof ds cs

pub ArePlanned-IsColumn :
    (strtof : List ℕ → Strtof) (ds : List ColumnDef) (cs : List Column)
    → ArePlanned strtof ds cs
    → All IsColumn cs
ArePlanned-IsColumn strtof [] [] h = tt
ArePlanned-IsColumn strtof [] (c ∷ cs) h = absurd h
ArePlanned-IsColumn strtof (d ∷ ds) [] h = absurd h
ArePlanned-IsColumn strtof (d ∷ ds) (c ∷ cs) h = (h.0.column, ArePlanned-IsColumn strtof ds cs h.1)

-- The schema of a new table: a name that no table has, and the columns as they are defined.
pub record IsNew (strtof : List ℕ → Strtof) (db : Database) (stmt : CreateTableStmt)
    (schema : TableSchema) : Type 0 where
  pub fresh : database_table_by_name db (sv_to_cstr stmt.table 32) ≡ none
  pub table_named : schema.table_name ≡ copy_string 32 (sv_to_cstr stmt.table 32)
  pub columns :
      ArePlanned strtof (take (length stmt.column_defs % 256) stmt.column_defs) schema.columns

module _ (strtof : List ℕ → Strtof) (single : (s : List ℕ) → (strtof s).value < 4294967296) where
  -- The default of a column's definition, which fits.
  abbrev IsDefault : ResolvedType → ColumnDef → DataValue → Type 0
  IsDefault rt d v = FitsType rt v × Converts strtof d.default_value v

  column_default-IsDefault :
      (rt : ResolvedType) (d : ColumnDef)
      → IsTyped rt
      → IsText d.default_value
      → Holds IsPlanner (IsDefault rt d) (column_default strtof rt d)
  unfolding column_default
  column_default-IsDefault rt d typed text =
      Holds-and_then IsPlanner (IsLiteral d.default_value.type) (IsDefault rt d) _ _
        (raw_value-IsLiteral IsPlanner column_error refl strtof d.default_value single text)
        (λ v read value.
          Holds-imp IsPlanner (λ w. FitsType rt w × (v ≡ w)) (IsDefault rt d) _
            (validated-same IsPlanner invalid_default refl (FitsType rt) _ v (
              validated-Fits IsPlanner invalid_default refl rt _ v
                (resolved_type_validate-Validated rt v typed value.0)))
            (λ w fits. (
              fits.0,
              raw_value-Converts strtof column_error d.default_value v read ∙ ap convert_ok fits.1,
            )))

  plan_column-IsPlanned :
      (d : ColumnDef)
      → IsText d.default_value
      → Holds IsPlanner (IsPlanned strtof d) (plan_column strtof d)
  unfolding plan_column plain_column default_column
  plan_column-IsPlanned d text =
      Holds-and_then IsPlanner (IsNamed d.type) (IsPlanned strtof d) _ _
        (column_type-IsNamed IsPlanner planner_errors refl refl refl d.type)
        (λ rt _ named.
          Holds-if IsPlanner (IsPlanned strtof d) d.has_default _ _
            (λ has.
              Holds-and_then IsPlanner (IsDefault rt d) (IsPlanned strtof d) _ _
                (column_default-IsDefault rt d named.0 text)
                (λ v _ fits. record {
                  column = record { typed = named.0; default = λ _. fits.0 };
                  column_named = refl;
                  type_given = named;
                  same_default = sym has;
                  default_given = λ _. fits.1;
                }))
            (λ none_given. record {
              column = record { typed = named.0; default = λ e. cc };
              column_named = refl;
              type_given = named;
              same_default = sym none_given;
              default_given = λ has. cc;
            }))

  plan_columns-ArePlanned :
      (ds : List ColumnDef)
      → All (λ (d : ColumnDef). IsText d.default_value) ds
      → Holds IsPlanner (ArePlanned strtof ds) (plan_columns strtof ds)
  unfolding plan_columns
  plan_columns-ArePlanned [] h = tt
  plan_columns-ArePlanned (d ∷ ds) h =
      Holds-and_then IsPlanner (IsPlanned strtof d) (ArePlanned strtof (d ∷ ds)) _ _
        (plan_column-IsPlanned d h.0)
        (λ c _ made.
          Holds-and_then IsPlanner (ArePlanned strtof ds) (ArePlanned strtof (d ∷ ds)) _ _
            (plan_columns-ArePlanned ds h.1) (λ cs _ rest. (made, rest)))

  -- Where the defaults are bytes, the plan of a new table refuses the statement with its own error code,
  -- or gives a schema whose table is not there yet, with the columns as they are defined and in their
  -- order: by the names given, of the entry of the table of types that has the type's name, with the length
  -- that is given exactly where the entry takes one and that is within its limits, and with a default
  -- exactly where one is given, which is what its literal converts to and fits.
  pub plan_create_table-IsNew :
      (db : Database) (stmt : CreateTableStmt)
      → All (λ (d : ColumnDef). IsText d.default_value) stmt.column_defs
      → Holds IsPlanner (IsNew strtof db stmt) (plan_create_table strtof db stmt)
  unfolding plan_create_table
  plan_create_table-IsNew db stmt texts =
      let defs = take (length stmt.column_defs % 256) stmt.column_defs in
      Holds-unless_found IsPlanner (IsNew strtof db stmt) _
        (database_table_by_name db (sv_to_cstr stmt.table 32)) _ refl
        (λ fresh.
          Holds-and_then IsPlanner (ArePlanned strtof defs) (IsNew strtof db stmt) _ _
            (plan_columns-ArePlanned defs
              (All-take (λ (d : ColumnDef). IsText d.default_value) _ stmt.column_defs texts))
            (λ cs _ made. record { fresh = fresh; table_named = refl; columns = made }))
