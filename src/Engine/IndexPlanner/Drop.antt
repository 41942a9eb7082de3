-- ===== src/Engine/IndexPlanner/Drop.antt =====
-- The index that `plan_drop_index` of src/engine/ddl/planner.c finds, and `schema_remove_index_def` of
-- src/schema/schema.c removes.
use maxql.Prelude.{
  ℕ, List, [], ◌∷◌, ◌++◌, true, false, Option, none, some, ◌≡◌, refl, ap, Bool-cases, inl, inr,
}
use maxql.Core.Error.{Error}
use maxql.Core.Result.{Holds, Holds-and_then}
use maxql.Core.StrView.{StrView, sv_to_cstr}
use maxql.Parser.Ast.{DropIndexStmt}
use maxql.Types.Compare.{strcmp}
use maxql.Types.Resolve.{is_eq}
use maxql.Schema.Table.{
  TableMeta, IndexDefinition, next_pos, get_index_def, schema_remove_index_def,
}
use maxql.Database.{Database, database_table_by_name, copy_string}
use maxql.Engine.Checks.{found}
use maxql.Engine.DdlPlanner.{planned_table, table_not_found}
use maxql.Engine.DdlPlanner.Columns.{IsPlanner}
use maxql.Engine.IndexPlanner.{index_pos_in, plan_drop_index}

-- A position at which the first index of a name stands, between those before it and those behind it.
pub record IsFirst (ds : List IndexDefinition) (name : List ℕ) (pos : ℕ) : Type 0 where
  pub before : List IndexDefinition
  pub index_def : IndexDefinition
  pub behind : List IndexDefinition
  pub whole : ds ≡ before ++ index_def ∷ behind
  pub found_there : get_index_def ds name ≡ some index_def
  pub none_before : get_index_def before name ≡ none
  pub left : schema_remove_index_def pos ds ≡ before ++ behind

abbrev IsFirstIf : List IndexDefinition → List ℕ → Option ℕ → Type 0
IsFirstIf ds name none = get_index_def ds name ≡ none
IsFirstIf ds name (some pos) = IsFirst ds name pos

IsFirstIf-next :
    (d : IndexDefinition) (ds : List IndexDefinition) (name : List ℕ) (o : Option ℕ)
    → is_eq (strcmp d.name name) ≡ false
    → IsFirstIf ds name o
    → IsFirstIf (d ∷ ds) name (next_pos o)
unfolding get_index_def schema_remove_index_def
IsFirstIf-next d ds name none other h = rw (get_index_def, other) h
IsFirstIf-next d ds name (some pos) other h = record {
  before = d ∷ h.before;
  index_def = h.index_def;
  behind = h.behind;
  whole = ap (λ t. d ∷ t) h.whole;
  found_there = rw (get_index_def, other) h.found_there;
  none_before = rw (get_index_def, other) h.none_before;
  left = ap (λ t. d ∷ t) h.left;
}

IsFirst-here :
    (d : IndexDefinition) (ds : List IndexDefinition) (name : List ℕ)
    → is_eq (strcmp d.name name) ≡ true
    → IsFirst (d ∷ ds) name 0
unfolding get_index_def schema_remove_index_def
IsFirst-here d ds name same = record {
  before = [];
  index_def = d;
  behind = ds;
  whole = refl;
  found_there = rw (get_index_def, same) refl;
  none_before = refl;
  left = refl;
}

index_pos_in-IsFirstIf :
    (ds : List IndexDefinition) (name : List ℕ) → IsFirstIf ds name (index_pos_in ds name)
unfolding index_pos_in get_index_def
index_pos_in-IsFirstIf [] name = refl
index_pos_in-IsFirstIf (d ∷ ds) name =
    let rest = index_pos_in-IsFirstIf ds name in
    elim (Bool-cases (is_eq (strcmp d.name name))) [
      | inl same ↦ rw (index_pos_in, same) (IsFirst-here d ds name same)
      | inr other ↦
          rw (index_pos_in, other) (IsFirstIf-next d ds name (index_pos_in ds name) other rest)
    ]

found-IsFirst :
    (ds : List IndexDefinition) (name : List ℕ) (e : Error) (o : Option ℕ)
    → IsPlanner e
    → IsFirstIf ds name o
    → Holds IsPlanner (IsFirst ds name) (found e o)
found-IsFirst ds name e none bad h = bad
found-IsFirst ds name e (some pos) bad h = h

-- A table of the name, as `database_table_by_name` finds it.
abbrev pub IsTheTable : Database → StrView → TableMeta → Type 0
IsTheTable db table t = database_table_by_name db (sv_to_cstr table 32) ≡ some t

planned_table-IsTheTable :
    (db : Database) (table : StrView)
    → Holds IsPlanner (IsTheTable db table) (planned_table db table)
unfolding planned_table
planned_table-IsTheTable db table = go (database_table_by_name db (sv_to_cstr table 32))
  where
    go : (o : Option TableMeta) → Holds IsPlanner (λ t. o ≡ some t) (found table_not_found o)
    go none = refl
    go (some t) = refl

-- A removal of an index: the table of the name, and the position of the first index of its name there.
abbrev pub IsDrop : Database → DropIndexStmt → TableMeta × (ℕ × List ℕ) → Type 0
IsDrop db stmt (t, (pos, name)) =
    IsTheTable db stmt.table t
    × (IsFirst t.index_meta (sv_to_cstr stmt.index 32) pos
        × (name ≡ copy_string 32 (sv_to_cstr stmt.index 32)))

-- The plan of the removal of an index refuses the statement with an error of the planner, or gives the
-- table of the name and the position of the first index of the name: the removal of that position
-- leaves all other indexes in their order.
pub plan_drop_index-IsDrop :
    (db : Database) (stmt : DropIndexStmt)
    → Holds IsPlanner (IsDrop db stmt) (plan_drop_index db stmt)
unfolding plan_drop_index
plan_drop_index-IsDrop db stmt =
    let name = sv_to_cstr stmt.index 32 in
    Holds-and_then IsPlanner (IsTheTable db stmt.table) (IsDrop db stmt) _ _
      (planned_table-IsTheTable db stmt.table)
      (λ t _ there.
        Holds-and_then IsPlanner (IsFirst t.index_meta name) (IsDrop db stmt) _ _
          (found-IsFirst t.index_meta name _ (index_pos_in t.index_meta name) refl
            (index_pos_in-IsFirstIf t.index_meta name))
          (λ pos _ first. (there, (first, refl))))
