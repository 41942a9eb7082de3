-- ===== src/Engine/IndexPlanner/Create.antt =====
-- The definition of an index, and its place in a table, in src/engine/ddl/planner.c.
use maxql.Prelude.{
  ℕ, ◌%◌, ◌≤◌, ◌<◌, List, [], ◌∷◌, Bool, true, false, not, ◌&&◌, ◌||◌, Option, none, some, ◌≡◌, inl,
  inr, refl, ◌∙◌, arith, Bool-cases, All, length, take, length-take, ltb, leb, if◌then◌else◌,
}
use maxql.Core.Error.{Error}
use maxql.Core.Result.{Holds, Holds-and_then, Holds-if}
use maxql.Core.StrView.{StrView, sv_to_cstr}
use maxql.Parser.Ast.{CreateIndexStmt}
use maxql.Types.Compare.{strcmp}
use maxql.Types.Resolve.{is_eq}
use maxql.Schema.Table.{TableMeta, IndexDefinition, index_btree, get_index_def}
use maxql.Database.{Database, database_table_by_name, table_named}
use maxql.Index.Registry.{IndexVTable, index_vtable, index_vtable_by_name}
use maxql.Engine.Checks.{found, Holds-unless_found}
use maxql.Engine.DmlAnalyzer.Insert.{IsMeta}
use maxql.Engine.DmlExecutor.Planned.{total_len}
use maxql.Engine.DdlPlanner.{planned_table, table_not_found}
use maxql.Engine.IndexPlanner.{
  present, planned_vtable, checked_vtable, planned_index, plan_create_index,
}
use maxql.Engine.IndexPlanner.Parts.{
  IsRefusal, ArePlannedParts, plan_parts-ArePlannedParts, key_size_of-total_len,
}

table_named-IsMeta :
    (tables : List TableMeta) (name : List ℕ)
    → All IsMeta tables
    → Holds IsRefusal IsMeta (found table_not_found (table_named tables name))
unfolding table_named
table_named-IsMeta [] name h = inl refl
table_named-IsMeta (t ∷ ts) name h = elim (Bool-cases (is_eq (strcmp name t.name))) [
  | inl same ↦ rw (table_named, same) h.0
  | inr other ↦ rw (table_named, other) (table_named-IsMeta ts name h.1)
]

planned_table-IsMeta :
    (db : Database) (table : StrView)
    → All IsMeta db.tables
    → Holds IsRefusal IsMeta (planned_table db table)
unfolding planned_table database_table_by_name
planned_table-IsMeta db table h = table_named-IsMeta db.tables (sv_to_cstr table 32) h

if_true {ℓ} : {A : Type ℓ} (b : Bool) (x y : A) → b ≡ true → (if b then x else y) ≡ x
if_true true x y h = refl
if_true false x y h = cc

if_false {ℓ} : {A : Type ℓ} (b : Bool) (x y : A) → b ≡ false → (if b then x else y) ≡ y
if_false true x y h = cc
if_false false x y h = refl

accepts : (unique any : Bool) → (not unique && not any) ≡ false → (unique || any) ≡ true
accepts true any h = refl
accepts false true h = refl
accepts false false h = cc

module _ {D : Type 0} (registry : List (IndexVTable D)) where
  -- A type of index that is registered: the one of the name given, or the default one.
  abbrev chosen : StrView → Option (IndexVTable D)
  chosen type =
      if ltb 0 (type.len % 256)
      then index_vtable_by_name registry (sv_to_cstr type 17)
      else index_vtable registry index_btree

  -- The type of the index, and whether it takes rows with equal keys where the index has to.
  abbrev IsVtable : CreateIndexStmt → IndexVTable D → Type 0
  IsVtable stmt vt =
      (chosen stmt.type ≡ some vt) × ((stmt.is_unique || vt.accepts_non_unique) ≡ true)

  -- The definition of an index that is not there yet, on a table with fewer than 8 of them: of a
  -- registered type, with the parts asked for, and with a key that has room for exactly these.
  pub record IsNewIndex (stmt : CreateIndexStmt) (p : TableMeta × IndexDefinition) : Type 0 where
    pub few : length p.0.index_meta < 8
    pub fresh : get_index_def p.0.index_meta (sv_to_cstr stmt.name 32) ≡ none
    pub vtable : IndexVTable D
    pub registered : IsVtable stmt vtable
    pub type_kept : p.1.type ≡ vtable.type
    pub node_size_kept : p.1.node_size ≡ vtable.default_node_size
    pub unique_kept : p.1.is_unique ≡ stmt.is_unique
    pub parts :
        ArePlannedParts p.0.schema (take (length stmt.key_parts % 256) stmt.key_parts) p.1.parts
    pub sized : p.1.key_size ≡ total_len p.1.parts

  module _ {default : IndexVTable D}
      (has_default : index_vtable registry index_btree ≡ some default) where
    IsChosen : StrView → IndexVTable D → Type 0
    IsChosen type vt = chosen type ≡ some vt

    named_vtable :
        (o : Option (IndexVTable D)) (type : StrView) (e : Error)
        → IsRefusal e
        → chosen type ≡ o
        → Holds IsRefusal (IsChosen type) (found e o)
    unfolding IsChosen
    named_vtable none type e bad h = bad
    named_vtable (some vt) type e bad h = h

    default_vtable :
        (o : Option (IndexVTable D)) (type : StrView)
        → chosen type ≡ o
        → o ≡ some default
        → Holds IsRefusal (IsChosen type) (present o)
    unfolding IsChosen
    default_vtable none type h k = cc
    default_vtable (some vt) type h k = h

    planned_vtable-IsChosen :
        (type : StrView) → Holds IsRefusal (IsChosen type) (planned_vtable registry type)
    unfolding planned_vtable
    planned_vtable-IsChosen type =
        Holds-if IsRefusal (IsChosen type) (ltb 0 (type.len % 256)) _ _
          (λ given. named_vtable _ type _ (inl refl) (if_true _ _ _ given))
          (λ none_given. default_vtable _ type (if_false _ _ _ none_given) has_default)

    checked_vtable-IsVtable :
        (stmt : CreateIndexStmt) → Holds IsRefusal (IsVtable stmt) (checked_vtable registry stmt)
    unfolding checked_vtable IsChosen
    checked_vtable-IsVtable stmt =
        Holds-and_then IsRefusal (IsChosen stmt.type) (IsVtable stmt) _ _
          (planned_vtable-IsChosen stmt.type)
          (λ vt _ is_chosen.
            Holds-if IsRefusal (IsVtable stmt) (not stmt.is_unique && not vt.accepts_non_unique) _ _
              (λ _. inl refl)
              (λ accepted. (is_chosen, accepts stmt.is_unique vt.accepts_non_unique accepted)))

    planned_index-IsNewIndex :
        (t : TableMeta) (stmt : CreateIndexStmt)
        → IsMeta t
        → length stmt.key_parts ≤ 4
        → Holds IsRefusal (λ d. IsNewIndex stmt (t, d)) (planned_index registry t stmt)
    unfolding planned_index
    planned_index-IsNewIndex t stmt columns short =
        Holds-if IsRefusal (λ d. IsNewIndex stmt (t, d)) (leb 8 (length t.index_meta)) _ _
          (λ _. inl refl)
          (λ room.
            let ks = take (length stmt.key_parts % 256) stmt.key_parts in
            Holds-unless_found IsRefusal (λ d. IsNewIndex stmt (t, d)) _
              (get_index_def t.index_meta (sv_to_cstr stmt.name 32)) _ (inr refl)
              (λ fresh.
                Holds-and_then IsRefusal (IsVtable stmt) (λ d. IsNewIndex stmt (t, d)) _ _
                  (checked_vtable-IsVtable stmt)
                  (λ vt _ registered.
                    Holds-and_then IsRefusal (ArePlannedParts t.schema ks)
                      (λ d. IsNewIndex stmt (t, d)) _ _
                      (plan_parts-ArePlannedParts t.schema columns ks)
                      (λ parts _ made. record {
                        few = ground (arith, room);
                        fresh = fresh;
                        vtable = vt;
                        registered = registered;
                        type_kept = refl;
                        node_size_kept = refl;
                        unique_kept = refl;
                        parts = made;
                        sized =
                            key_size_of-total_len t.schema ks parts 0 made (
                              omega (
                                arith,
                                length-take (length stmt.key_parts % 256) stmt.key_parts,
                                short,
                              ))
                            ∙ omega arith;
                      }))))

    -- Where the columns of the tables are of the types of the table of types, the statement has at most 4
    -- key parts and there is a default type of index, the plan of a new index refuses the statement with
    -- an error of the planner or of an index, or gives a table with fewer than 8 indexes, none of them of
    -- the name, and a definition: of the registered type that is named, or of the default type, which
    -- takes equal keys unless the index is unique; with a part for each one asked for, on the column of
    -- its name, of at least a byte and at most the column's; and with the sum of the parts as its key size.
    pub plan_create_index-IsNewIndex :
        (db : Database) (stmt : CreateIndexStmt)
        → All IsMeta db.tables
        → length stmt.key_parts ≤ 4
        → Holds IsRefusal (IsNewIndex stmt) (plan_create_index registry db stmt)
    unfolding plan_create_index
    plan_create_index-IsNewIndex db stmt metas short =
        Holds-and_then IsRefusal IsMeta (IsNewIndex stmt) _ _
          (planned_table-IsMeta db stmt.table metas)
          (λ t _ columns.
            Holds-and_then IsRefusal (λ d. IsNewIndex stmt (t, d)) (IsNewIndex stmt) _ _
              (planned_index-IsNewIndex t stmt columns short) (λ d _ made. made))
