-- ===== src/Engine/DmlAnalyzer/Values.antt =====
-- Which value `analyze_insert` of src/engine/dml/analyzer.c gives each column.
use maxql.Prelude.{
  ℕ, zero, suc, ◌<◌, List, [], ◌∷◌, Bool, true, false, Option, none, some, ◌≡◌, refl, sym, ap, ◌∙◌,
  arith, Bool-cases, inl, inr, length, get_elem?, get_or, set, replicate, get_elem?-lt, length-set,
  length-replicate, ltb, ◌==◌, if◌then◌else◌,
}
use mathlib.Core.Path.{subst}
use maxql.Core.Error.{Error}
use maxql.Core.Result.{Result, done, refused, undefined, and_then}
use maxql.Parser.Ast.{Assignment, InsertStmt}
use maxql.Types.Value.{DataValue}
use maxql.Types.Mapper.{
  TypeValidateResult, validate_ok, validate_type_mismatch, validate_value_too_long,
}
use maxql.Types.Resolve.{resolved_type_validate}
use maxql.Types.Converter.{Strtof}
use maxql.Schema.Table.{Column, TableMeta}
use maxql.Database.{Database}
use maxql.Engine.Checks.{found, validated, raw_value}
use maxql.Engine.DmlAnalyzer.{
  find_column_index, no_column, convert_error, Slots, fill_defaults, named_table,
  analyze_assignment, assign_all, insert_values, analyze_insert,
}

and_then-done :
    {A B : Type 0} (r : Result A) (f : A → Result B) (b : B)
    → and_then r f ≡ done b
    → (a : A) × (r ≡ done a) × (f a ≡ done b)
and_then-done (done a) f b h = (a, refl, h)
and_then-done (refused e) f b h = cc
and_then-done undefined f b h = cc

found-done : {A : Type 0} (e : Error) (o : Option A) (a : A) → found e o ≡ done a → o ≡ some a
found-done e none a h = cc
found-done e (some b) a h = cc

validated-done :
    (e : Error) (o : Option TypeValidateResult) (v w : DataValue) → validated e o v ≡ done w → v ≡ w
validated-done e none v w h = cc
validated-done e (some validate_ok) v w h = cc
validated-done e (some validate_type_mismatch) v w h = cc
validated-done e (some validate_value_too_long) v w h = cc

-- Whether an assignment is to the column at an index.
abbrev is_at : ℕ → Option (ℕ × Column) → Bool
is_at i none = false
is_at i (some at) = at.0 == i

abbrev or_first : Option Assignment → Bool → Assignment → Option Assignment
or_first (some b) here a = some b
or_first none true a = some a
or_first none false a = none

-- The last assignment to the column at an index.
unfoldable pub last_assignment : List Column → ℕ → List Assignment → Option Assignment
unfolding find_column_index
last_assignment columns i [] = none
last_assignment columns i (a ∷ as') =
    or_first (last_assignment columns i as') (is_at i (find_column_index columns a.column)) a

get_or-set :
    (slots : Slots) (i : ℕ) (s : Option DataValue)
    → i < length slots
    → get_or (set slots i s) i none ≡ s
get_or-set [] i s h = absurd (omega arith)
get_or-set (t ∷ slots) zero s h = refl
get_or-set (t ∷ slots) (suc i) s h = get_or-set slots i s (omega arith)

get_or-set_other :
    (slots : Slots) (i j : ℕ) (s : Option DataValue)
    → (j == i) ≡ false
    → get_or (set slots j s) i none ≡ get_or slots i none
get_or-set_other [] i j s h = refl
get_or-set_other (t ∷ slots) zero zero s h = cc
get_or-set_other (t ∷ slots) zero (suc j) s h = refl
get_or-set_other (t ∷ slots) (suc i) zero s h = refl
get_or-set_other (t ∷ slots) (suc i) (suc j) s h = get_or-set_other slots i j s (ground (arith, h))

get_or-replicate : (n i : ℕ) → get_or {A = Option DataValue} (replicate n none) i none ≡ none
get_or-replicate zero i = refl
get_or-replicate (suc n) zero = refl
get_or-replicate (suc n) (suc i) = get_or-replicate n i

if_done_true :
    {A : Type 0} (b : Bool) (x y : Result A) (a : A)
    → b ≡ true
    → (if b then x else y) ≡ done a
    → x ≡ done a
if_done_true true x y a h k = k
if_done_true false x y a h k = cc

if_done_else :
    {A : Type 0} (b : Bool) (x y : Result A) (a : A)
    → b ≡ false
    → (if b then x else y) ≡ done a
    → y ≡ done a
if_done_else true x y a h k = cc
if_done_else false x y a h k = k

refused-done : {A : Type 0} (e : Error) (a : A) → refused e ≡ done a → ⊥
refused-done e a h = cc

module _ (strtof : List ℕ → Strtof) where
  analyze_assignment-done :
      (columns : List Column) (a : Assignment) (p : ℕ × DataValue)
      → analyze_assignment strtof columns a ≡ done p
      → (at : ℕ × Column) × (find_column_index columns a.column ≡ some at)
        × (at.0 ≡ p.0)
        × (raw_value strtof convert_error a.value ≡ done p.1)
  unfolding analyze_assignment
  analyze_assignment-done columns a p h =
      let (at, named, h1) =
        and_then-done (found no_column (find_column_index columns a.column)) _ p h in
      let (v, read, h2) = and_then-done (raw_value strtof convert_error a.value) _ p h1 in
      let (w, valid, h3) =
        and_then-done (validated convert_error (resolved_type_validate at.1.resolved_type v) v) _ p
          h2 in
      let same = validated-done convert_error _ v w valid in
      let both : (at.0, w) ≡ p = cc in
      (
        at,
        found-done no_column _ at named,
        ap (λ (q : ℕ × DataValue). q.0) both,
        read ∙ ap done (same ∙ ap (λ (q : ℕ × DataValue). q.1) both),
      )

  -- What a slot holds after the assignments.
  abbrev Says : Option Assignment → Option DataValue → Option DataValue → Type 0
  Says none before after = after ≡ before
  Says (some a) before after =
      (v : DataValue) × (raw_value strtof convert_error a.value ≡ done v) × (after ≡ some v)

  Says-here :
      (o : Option Assignment) (a : Assignment) (v : DataValue) (before after : Option DataValue)
      → raw_value strtof convert_error a.value ≡ done v
      → Says o (some v) after
      → Says (or_first o true a) before after
  Says-here none a v before after read h = (v, read, h)
  Says-here (some b) a v before after read h = h

  Says-other :
      (o : Option Assignment) (a : Assignment) (before after : Option DataValue)
      → Says o before after
      → Says (or_first o false a) before after
  Says-other none a before after h = h
  Says-other (some b) a before after h = h

  Says-step :
      (b : Bool) (o : Option Assignment) (a : Assignment) (v : DataValue)
      (before mid after : Option DataValue)
      → raw_value strtof convert_error a.value ≡ done v
      → (b ≡ true → mid ≡ some v)
      → (b ≡ false → mid ≡ before)
      → Says o mid after
      → Says (or_first o b a) before after
  Says-step true o a v before mid after read here other h =
      Says-here o a v before after read (subst (λ m. Says o m after) (here refl) h)
  Says-step false o a v before mid after read here other h =
      Says-other o a before after (subst (λ m. Says o m after) (other refl) h)

  assign_all-Says :
      (columns : List Column) (as' : List Assignment) (slots slots' : Slots) (i : ℕ)
      → i < length slots
      → assign_all strtof columns as' slots ≡ done slots'
      → Says (last_assignment columns i as') (get_or slots i none) (get_or slots' i none)
  unfolding assign_all last_assignment
  assign_all-Says columns [] slots slots' i inside h =
      let same : slots ≡ slots' = cc in ap (λ t. get_or t i none) (sym same)
  assign_all-Says columns (a ∷ as') slots slots' i inside h =
      let (p, made, rest) = and_then-done (analyze_assignment strtof columns a) _ slots' h in
      let (at, named, same, read) = analyze_assignment-done columns a p made in
      let later =
        assign_all-Says columns as' (set slots p.0 (some p.1)) slots' i
          (omega (arith, length-set slots p.0 (some p.1), inside)) rest in
      subst
        (λ o.
          Says (or_first (last_assignment columns i as') (is_at i o) a) (get_or slots i none)
            (get_or slots' i none))
        (sym named)
        (Says-step (at.0 == i) (last_assignment columns i as') a p.1 _ _ _ read
          (λ here.
            let e : p.0 ≡ i = ground (arith, here, same) in
            subst (λ k. get_or (set slots k (some p.1)) i none ≡ some p.1) (sym e)
              (get_or-set slots i (some p.1) inside))
          (λ other. get_or-set_other slots i p.0 (some p.1) (ap (λ k. k == i) (sym same) ∙ other))
          later)

  -- The value that a column has: that of the last assignment to it, or its default.
  abbrev pub IsGiven : Option Assignment → Column → DataValue → Type 0
  IsGiven none c v = (c.has_default ≡ true) × (v ≡ c.default_value)
  IsGiven (some a) c v = raw_value strtof convert_error a.value ≡ done v

  -- The value that a slot leaves its column with.
  abbrev Filled : Column → Option DataValue → DataValue → Type 0
  Filled c none v = (c.has_default ≡ true) × (v ≡ c.default_value)
  Filled c (some w) v = v ≡ w

  Filled-cons :
      (d c : Column) (cs : List Column) (s : Option DataValue) (slots : Slots) (w : DataValue)
      (us : List DataValue) (i : ℕ)
      → get_elem? (d ∷ cs) i ≡ some c
      → Filled d s w
      → ((j : ℕ)
          → get_elem? cs j ≡ some c
          → (v : DataValue) × (get_elem? us j ≡ some v) × Filled c (get_or slots j none) v)
      → (v : DataValue) × (get_elem? (w ∷ us) i ≡ some v) × Filled c (get_or (s ∷ slots) i none) v
  Filled-cons d c cs s slots w us zero at first rest =
      let same : d ≡ c = cc in (w, refl, subst (λ e. Filled e s w) same first)
  Filled-cons d c cs s slots w us (suc i) at first rest = rest i at

  fill_defaults-Filled :
      (columns : List Column) (slots : Slots) (vs : List DataValue) (c : Column)
      → fill_defaults columns slots ≡ done vs
      → (i : ℕ) → get_elem? columns i ≡ some c
      → (v : DataValue) × (get_elem? vs i ≡ some v) × Filled c (get_or slots i none) v
  fill_defaults-Filled [] slots vs c h i at = cc
  fill_defaults-Filled (d ∷ cs) [] vs c h i at = cc
  fill_defaults-Filled (d ∷ cs) (some w ∷ slots) vs c h i at =
      let (us, rest, made) = and_then-done (fill_defaults cs slots) _ vs h in
      let same : w ∷ us ≡ vs = cc in
      subst
        (λ t.
          (v : DataValue) × (get_elem? t i ≡ some v) × Filled c (get_or (some w ∷ slots) i none) v)
        same
        (Filled-cons d c cs (some w) slots w us i at refl (fill_defaults-Filled cs slots us c rest))
  fill_defaults-Filled (d ∷ cs) (none ∷ slots) vs c h i at = elim (Bool-cases d.has_default) [
    | inl has ↦
        let (us, rest, made) =
          and_then-done (fill_defaults cs slots) _ vs (if_done_true d.has_default _ _ vs has h) in
        let same : d.default_value ∷ us ≡ vs = cc in
        subst
          (λ t.
            (v : DataValue) × (get_elem? t i ≡ some v) × Filled c (get_or (none ∷ slots) i none) v)
          same
          (Filled-cons d c cs none slots d.default_value us i at (has, refl)
            (fill_defaults-Filled cs slots us c rest))
    | inr has_none ↦ absurd (refused-done _ vs (if_done_else d.has_default _ _ vs has_none h))
  ]

  Filled-IsGiven :
      (o : Option Assignment) (c : Column) (v : DataValue) (after : Option DataValue)
      → Says o none after
      → Filled c after v
      → IsGiven o c v
  Filled-IsGiven none c v after says filled = subst (λ s. Filled c s v) says filled
  Filled-IsGiven (some a) c v after (w, read, same) filled =
      let e : v ≡ w = subst (λ s. Filled c s v) same filled in read ∙ ap done (sym e)

  insert_values-IsGiven :
      (columns : List Column) (as' : List Assignment) (vs : List DataValue)
      → insert_values strtof columns as' ≡ done vs
      → (i : ℕ) (c : Column) → get_elem? columns i ≡ some c
      → (v : DataValue) × (get_elem? vs i ≡ some v) × IsGiven (last_assignment columns i as') c v
  unfolding insert_values
  insert_values-IsGiven columns as' vs h i c at =
      elim (Bool-cases (ltb (length columns) (length as'))) [
        | inl many ↦
            absurd
              (refused-done _ vs (if_done_true (ltb (length columns) (length as')) _ _ vs many h))
        | inr few ↦
            let start : Slots = replicate (length columns) none in
            let inside = get_elem?-lt columns i at in
            let (slots, made, filled) =
              and_then-done (assign_all strtof columns as' start) (fill_defaults columns) vs
                (if_done_else (ltb (length columns) (length as')) _ _ vs few h) in
            let says =
              assign_all-Says columns as' start slots i
                (omega
                  (arith, length-replicate {A = Option DataValue} (length columns) none, inside))
                made in
            let (v, there, full) = fill_defaults-Filled columns slots vs c filled i at in
            (
              v,
              there,
              Filled-IsGiven (last_assignment columns i as') c v (get_or slots i none)
                  (subst (λ s. Says (last_assignment columns i as') s (get_or slots i none))
                    (get_or-replicate (length columns) i) says)
                  full,
            )
      ]

  -- The values that the analysis of an insert gives are those of the statement: each column of its table
  -- has the value of the literal of the last assignment to it, and a column with no assignment has a
  -- default, which is its value.
  pub analyze_insert-IsGiven :
      (db : Database) (stmt : InsertStmt) (t : TableMeta) (vs : List DataValue)
      → analyze_insert strtof db stmt ≡ done (t, vs)
      → (i : ℕ) (c : Column) → get_elem? t.schema.columns i ≡ some c
      → (v : DataValue) × (get_elem? vs i ≡ some v)
        × IsGiven (last_assignment t.schema.columns i stmt.assignments) c v
  unfolding analyze_insert
  analyze_insert-IsGiven db stmt t vs h i c at =
      let (t', named, h1) = and_then-done (named_table db stmt.table) _ (t, vs) h in
      let (vs', made, h2) =
        and_then-done (insert_values strtof t'.schema.columns stmt.assignments) _ (t, vs) h1 in
      let both : (t', vs') ≡ (t, vs) = cc in
      let same_table : t' ≡ t = ap (λ (q : TableMeta × List DataValue). q.0) both in
      let same_values : vs' ≡ vs = ap (λ (q : TableMeta × List DataValue). q.1) both in
      insert_values-IsGiven t.schema.columns stmt.assignments vs
        (subst (λ u. insert_values strtof u.schema.columns stmt.assignments ≡ done vs) same_table
          (made ∙ ap done same_values))
        i c at
