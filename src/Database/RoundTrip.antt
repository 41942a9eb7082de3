-- ===== src/Database/RoundTrip.antt =====
-- The catalogue file that src/database/database.c writes, read again.
use maxql.Prelude.{
  ℕ, zero, suc, ◌+◌, ◌≤◌, ◌<◌, min, List, [], ◌∷◌, ◌++◌, true, false, some, ◌≡◌, refl, sym, ap, ◌∙◌,
  arith, length, take, All, append_assoc, length-append, ltb, ◌==◌,
}
use maxql.Core.Result.{Result, done, and_then}
use maxql.Core.StrView.{until_nul}
use maxql.Schema.Table.{TableSchema, IndexDefinition, TableMeta}
use maxql.Database.{
  Database, catalog_entry, catalog_buffer, catalog_text, saved, database_save, read_line,
  skip_newlines, until_newline, first_token, token_of, load_table, load_tables, database_load,
}

-- A name of at most 30 characters, none of them a space or a control character.
pub record IsName (name : List ℕ) : Type 0 where
  pub some_character : 1 ≤ length name
  pub short : length name ≤ 30
  pub visible : All (λ c. 33 ≤ c) name

-- The lines of a catalogue.
abbrev pub lines : List TableMeta → List ℕ
lines [] = []
lines (t ∷ ts) = t.name ++ 10 ∷ lines ts

take_all : (n : ℕ) (xs : List ℕ) → length xs ≤ n → take n xs ≡ xs
take_all zero [] h = refl
take_all zero (x ∷ xs) h = absurd (omega arith)
take_all (suc n) [] h = refl
take_all (suc n) (x ∷ xs) h = ap (λ t. x ∷ t) (take_all n xs (omega arith))

take-append : (n : ℕ) (xs ys : List ℕ) → n ≡ length xs → take n (xs ++ ys) ≡ xs
take-append zero [] ys h = refl
take-append zero (x ∷ xs) ys h = absurd (omega arith)
take-append (suc n) [] ys h = absurd (omega arith)
take-append (suc n) (x ∷ xs) ys h = ap (λ t. x ∷ t) (take-append n xs ys (omega arith))

catalog_entry_lem : (name : List ℕ) → length name ≤ 30 → catalog_entry name ≡ name ++ 10 ∷ []
catalog_entry_lem name h =
    ap (λ t. take (length name + 1) (t ++ 0 ∷ []))
      (take_all 31 (name ++ 10 ∷ []) (omega (arith, length-append name (10 ∷ []), h)))
    ∙ take-append (length name + 1) (name ++ 10 ∷ []) (0 ∷ [])
        (omega (arith, length-append name (10 ∷ [])))

catalog_buffer-lines :
    (offset : ℕ) (ts : List TableMeta)
    → All (λ t. IsName t.name) ts
    → offset + length (lines ts) ≤ 8191
    → catalog_buffer offset ts ≡ some (lines ts ++ 0 ∷ [])
unfolding catalog_buffer
catalog_buffer-lines offset [] h k = refl
catalog_buffer-lines offset (t ∷ ts) h k =
    let size : length (lines (t ∷ ts)) ≡ length t.name + suc (length (lines ts)) =
      length-append t.name (10 ∷ lines ts) in
    let room : ltb 8192 (offset + min (length t.name + 2) 32) ≡ false = ground (arith, k, size) in
    let rest : catalog_buffer (offset + length t.name + 1) ts ≡ some (lines ts ++ 0 ∷ []) =
      catalog_buffer-lines (offset + length t.name + 1) ts h.1 (omega (arith, k, size)) in
    rw (room, rest)
      (ap (λ e. some (e ++ (lines ts ++ 0 ∷ []))) (catalog_entry_lem t.name h.0.short)
        ∙ ap some (
            append_assoc t.name (10 ∷ []) (lines ts ++ 0 ∷ [])
            ∙ sym (append_assoc t.name (10 ∷ lines ts) (0 ∷ []))))

until_nul-visible :
    (xs ys : List ℕ) → All (λ c. 33 ≤ c) xs → until_nul (xs ++ ys) ≡ xs ++ until_nul ys
until_nul-visible [] ys h = refl
until_nul-visible (c ∷ xs) ys h =
    let p : (c == 0) ≡ false = ground (arith, h.0) in
    rw (p) (ap (λ t. c ∷ t) (until_nul-visible xs ys h.1))

until_nul-lines :
    (ts : List TableMeta) → All (λ t. IsName t.name) ts → until_nul (lines ts ++ 0 ∷ []) ≡ lines ts
until_nul-lines [] h = refl
until_nul-lines (t ∷ ts) h =
    ap until_nul (append_assoc t.name (10 ∷ lines ts) (0 ∷ []))
    ∙ until_nul-visible t.name (10 ∷ lines ts ++ 0 ∷ []) h.0.visible
    ∙ ap (λ u. t.name ++ 10 ∷ u) (until_nul-lines ts h.1)

read_line_lem :
    (n : ℕ) (name rest : List ℕ)
    → length name < n
    → All (λ c. 33 ≤ c) name
    → read_line n (name ++ 10 ∷ rest) ≡ (name ++ 10 ∷ [], rest)
read_line_lem zero name rest h k = absurd (omega arith)
read_line_lem (suc n) [] rest h k = refl
read_line_lem (suc n) (c ∷ name) rest h k =
    let p : (c == 10) ≡ false = ground (arith, k.0) in
    rw (p)
      (ap (λ (q : List ℕ × List ℕ). ((c ∷ q.0), q.1)) (read_line_lem n name rest (omega arith) k.1))

until_newline-visible :
    (name : List ℕ) → All (λ c. 33 ≤ c) name → until_newline (name ++ 10 ∷ []) ≡ name
until_newline-visible [] h = refl
until_newline-visible (c ∷ name) h =
    let p : (c == 10) ≡ false = ground (arith, h.0) in
    rw (p) (ap (λ t. c ∷ t) (until_newline-visible name h.1))

skip_newlines-visible :
    (name rest : List ℕ)
    → 1 ≤ length name
    → All (λ c. 33 ≤ c) name
    → skip_newlines (name ++ rest) ≡ name ++ rest
skip_newlines-visible [] rest h k = absurd (omega arith)
skip_newlines-visible (c ∷ name) rest h k =
    let p : (c == 10) ≡ false = ground (arith, k.0) in rw (p) refl

token_of-visible :
    (name : List ℕ)
    → 1 ≤ length name
    → All (λ c. 33 ≤ c) name
    → token_of (name ++ 10 ∷ []) ≡ some name
token_of-visible [] h k = absurd (omega arith)
token_of-visible (c ∷ name) h k = ap some (until_newline-visible (c ∷ name) k)

first_token_lem : (name : List ℕ) → IsName name → first_token (name ++ 10 ∷ []) ≡ some name
first_token_lem name h =
    ap (λ t. token_of (skip_newlines t)) (until_nul-visible name (10 ∷ []) h.visible)
    ∙ ap token_of (skip_newlines-visible name (10 ∷ []) h.some_character h.visible)
    ∙ token_of-visible name h.some_character h.visible

module _ (schema_loader : List ℕ → Result (TableSchema × List IndexDefinition)) where
  -- The schema file of a table holds the table's columns and indexes.
  abbrev pub IsSaved : TableMeta → Type 0
  IsSaved t = schema_loader t.name ≡ done (t.schema, t.index_meta)

  load_table_lem :
      (t : TableMeta) → IsName t.name → IsSaved t → load_table schema_loader (some t.name) ≡ done t
  load_table_lem t h k =
      let short : ltb 31 (length t.name) ≡ false = ground (arith, h.short) in rw (short, k) refl

  loaded : ℕ → List ℕ × List ℕ → Result (List TableMeta)
  loaded fuel p =
      and_then (load_table schema_loader (first_token p.0))
        (λ t. and_then (load_tables schema_loader fuel p.1) (λ ts. done (t ∷ ts)))

  load_step :
      (fuel : ℕ) (text : List ℕ)
      → 1 ≤ length text
      → load_tables schema_loader (suc fuel) text ≡ loaded fuel (read_line 63 text)
  unfolding load_tables loaded
  load_step fuel [] h = absurd (omega arith)
  load_step fuel (c ∷ s) h = refl

  load_tables-lines :
      (fuel : ℕ) (ts : List TableMeta)
      → length (lines ts) ≤ fuel
      → All (λ t. IsName t.name) ts
      → All IsSaved ts
      → load_tables schema_loader fuel (lines ts) ≡ done ts
  unfolding load_tables loaded
  load_tables-lines fuel [] room h k = refl
  load_tables-lines zero (t ∷ ts) room h k =
      absurd (omega (arith, room, length-append t.name (10 ∷ lines ts)))
  load_tables-lines (suc fuel) (t ∷ ts) room h k =
      let size : length (lines (t ∷ ts)) ≡ length t.name + suc (length (lines ts)) =
        length-append t.name (10 ∷ lines ts) in
      load_step fuel (lines (t ∷ ts)) (omega (arith, size))
      ∙ ap (loaded fuel) (read_line_lem 63 t.name (lines ts) (omega (arith, h.0.short)) h.0.visible)
      ∙ ap
          (λ o.
            and_then (load_table schema_loader o)
              (λ u. and_then (load_tables schema_loader fuel (lines ts)) (λ us. done (u ∷ us))))
          (first_token_lem t.name h.0)
      ∙ ap
          (λ r.
            and_then r
              (λ u. and_then (load_tables schema_loader fuel (lines ts)) (λ us. done (u ∷ us))))
          (load_table_lem t h.0 k.0)
      ∙ ap (λ r. and_then r (λ us. done (t ∷ us)))
          (load_tables-lines fuel ts (omega (arith, room, size)) h.1 k.1)

  catalog_text-lines :
      (ts : List TableMeta)
      → 1 ≤ length ts
      → All (λ t. IsName t.name) ts
      → length (lines ts) ≤ 8191
      → catalog_text ts ≡ some (lines ts)
  unfolding catalog_text
  catalog_text-lines [] some_table h fits = absurd (omega arith)
  catalog_text-lines (t ∷ ts) some_table h fits =
      rw (catalog_text, catalog_buffer-lines 0 (t ∷ ts) h (omega (arith, fits)))
        (ap some (until_nul-lines (t ∷ ts) h))

  -- A database that has a table, whose names have 1 to 30 visible characters and fit the buffer with
  -- their ends of line, and whose schema files hold its schemas, is saved to a catalogue file that loads
  -- as the same tables.
  pub database_save-database_load :
      (db : Database)
      → 1 ≤ length db.tables
      → All (λ t. IsName t.name) db.tables
      → length (lines db.tables) ≤ 8191
      → All IsSaved db.tables
      → (text : List ℕ) × (database_save true db ≡ done (record db { catalog = text }))
        × (database_load schema_loader (some text) ≡ done (record db { catalog = text }))
  unfolding database_save database_load
  database_save-database_load db some_table h fits k = (
    lines db.tables,
    ap (λ o. saved o db) (catalog_text-lines db.tables some_table h fits),
    ap (λ r. and_then r (λ tables. done (record { tables = tables; catalog = lines db.tables })))
        (load_tables-lines (length (lines db.tables)) db.tables (omega arith) h k),
  )
