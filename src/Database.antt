-- ===== src/Database.antt =====
-- src/database/database.c: the tables in memory, and the catalogue file with their names. `writable` is
-- whether the file can be opened for writing.
pub mod RoundTrip
use maxql.Prelude.{
  ℕ, zero, suc, ◌+◌, ◌-◌, min, List, [], ◌∷◌, ◌++◌, Bool, true, false, Option, none, some, length,
  take, drop, get_or, ltb, ◌==◌, if◌then◌else◌,
}
use maxql.Core.Error.{Error, error_ok, error_fmt, error_fatal_fmt, err_storage}
use maxql.Core.Result.{Result, done, refused, undefined, and_then}
use maxql.Core.StrView.{until_nul}
use maxql.Schema.Table.{TableSchema, IndexDefinition, TableMeta}
use maxql.Types.Compare.{strcmp}
use maxql.Types.Resolve.{is_eq}

pub record Database : Type 0 where
  pub tables : List TableMeta
  pub catalog : List ℕ

-- `COPY_STRING` to a buffer, without the 0 at the end.
abbrev pub copy_string : ℕ → List ℕ → List ℕ
copy_string size src = take (size - 1) (until_nul src)

unfoldable pub table_named : List TableMeta → List ℕ → Option TableMeta
unfolding strcmp
table_named [] name = none
table_named (t ∷ ts) name = if is_eq (strcmp name t.name) then some t else table_named ts name

unfoldable pub database_table_by_name : Database → List ℕ → Option TableMeta
unfolding table_named
database_table_by_name db name = table_named db.tables name

-- What `snprintf` writes of a name and its end of line, the 0 behind them, and where the next one starts:
-- behind all that it would have written.
abbrev pub catalog_entry : List ℕ → List ℕ
catalog_entry name = take (length name + 1) (take 31 (name ++ 10 ∷ []) ++ 0 ∷ [])

-- The buffer of 8192 bytes up to the last 0. `none` is a write behind its end.
unfoldable pub catalog_buffer : ℕ → List TableMeta → Option (List ℕ)
catalog_buffer offset [] = some (0 ∷ [])
catalog_buffer offset (t ∷ ts) =
    let rest = catalog_buffer (offset + length t.name + 1) ts in
    if ltb 8192 (offset + min (length t.name + 2) 32)
    then none
    else elim rest [ none ↦ none | some bytes ↦ some (catalog_entry t.name ++ bytes) ]

-- With no tables, the buffer that is printed has never been written.
unfoldable pub catalog_text : List TableMeta → Option (List ℕ)
unfolding catalog_buffer
catalog_text [] = none
catalog_text (t ∷ ts) = elim (catalog_buffer 0 (t ∷ ts)) [
  | none ↦ none
  | some bytes ↦ some (until_nul bytes)
]

abbrev pub saved : Option (List ℕ) → Database → Result Database
saved none db = undefined
saved (some text) db = done (record db { catalog = text })

unfoldable pub database_save : Bool → Database → Result Database
unfolding catalog_text
database_save writable db =
    if writable
    then saved (catalog_text db.tables) db
    else refused (error_fatal_fmt err_storage "Cannot open catalog file")

-- The new table is last, and is taken away again if the catalogue is not saved: `refused` leaves the
-- database as it was.
unfoldable pub database_add_table : Bool → Database → TableSchema → Result Database
unfolding database_save
database_add_table writable db schema =
    let table_meta : TableMeta = record {
      name = copy_string 32 schema.table_name;
      schema = schema;
      index_meta = [];
    } in
    database_save writable (record db { tables = db.tables ++ table_meta ∷ [] })

-- The loop moves each table behind the first one of the name down by one.
unfoldable pub remove_named : List TableMeta → List ℕ → List TableMeta
unfolding strcmp
remove_named [] name = []
remove_named (t ∷ ts) name = if is_eq (strcmp t.name name) then ts else t ∷ remove_named ts name

-- The tables in memory stay without the one that is removed, also where the catalogue is not saved.
unfoldable pub database_remove_table : Bool → Database → List ℕ → Database × Result Database
unfolding remove_named database_save
database_remove_table writable db table_name =
    let left : Database = record db { tables = remove_named db.tables table_name } in
    (left, database_save writable left)

-- `fgets`: the bytes up to the end of line, at most as many as fit, and those behind.
abbrev pub read_line : ℕ → List ℕ → List ℕ × List ℕ
read_line zero s = ([], s)
read_line (suc n) [] = ([], [])
read_line (suc n) (c ∷ s) =
    if c == 10 then (c ∷ [], s) else ((c ∷ (read_line n s).0), (read_line n s).1)

abbrev pub skip_newlines : List ℕ → List ℕ
skip_newlines [] = []
skip_newlines (c ∷ s) = if c == 10 then skip_newlines s else c ∷ s

abbrev pub until_newline : List ℕ → List ℕ
until_newline [] = []
until_newline (c ∷ s) = if c == 10 then [] else c ∷ until_newline s

abbrev pub token_of : List ℕ → Option (List ℕ)
token_of [] = none
token_of (c ∷ s) = some (until_newline (c ∷ s))

-- `strtok` for the first token of a line; none is a null pointer.
abbrev pub first_token : List ℕ → Option (List ℕ)
first_token line = token_of (skip_newlines (until_nul line))

module _ (schema_loader : List ℕ → Result (TableSchema × List IndexDefinition)) where
  -- One round of the loop, on the token of its line. The length of a null pointer is undefined.
  abbrev pub load_table : Option (List ℕ) → Result TableMeta
  load_table none = undefined
  load_table (some name) =
      if ltb 31 (length name)
      then refused (error_fmt err_storage "Too long table name in catalog")
      else and_then (schema_loader name)
          (λ loaded. done (record { name = name; schema = loaded.0; index_meta = loaded.1 }))

  -- The loop over the lines. A round takes a byte at least, so that there are no more rounds than bytes.
  unfoldable pub load_tables : ℕ → List ℕ → Result (List TableMeta)
  load_tables fuel [] = done []
  load_tables zero (c ∷ s) = undefined
  load_tables (suc fuel) (c ∷ s) =
      let (line, rest) = read_line 63 (c ∷ s) in
      and_then (load_table (first_token line))
        (λ t. and_then (load_tables fuel rest) (λ ts. done (t ∷ ts)))

  unfoldable pub database_load : Option (List ℕ) → Result Database
  unfolding load_tables
  database_load none = refused (error_fatal_fmt err_storage "Cannot open catalog file")
  database_load (some text) =
      and_then (load_tables (length text) text)
        (λ tables. done (record { tables = tables; catalog = text }))
