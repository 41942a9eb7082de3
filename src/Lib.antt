-- ===== src/Lib.antt =====
-- maxQL, a SQL database engine: a model of its core, and what is proved of it.
--
-- A statement's text goes through the lexer (src/core/lexer.c) and the parser (src/parser), and an
-- index is a B-tree (src/index/btree.c) from keys, the bytes of one or more columns, to the offsets
-- of rows, ordered by a comparison of keys (src/index/comparator.c, src/types/key_compare.c).
--
-- Core.StrView, Core.Error, Core.Lexer: include/maxql/core and src/core. A string view holds the
-- bytes from its pointer on; a byte past the end of the list is read as 0, as the end of a C string
-- is. The loops of the lexer run on fuel, the bytes left of the input, which is enough since each
-- round takes a byte.
-- Parser.Ast, Parser.State, Parser.Primitives, Parser.Query, Parser.Schema: src/parser. A parser is
-- a state transformer. A loop that runs out of fuel gives `none`; the fuel is counted from the
-- tokens left, since each round takes a token. Growing arrays are lists.
-- Engine.DdlValidator, Engine.DmlValidator, Engine.Stages: src/engine/ddl/validator.c and
-- src/engine/dml/validator.c, and which of them is the first stage of a statement in
-- src/engine/engine.c. A statement that shows something has no validator.
-- Engine.DmlTypes, Engine.DmlPlanner: src/engine/dml/planner.c with its plans.
-- Engine.DmlExecutor, Scan.IndexScan: execute_insert and execute_select of src/engine/dml/executor.c
-- and src/scan/index_scan.c. The state is a table's data file and its indexes. A select gives the
-- values that it prints, not their layout.
-- Index.Registry, Index.Keys, Index.Set: src/index/index.c and src/index/index_set.c. What an index
-- promises to them is in Index.Mirror, over any type of its data; Btree.Handle fills it with the
-- B-tree. What is kept of an index between statements is the tree that was saved: a statement
-- loads it from the pages that are written for it (Btree.Pages), or searches these. An empty file, of
-- a tree without a root, can be neither loaded nor searched. The loops over pages run on fuel, the
-- number of pages, which is enough since each step goes down a level.
-- Types.KeyCompare, Index.Comparator: the comparison of keys, by its sign. An integer is the 32-bit
-- word of its bits.
-- Types.Value, Types.Compare, Types.Mapper, Types.Resolve: src/types/mapper.c, src/types/comparator.c
-- and the types of include/maxql. Where the C code would read another member of a union than the one
-- stored, or write past a field, the model gives `none`.
-- Types.Converter, Types.Formatter: src/types/converter.c, src/types/formatter.c and
-- src/types/presentation.c. `strtof` and the text of a float are parameters; what is asked of
-- `strtof` is that it answers with the 32 bits of a float.
-- Core.Result: a function that returns an `Error`. Its result is the values written, the error, or
-- `undefined`, where the C code reads what is not there.
-- Database: src/database/database.c. The catalogue file is its text; whether it can be opened for
-- writing is an argument. The loop that loads it runs on fuel, the bytes of the file, which is
-- enough since each round takes a line.
-- Engine.Checks, Engine.DmlAnalyzer: src/engine/dml/analyzer.c.
-- Engine.ColumnTypes, Engine.DdlPlanner, Engine.IndexPlanner: src/engine/ddl/planner.c.
-- Engine.DmlChanges: execute_delete and execute_update of src/engine/dml/executor.c.
-- Schema.Load: schema_load_table of src/schema/schema_io.c and index_resolve of
-- src/index/index_io.c.
-- Schema.Table: src/schema/schema.c, with the schema, the index definitions and the table.
-- Storage, Scan: src/storage/storage.c, src/serializer/serializer.c, src/scan/table_scan.c and the
-- loop over a row source in src/engine/dml/executor.c. A data file is the list of its bytes. A scan
-- runs on fuel, one more than the bytes of the file, which is enough since each row takes three bytes
-- at least.
-- Btree.Layout, Btree.Node, Btree.Insert, Btree.Search, Btree.Delete: src/index/btree.c. A node
-- holds the entries and children in use, and a tree owns its nodes: the parent pointers of the C
-- nodes are the path that the walk to a leaf keeps. A read of a missing child, of an unset cell or
-- behind an array gives `none`. The recursion of the deletion runs on the height of the tree as
-- fuel, which is enough since each step goes down a level. The merge of two inner nodes leaves a
-- child's cell unset, and the steal from a full right node reads behind its arrays: they have no
-- result in the model.
--
-- Not modelled: the bytes of the pages of an index file, the text of a schema file that is written,
-- the execution of statements on schemas and of those that show something, the files themselves and
-- the terminal; allocation and its failure.
pub mod Prelude
pub mod Core
pub mod Parser
pub mod Types
pub mod Schema
pub mod Database
pub mod Storage
pub mod Scan
pub mod Btree
pub mod Index
pub mod Engine
pub mod Tests
