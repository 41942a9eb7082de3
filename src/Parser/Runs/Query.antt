-- ===== src/Parser/Runs/Query.antt =====
-- Every query ends.
use maxql.Prelude.{◌≡◌, some, Bool}
use Prim.Native.String.{String}
use maxql.Core.Lexer.Laws.{IsLexer}
use maxql.Parser.Ast.{ParseResult}
use maxql.Parser.State.{Parser, M}
use maxql.Parser.Query.{
  parse_end, parse_select, parse_delete, parse_insert, parse_update, parse_create_table,
  parse_create_index, parse_drop_table, parse_show_tables, parse_show_table, parse_show_index,
  parse_drop_index, parse_show_index_types, parse_truncate_table, on_keyword, parse_no_query,
  parse_show, parse_from_truncate, parse_drop, parse_from_drop, parse_create, parse_query,
}
use maxql.Parser.Runs.{Keeps, Ends-some, Runs, Runs-bind, Runs-branch}
use maxql.Parser.Runs.Primitives.{parser_accept_keyword-Runs}
use maxql.Parser.Runs.Parts.{
  parts, parse_ident_list-Runs, parse_condition_list-Runs, parse_assignment_list-Runs,
  parse_column_def_list-Runs, parse_index_key_part_list-Runs,
}

parse_end-Runs : Runs parse_end
unfolding parse_end
parse_end-Runs = search parts

ruleset statement = (
  parts, parse_end-Runs, parse_ident_list-Runs, parse_condition_list-Runs,
  parse_assignment_list-Runs, parse_column_def_list-Runs, parse_index_key_part_list-Runs,
)

parse_select-Runs : Runs parse_select
unfolding parse_select
parse_select-Runs = search statement depth 16

parse_delete-Runs : Runs parse_delete
unfolding parse_delete
parse_delete-Runs = search statement depth 16

parse_insert-Runs : Runs parse_insert
unfolding parse_insert
parse_insert-Runs = search statement depth 16

parse_update-Runs : Runs parse_update
unfolding parse_update
parse_update-Runs = search statement depth 16

parse_create_table-Runs : Runs parse_create_table
unfolding parse_create_table
parse_create_table-Runs = search statement depth 16

parse_create_index-Runs : (b : Bool) → Runs (parse_create_index b)
unfolding parse_create_index
parse_create_index-Runs b = search statement depth 20

parse_drop_table-Runs : Runs parse_drop_table
unfolding parse_drop_table
parse_drop_table-Runs = search statement depth 16

parse_show_tables-Runs : Runs parse_show_tables
unfolding parse_show_tables
parse_show_tables-Runs = search statement

parse_show_table-Runs : Runs parse_show_table
unfolding parse_show_table
parse_show_table-Runs = search statement

parse_show_index-Runs : Runs parse_show_index
unfolding parse_show_index
parse_show_index-Runs = search statement depth 9

parse_drop_index-Runs : Runs parse_drop_index
unfolding parse_drop_index
parse_drop_index-Runs = search statement depth 9

parse_show_index_types-Runs : Runs parse_show_index_types
unfolding parse_show_index_types
parse_show_index_types-Runs = search statement

parse_truncate_table-Runs : Runs parse_truncate_table
unfolding parse_truncate_table
parse_truncate_table-Runs = search statement

on_keyword-Runs :
    (keyword : String) (m after : M ParseResult)
    → Runs m
    → Runs after
    → Runs (on_keyword keyword m after)
unfolding on_keyword
on_keyword-Runs keyword m after h k =
    Runs-bind _ _ (parser_accept_keyword-Runs keyword) (λ b. Runs-branch b m after h k)

parse_no_query-Runs : Runs parse_no_query
unfolding parse_no_query
parse_no_query-Runs = search statement

ruleset choice = (statement, on_keyword-Runs, parse_no_query-Runs)

parse_show-Runs : Runs parse_show
unfolding parse_show
parse_show-Runs =
    search
      (
        choice, parse_show_tables-Runs, parse_show_table-Runs, parse_show_index-Runs,
        parse_show_index_types-Runs,
      )
      depth 9

parse_from_truncate-Runs : Runs parse_from_truncate
unfolding parse_from_truncate
parse_from_truncate-Runs = search (choice, parse_truncate_table-Runs, parse_show-Runs)

parse_drop-Runs : Runs parse_drop
unfolding parse_drop
parse_drop-Runs =
    search (choice, parse_drop_table-Runs, parse_drop_index-Runs, parse_from_truncate-Runs) depth 9

parse_from_drop-Runs : Runs parse_from_drop
unfolding parse_from_drop
parse_from_drop-Runs = search (choice, parse_drop-Runs, parse_from_truncate-Runs)

parse_create-Runs : Runs parse_create
unfolding parse_create
parse_create-Runs =
    search (choice, parse_create_table-Runs, parse_create_index-Runs, parse_from_drop-Runs) depth 9

parse_query-Runs : Runs parse_query
unfolding parse_query
parse_query-Runs =
    search
      (
        choice, parse_select-Runs, parse_delete-Runs, parse_insert-Runs, parse_update-Runs,
        parse_create-Runs, parse_from_drop-Runs,
      )
      depth 12

-- From every state on a C string the query parser returns; the input is then a C string at a
-- position inside it, no token has come back, and an error that was set is still the one set.
pub parse_query_total :
    (p : Parser)
    → IsLexer p.lexer
    → (q : ParseResult) × (p' : Parser) × (parse_query p ≡ some (q, p')) × Keeps p p'
parse_query_total p w = Ends-some (parse_query-Runs p w)
