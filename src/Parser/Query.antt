-- ===== src/Parser/Query.antt =====
-- src/parser/parser.c: a parser for each statement, and the choice between them.
use maxql.Prelude.{[], Bool, true, false}
use Prim.Native.String.{String}
use maxql.Core.StrView.{StrView}
use maxql.Core.Error.{err_parser, error_ok}
use maxql.Core.Lexer.{
  token_eof, token_ident, token_lparen, token_rparen, token_star, token_semicolon, lexer_init,
}
use maxql.Parser.Ast.{
  ParseResult, query_unknown, query_create_table, query_drop_table, query_create_index,
  query_drop_index, query_truncate_table, query_select, query_delete, query_insert, query_update,
  query_show_tables, query_show_table, query_show_index, query_show_index_types, no_view,
}
use maxql.Parser.State.{Parser, M, pure, ◌>>=◌, ◌>>◌, branch}
use maxql.Parser.Primitives.{
  advance, parser_set_error, parser_check, parser_accept, parser_expect, parser_accept_keyword,
  parser_expect_keyword, parse_ident, parse_ident_list, parse_condition_list, parse_assignment_list,
  parse_column_def_list, parse_index_key_part_list,
}

-- The end of every statement: an optional semicolon and the end of the input.
unfoldable pub parse_end : M (Unit {0})
parse_end = do parser_accept token_semicolon; parser_expect token_eof

unfoldable pub parse_select : M ParseResult
parse_select = do
  star ← parser_accept token_star
  columns ← branch star (pure []) parse_ident_list
  parser_expect_keyword "from"
  table ← parse_ident
  ignore_index ← parser_accept_keyword "ignore_index"
  has_where ← parser_accept_keyword "where"
  conditions ← branch has_where parse_condition_list (pure [])
  parse_end
  pure (
      query_select (record {
        columns = columns;
        table = table;
        ignore_index = ignore_index;
        where_list = conditions;
      }))

unfoldable pub parse_delete : M ParseResult
parse_delete = do
  parser_expect_keyword "from"
  table ← parse_ident
  parser_expect_keyword "where"
  conditions ← parse_condition_list
  parse_end
  pure (query_delete (record { table = table; where_list = conditions }))

unfoldable pub parse_insert : M ParseResult
parse_insert = do
  parser_expect_keyword "into"
  table ← parse_ident
  parser_expect_keyword "set"
  assignments ← parse_assignment_list
  parse_end
  pure (query_insert (record { table = table; assignments = assignments }))

unfoldable pub parse_update : M ParseResult
parse_update = do
  table ← parse_ident
  parser_expect_keyword "set"
  assignments ← parse_assignment_list
  parser_expect_keyword "where"
  conditions ← parse_condition_list
  parse_end
  pure (query_update (record { table = table; assignments = assignments; where_list = conditions }))

unfoldable pub parse_create_table : M ParseResult
parse_create_table = do
  table ← parse_ident
  parser_expect token_lparen
  column_defs ← parse_column_def_list
  parser_expect token_rparen
  parse_end
  pure (query_create_table (record { table = table; column_defs = column_defs }))

unfoldable pub parse_create_index : Bool → M ParseResult
parse_create_index is_unique = do
  name ← parse_ident
  has_type ← parser_accept_keyword "using"
  type ← branch has_type parse_ident (pure no_view)
  parser_expect_keyword "on"
  table ← parse_ident
  parser_expect token_lparen
  key_parts ← parse_index_key_part_list
  parser_expect token_rparen
  parse_end
  pure (
      query_create_index (record {
        is_unique = is_unique;
        name = name;
        type = type;
        table = table;
        key_parts = key_parts;
      }))

unfoldable pub parse_drop_table : M ParseResult
parse_drop_table = do
  table ← parse_ident
  parse_end
  pure (query_drop_table (record { table = table }))

unfoldable pub parse_show_tables : M ParseResult
parse_show_tables = do parse_end; pure query_show_tables

unfoldable pub parse_show_table : M ParseResult
parse_show_table = do
  table ← parse_ident
  parse_end
  pure (query_show_table (record { table = table }))

unfoldable pub parse_show_index : M ParseResult
parse_show_index = do
  parser_expect_keyword "on"
  table ← parse_ident
  parse_end
  pure (query_show_index (record { table = table }))

unfoldable pub parse_drop_index : M ParseResult
parse_drop_index = do
  index ← parse_ident
  parser_expect_keyword "on"
  table ← parse_ident
  parse_end
  pure (query_drop_index (record { table = table; index = index }))

unfoldable pub parse_show_index_types : M ParseResult
parse_show_index_types = do parse_end; pure query_show_index_types

unfoldable pub parse_truncate_table : M ParseResult
parse_truncate_table = do
  table ← parse_ident
  parse_end
  pure (query_truncate_table (record { table = table }))

-- `if (parser_accept_keyword(parser, keyword)) return m;` with what follows it.
unfoldable pub on_keyword : String → M ParseResult → M ParseResult → M ParseResult
on_keyword keyword m after = do accepted ← parser_accept_keyword keyword; branch accepted m after

-- The last statement of `parse_query`.
unfoldable pub parse_no_query : M ParseResult
parse_no_query = do parser_set_error err_parser "Expected query type"; pure query_unknown

-- After `create`, `drop` and `show` with no known word behind it the next tests are still made.
unfoldable pub parse_show : M ParseResult
parse_show = on_keyword "tables" parse_show_tables (
    on_keyword "table" parse_show_table (
      on_keyword "index" (on_keyword "types" parse_show_index_types parse_show_index)
        (do parser_set_error err_parser "Unknown show query"; parse_no_query)))

unfoldable pub parse_from_truncate : M ParseResult
parse_from_truncate =
    on_keyword "truncate" parse_truncate_table (on_keyword "show" parse_show parse_no_query)

unfoldable pub parse_drop : M ParseResult
parse_drop = on_keyword "table" parse_drop_table (
    on_keyword "index" parse_drop_index
      (do parser_set_error err_parser "Unknown drop query"; parse_from_truncate))

unfoldable pub parse_from_drop : M ParseResult
parse_from_drop = on_keyword "drop" parse_drop parse_from_truncate

unfoldable pub parse_create : M ParseResult
parse_create = on_keyword "table" parse_create_table (
    on_keyword "unique" (do parser_expect_keyword "index"; parse_create_index true)
      (on_keyword "index" (parse_create_index false)
        (do parser_set_error err_parser "Unknown create query"; parse_from_drop)))

unfoldable pub parse_query : M ParseResult
parse_query = do
  ident ← parser_check token_ident
  branch ident
      (on_keyword "select" parse_select (
        on_keyword "delete" parse_delete (
          on_keyword "insert" parse_insert
            (on_keyword "update" parse_update (on_keyword "create" parse_create parse_from_drop)))))
      parse_no_query

-- `current` before the first token is what `{}` gives.
unfoldable pub parser_init : StrView → Parser
parser_init input = advance (record {
  lexer = lexer_init input;
  current = record { type = token_eof; lexeme = no_view };
  error = error_ok;
})
