-- ===== src/Parser/Schema.antt =====
-- src/parser/schema_parser.c: the text of a `.schema` file.
use maxql.Prelude.{ℕ, zero, suc, List, [], ◌∷◌, Bool, none, ◌&&◌, not}
use maxql.Core.Error.{error_is_ok}
use maxql.Core.Lexer.{token_lparen, token_rparen, token_comma, is_type}
use maxql.Parser.Ast.{ColumnDef, IndexDef, SchemaParseResult}
use maxql.Parser.State.{M, pure, ◌>>=◌, ◌>>◌, branch, tokens_left}
use maxql.Parser.Primitives.{
  parser_accept, parser_expect, parser_accept_keyword, parser_expect_keyword, parse_ident,
  parse_column_def, parse_index_key_part_list,
}

-- `!parser_check(parser, TOKEN_RPAREN) && error_is_ok(parser->error)`.
unfoldable pub goes_on : M Bool
goes_on p = pure (not (is_type p.current.type token_rparen) && error_is_ok p.error) p

-- `while (goes_on) { item; parser_accept(parser, TOKEN_COMMA); }`, pushing each item.
unfoldable pub while_list : {A : Type 0} → ℕ → M A → M (List A)
while_list zero item = λ p. none
while_list (suc f) item = do
  more ← goes_on
  branch more (do a ← item; parser_accept token_comma; as' ← while_list f item; pure (a ∷ as'))
      (pure [])

unfoldable pub schema_list : {A : Type 0} → M A → M (List A)
schema_list item p = while_list (suc (suc (tokens_left p))) item p

unfoldable pub parse_schema_column_def_list : M (List ColumnDef)
parse_schema_column_def_list = schema_list parse_column_def

unfoldable pub parse_index_def : M IndexDef
parse_index_def = do
  type ← parse_ident
  is_unique ← parser_accept_keyword "unique"
  name ← parse_ident
  parser_expect token_lparen
  key_parts ← parse_index_key_part_list
  parser_expect token_rparen
  pure (record { type = type; is_unique = is_unique; name = name; key_parts = key_parts })

unfoldable pub parse_index_def_list : M (List IndexDef)
parse_index_def_list = schema_list parse_index_def

unfoldable pub parse_schema : M SchemaParseResult
parse_schema = do
  parser_expect_keyword "table"
  parser_expect token_lparen
  parser_expect_keyword "columns"
  parser_expect token_lparen
  column_defs ← parse_schema_column_def_list
  parser_expect token_rparen
  parser_accept token_comma
  parser_expect_keyword "indexes"
  parser_expect token_lparen
  index_defs ← parse_index_def_list
  parser_expect token_rparen
  parser_accept token_comma
  parser_expect token_rparen
  pure (record { column_defs = column_defs; index_defs = index_defs })
