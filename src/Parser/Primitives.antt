-- ===== src/Parser/Primitives.antt =====
-- src/parser/primitives.c.
use maxql.Prelude.{List, Bool, true, false, if◌then◌else◌}
use Prim.Native.String.{String}
use maxql.Core.StrView.{StrView, codes, sv_equal_cstr}
use maxql.Core.Error.{ErrorCode, err_lexer, err_parser, error_fmt, error_is_ok}
use maxql.Core.Lexer.{
  TokenType, token_ident, token_number, token_hex, token_string, token_lparen, token_rparen,
  token_comma, token_equals, token_not_equals, token_less, token_greater, token_less_or_equal,
  token_great_or_equal, token_invalid, is_type, lexer_next,
}
use maxql.Parser.Ast.{
  lit_number, lit_string, lit_hex, ConditionOp, op_unknown, op_equals, op_not_equals, op_less,
  op_less_or_equal, op_greater, op_great_or_equal, Ident, RawValue, Assignment, Condition,
  ColumnTypeDef, ColumnDef, IndexKeyPart, no_view, no_value,
}
use maxql.Parser.State.{Parser, M, pure, ◌>>=◌, ◌>>◌, branch, sep_list}

-- The first error stays.
unfoldable pub set_error : Parser → ErrorCode → String → Parser
set_error p code msg = if error_is_ok p.error then record p { error = error_fmt code msg } else p

unfoldable pub parser_set_error : ErrorCode → String → M (Unit {0})
parser_set_error code msg p = pure tt (set_error p code msg)

unfoldable pub advance : Parser → Parser
advance p =
    let (t, l) = lexer_next p.lexer in
    let p' = record p { lexer = l; current = t } in
    if is_type t.type token_invalid then set_error p' err_lexer "Invalid token" else p'

unfoldable pub parser_next : M (Unit {0})
parser_next p = pure tt (advance p)

unfoldable pub parser_check : TokenType → M Bool
parser_check t p = pure (is_type p.current.type t) p

unfoldable pub parser_accept : TokenType → M Bool
parser_accept t = do
  is_accepted ← parser_check t
  branch is_accepted (do parser_next; pure true) (pure false)

unfoldable pub parser_expect : TokenType → M (Unit {0})
parser_expect t = do
  accepted ← parser_accept t
  branch accepted (pure tt) (parser_set_error err_parser "Unexpected token")

-- `sv_equal_cstr(parser->current.lexeme, keyword)`.
unfoldable pub at_text : String → M Bool
at_text keyword p = pure (sv_equal_cstr p.current.lexeme (codes keyword)) p

unfoldable pub parser_accept_keyword : String → M Bool
parser_accept_keyword keyword = do
  ident ← parser_check token_ident
  branch ident (do same ← at_text keyword; branch same (do parser_next; pure true) (pure false))
      (pure false)

unfoldable pub parser_expect_keyword : String → M (Unit {0})
parser_expect_keyword keyword = do
  accepted ← parser_accept_keyword keyword
  branch accepted (pure tt) (parser_set_error err_parser "Expected specific keyword")

unfoldable pub current_lexeme : M StrView
current_lexeme p = pure p.current.lexeme p

-- `parse_ident`, `parse_number`, `parse_string` and `parse_hex` differ in the token alone.
unfoldable pub parse_token : TokenType → M StrView
parse_token t = do lex ← current_lexeme; parser_expect t; pure lex

unfoldable pub parse_ident : M Ident
parse_ident = parse_token token_ident

unfoldable pub parse_number : M StrView
parse_number = parse_token token_number

unfoldable pub parse_string : M StrView
parse_string = parse_token token_string

unfoldable pub parse_hex : M StrView
parse_hex = parse_token token_hex

unfoldable pub parse_ident_list : M (List Ident)
parse_ident_list = sep_list parse_ident (parser_accept token_comma)

unfoldable pub parse_value : M RawValue
parse_value = do
  number ← parser_check token_number
  branch number (do v ← parse_number; pure (record { type = lit_number; value = v }))
      (do
        string ← parser_check token_string
        branch string (do v ← parse_string; pure (record { type = lit_string; value = v }))
            (do
              hex ← parser_check token_hex
              branch hex (do v ← parse_hex; pure (record { type = lit_hex; value = v }))
                  (do
                    parser_set_error err_parser "Expected number, string or hex literal"
                    pure no_value)))

unfoldable pub parse_index_key_part : M IndexKeyPart
parse_index_key_part = do
  column ← parse_ident
  has ← parser_accept token_lparen
  branch has
      (do
        len ← parse_number
        parser_expect token_rparen
        pure (record { column = column; key_len = len; has_key_len = true }))
      (pure (record { column = column; key_len = no_view; has_key_len = false }))

unfoldable pub parse_index_key_part_list : M (List IndexKeyPart)
parse_index_key_part_list = sep_list parse_index_key_part (parser_accept token_comma)

unfoldable pub parse_assignment : M Assignment
parse_assignment = do
  ident ← parse_ident
  parser_expect token_equals
  v ← parse_value
  pure (record { column = ident; value = v })

unfoldable pub parse_assignment_list : M (List Assignment)
parse_assignment_list = sep_list parse_assignment (parser_accept token_comma)

-- The `switch` on the token's type.
abbrev pub op_of : TokenType → ConditionOp
op_of token_equals = op_equals
op_of token_not_equals = op_not_equals
op_of token_less = op_less
op_of token_less_or_equal = op_less_or_equal
op_of token_greater = op_greater
op_of token_great_or_equal = op_great_or_equal
op_of _ = op_unknown

abbrev pub is_op_unknown : ConditionOp → Bool
is_op_unknown op_unknown = true
is_op_unknown _ = false

unfoldable pub current_op : M ConditionOp
current_op p = pure (op_of p.current.type) p

unfoldable pub parse_comparison_op : M ConditionOp
parse_comparison_op = do
  op ← current_op
  branch (is_op_unknown op) (do parser_set_error err_parser "Expected comparison operator"; pure op)
      (do parser_next; pure op)

unfoldable pub parse_condition : M Condition
parse_condition = do
  column ← parse_ident
  op ← parse_comparison_op
  v ← parse_value
  pure (record { column = column; op = op; value = v })

unfoldable pub parse_condition_list : M (List Condition)
parse_condition_list = sep_list parse_condition (parser_accept_keyword "and")

unfoldable pub parse_column_type : M ColumnTypeDef
parse_column_type = do
  name ← parse_ident
  has ← parser_accept token_lparen
  branch has
      (do
        len ← parse_number
        parser_expect token_rparen
        pure (record { name = name; len = len; has_len = true }))
      (pure (record { name = name; len = no_view; has_len = false }))

unfoldable pub parse_column_def : M ColumnDef
parse_column_def = do
  column ← parse_ident
  type ← parse_column_type
  has ← parser_accept_keyword "default"
  branch has
      (do
        v ← parse_value
        pure (record { column = column; type = type; has_default = true; default_value = v }))
      (pure
        (record { column = column; type = type; has_default = false; default_value = no_value }))

unfoldable pub parse_column_def_list : M (List ColumnDef)
parse_column_def_list = sep_list parse_column_def (parser_accept token_comma)
