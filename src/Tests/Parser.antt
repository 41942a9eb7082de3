-- ===== src/Tests/Parser.antt =====
-- The lexer and the parser at texts.
use maxql.Prelude.{some, ◌≡◌, refl, arith}
use maxql.Core.StrView.{StrView, codes, take_bytes}
use maxql.Core.Error.{error_ok}
use maxql.Core.Lexer.{
  token_ident, Lexer, lexer_next, lexer_token, lexer_skip_whitespace, skip_while, lexer_read_ident,
  is_ident, is_ident_start, is_whitespace,
}
use maxql.Core.Lexer.Laws.{IsLexer, Reads, lexer_next-Reads}
use maxql.Parser.Ast.{ParseResult, SchemaParseResult}
use maxql.Parser.State.{Parser}
use maxql.Parser.Query.{parse_query}
use maxql.Parser.Schema.{parse_schema}
use maxql.Parser.Runs.{Keeps}
use maxql.Parser.Runs.Query.{parse_query_total}
use maxql.Parser.Runs.Schema.{parse_schema_total}

abbrev text : StrView
text = record { ptr = codes "delete from t where a >= 0x1f;"; len = 30 }

abbrev start : Lexer
start = record { input = text; pos = 6 }

start-IsLexer : IsLexer start
start-IsLexer = record { ended = refl; inside = omega arith }

lexer_next-Reads_example : Reads start (lexer_next start).0 (lexer_next start).1
lexer_next-Reads_example = lexer_next-Reads start start-IsLexer

next_is_from : take_bytes 4 (lexer_next start).0.lexeme.ptr ≡ codes "from"
unfolding lexer_next lexer_token lexer_skip_whitespace skip_while lexer_read_ident is_ident
    is_ident_start is_whitespace
next_is_from = refl

abbrev first : Parser
first = record {
  lexer = start;
  current = record { type = token_ident; lexeme = record { ptr = codes "delete"; len = 6 } };
  error = error_ok;
}

parse_query_total_example :
    (q : ParseResult) × (p' : Parser) × (parse_query first ≡ some (q, p')) × Keeps first p'
parse_query_total_example = parse_query_total first start-IsLexer

parse_schema_total_example :
    (s : SchemaParseResult) × (p' : Parser) × (parse_schema first ≡ some (s, p')) × Keeps first p'
parse_schema_total_example = parse_schema_total first start-IsLexer
