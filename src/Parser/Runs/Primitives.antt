-- ===== src/Parser/Runs/Primitives.antt =====
-- The parsers of src/parser/primitives.c end.
use maxql.Prelude.{
  ◌+◌, ◌≤◌, ◌<◌, ◌≡◌, inl, inr, refl, ap, arith, Bool, false, if◌then◌else◌, Bool-cases,
}
use Prim.Native.String.{String}
use maxql.Core.Error.{ErrorCode, err_lexer, error_is_ok}
use maxql.Core.StrView.{StrView}
use maxql.Core.Lexer.{
  Lexer, Token, TokenType, token_eof, token_ident, token_number, token_invalid, is_type, lexer_next,
  bytes_left,
}
use maxql.Core.Lexer.Laws.{IsLexer, Reads, lexer_next-Reads}
use maxql.Parser.State.{Parser, pure, tokens_left}
use maxql.Parser.Primitives.{
  set_error, parser_set_error, advance, parser_next, parser_check, parser_accept, parser_expect,
  at_text, parser_accept_keyword, parser_expect_keyword, current_lexeme, parse_token, parse_ident,
  parse_number, current_op,
}
use maxql.Parser.Runs.{Keeps, Keeps-refl, Keeps-trans, ends, Runs, Runs-pure, runs}

pub set_error-Keeps :
    (p : Parser) (code : ErrorCode) (msg : String)
    → IsLexer p.lexer
    → Keeps p (set_error p code msg)
unfolding set_error tokens_left
set_error-Keeps p code msg w = elim (Bool-cases (error_is_ok p.error)) [
  | inl fine ↦ rw fine (record { lexer = w; left = omega arith; error = inl fine })
  | inr set ↦ rw set (Keeps-refl p w)
]

-- The state after a token is read, before the error that an invalid token sets.
next_state : Parser → Parser
next_state p = record p { lexer = (lexer_next p.lexer).1; current = (lexer_next p.lexer).0 }

left_of_Reads :
    (now : Bool) (l l' : Lexer) (t : Token)
    → IsLexer l
    → Reads l t l'
    → let left = bytes_left l' + (if is_type t.type token_eof then 0 else 1) in
      (left ≤ bytes_left l + (if now then 0 else 1))
      × (now ≡ false → left < bytes_left l + (if now then 0 else 1))
left_of_Reads now l l' t w r =
    let same : l'.input.len ≡ l.input.len = ap (λ (v : StrView). v.len) r.same in
    elim r.token [
      | inl (eof, last) ↦ rw eof (ground arith, ground arith)
      | inr past ↦ elim (Bool-cases (is_type t.type token_eof)) [
        | inl eof ↦ rw eof (ground arith, ground arith)
        | inr more ↦ rw more (ground arith, ground arith)
      ]
    ]

next_state-left :
    (p : Parser)
    → IsLexer p.lexer
    → (tokens_left (next_state p) ≤ tokens_left p)
      × (is_type p.current.type token_eof ≡ false → tokens_left (next_state p) < tokens_left p)
unfolding next_state tokens_left
next_state-left p w =
    left_of_Reads (is_type p.current.type token_eof) p.lexer (lexer_next p.lexer).1
      (lexer_next p.lexer).0 w (lexer_next-Reads p.lexer w)

-- After a token the state is the next one, with at most an error set.
advance-left : (p : Parser) → tokens_left (advance p) ≡ tokens_left (next_state p)
unfolding advance next_state tokens_left set_error
advance-left p = ground arith

pub advance-Keeps : (p : Parser) → IsLexer p.lexer → Keeps p (advance p)
unfolding advance next_state
advance-Keeps p w =
    let r = lexer_next-Reads p.lexer w in
    let next : Keeps p (next_state p) = record {
      lexer = r.lexer;
      left = (next_state-left p w).0;
      error = inr refl;
    } in
    elim (Bool-cases (is_type (lexer_next p.lexer).0.type token_invalid)) [
      | inl bad ↦ rw bad (
          Keeps-trans p (next_state p) _ next
            (set_error-Keeps (next_state p) err_lexer "Invalid token" next.lexer))
      | inr good ↦ rw good next
    ]

pub advance-lt :
    (p : Parser)
    → IsLexer p.lexer
    → is_type p.current.type token_eof ≡ false
    → tokens_left (advance p) < tokens_left p
advance-lt p w h = omega (arith, advance-left p, (next_state-left p w).1 h)

pub parser_next-Runs : Runs parser_next
unfolding parser_next pure
parser_next-Runs p w = ends tt (advance p) (advance-Keeps p w)

pub parser_set_error-Runs : (code : ErrorCode) (msg : String) → Runs (parser_set_error code msg)
unfolding parser_set_error pure
parser_set_error-Runs code msg p w = ends tt (set_error p code msg) (set_error-Keeps p code msg w)

pub parser_check-Runs : (t : TokenType) → Runs (parser_check t)
unfolding parser_check
parser_check-Runs t p w = Runs-pure (is_type p.current.type t) p w

at_text-Runs : (keyword : String) → Runs (at_text keyword)
unfolding at_text
at_text-Runs keyword p w = Runs-pure _ p w

current_lexeme-Runs : Runs current_lexeme
unfolding current_lexeme
current_lexeme-Runs p w = Runs-pure p.current.lexeme p w

pub current_op-Runs : Runs current_op
unfolding current_op
current_op-Runs p w = Runs-pure _ p w

ruleset basics = (runs, parser_next-Runs, parser_set_error-Runs, parser_check-Runs, at_text-Runs)

pub parser_accept-Runs : (t : TokenType) → Runs (parser_accept t)
unfolding parser_accept
parser_accept-Runs t = search basics

pub parser_expect-Runs : (t : TokenType) → Runs (parser_expect t)
unfolding parser_expect
parser_expect-Runs t = search (basics, parser_accept-Runs)

pub parser_accept_keyword-Runs : (keyword : String) → Runs (parser_accept_keyword keyword)
unfolding parser_accept_keyword
parser_accept_keyword-Runs keyword = search basics depth 9

pub parser_expect_keyword-Runs : (keyword : String) → Runs (parser_expect_keyword keyword)
unfolding parser_expect_keyword
parser_expect_keyword-Runs keyword = search (basics, parser_accept_keyword-Runs)

pub parse_token-Runs : (t : TokenType) → Runs (parse_token t)
unfolding parse_token
parse_token-Runs t = search (basics, current_lexeme-Runs, parser_expect-Runs)

pub parse_ident-Runs : Runs parse_ident
unfolding parse_ident
parse_ident-Runs = parse_token-Runs token_ident

pub parse_number-Runs : Runs parse_number
unfolding parse_number
parse_number-Runs = parse_token-Runs token_number
