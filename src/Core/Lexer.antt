-- ===== src/Core/Lexer.antt =====
-- include/maxql/core/lexer.h and src/core/lexer.c.
pub mod Laws
use maxql.Prelude.{
  ℕ, zero, suc, ◌+◌, ◌-◌, List, Bool, true, false, ◌&&◌, ◌||◌, not, ◌==◌, ltb, leb, if◌then◌else◌,
  get_or, drop,
}
use maxql.Core.StrView.{StrView, sv_from_parts}

pub data TokenType : Type 0 where
  token_eof token_ident token_number token_hex token_string : TokenType
  token_lparen token_rparen token_comma token_star token_semicolon token_not : TokenType
  token_equals token_not_equals token_less token_greater : TokenType
  token_less_or_equal token_great_or_equal token_invalid : TokenType

-- The value of the enumerator.
abbrev pub value : TokenType → ℕ
value token_eof = 0
value token_ident = 1
value token_number = 2
value token_hex = 3
value token_string = 4
value token_lparen = 5
value token_rparen = 6
value token_comma = 7
value token_star = 8
value token_semicolon = 9
value token_not = 10
value token_equals = 11
value token_not_equals = 12
value token_less = 13
value token_greater = 14
value token_less_or_equal = 15
value token_great_or_equal = 16
value token_invalid = 17

abbrev pub is_type : TokenType → TokenType → Bool
is_type a b = value a == value b

pub record Token : Type 0 where
  pub type : TokenType
  pub lexeme : StrView

pub record Lexer : Type 0 where
  pub input : StrView
  pub pos : ℕ

abbrev pub has_more : Lexer → Bool
has_more l = ltb l.pos l.input.len

abbrev pub current_char : Lexer → ℕ
current_char l = get_or l.input.ptr l.pos 0

abbrev pub next_char : Lexer → ℕ
next_char l = get_or l.input.ptr (l.pos + 1) 0

unfoldable pub is_ident_start : ℕ → Bool
is_ident_start c = (leb b'a' c && leb c b'z') || (leb b'A' c && leb c b'Z')

unfoldable pub is_ident : ℕ → Bool
is_ident c =
    (leb b'a' c && leb c b'z')
    || (leb b'A' c && leb c b'Z')
    || (leb b'0' c && leb c b'9')
    || c == b'_'

unfoldable pub is_digit : ℕ → Bool
is_digit c = leb b'0' c && leb c b'9'

unfoldable pub is_whitespace : ℕ → Bool
is_whitespace c = c == b' ' || c == 9 || c == 10 || c == 13

unfoldable pub is_dot : ℕ → Bool
is_dot c = c == b'.'

unfoldable pub is_hex_mark : ℕ → Bool
is_hex_mark c = c == b'x'

unfoldable pub is_hex_digit : ℕ → Bool
is_hex_digit c = (leb b'0' c && leb c b'9') || (leb b'a' c && leb c b'f')

unfoldable pub is_quote : ℕ → Bool
is_quote c = c == 34

-- `while (has_more(lexer) && test(current_char(lexer))) lexer->pos++;`, on fuel for the bytes left.
unfoldable pub skip_while : ℕ → (ℕ → Bool) → Lexer → Lexer
skip_while zero test l = l
skip_while (suc f) test l =
    let rest = skip_while f test (record l { pos = l.pos + 1 }) in
    if has_more l && test (current_char l) then rest else l

-- The bytes left: fuel for each loop of the lexer.
abbrev pub bytes_left : Lexer → ℕ
bytes_left l = l.input.len - l.pos

unfoldable pub lexer_skip_whitespace : Lexer → Lexer
unfolding skip_while is_whitespace
lexer_skip_whitespace l = skip_while (bytes_left l) is_whitespace l

-- The token of the bytes from `start` to the position.
abbrev pub token_from : TokenType → ℕ → Lexer → Token
token_from t start l = record {
  type = t;
  lexeme = sv_from_parts (drop start l.input.ptr) (l.pos - start);
}

unfoldable pub lexer_read_ident : Lexer → Token × Lexer
unfolding skip_while is_ident
lexer_read_ident l =
    let l' = skip_while (bytes_left l) is_ident l in (token_from token_ident l.pos l', l')

-- The loop of `lexer_read_number`, which stops before a second dot.
unfoldable pub skip_number : ℕ → Bool → Lexer → Lexer
unfolding is_dot is_digit
skip_number zero has_dot l = l
skip_number (suc f) has_dot l =
    let next = record l { pos = l.pos + 1 } in
    let rest = skip_number f (has_dot || is_dot (current_char l)) next in
    if has_more l && (is_digit (current_char l) || is_dot (current_char l))
    then (if is_dot (current_char l) && has_dot then l else rest)
    else l

unfoldable pub lexer_read_number : Lexer → Token × Lexer
unfolding skip_number
lexer_read_number l =
    let l' = skip_number (bytes_left l) false l in (token_from token_number l.pos l', l')

unfoldable pub lexer_read_hex : Lexer → Token × Lexer
unfolding skip_while is_hex_digit
lexer_read_hex l =
    let start = l.pos + 2 in
    let l₂ = record l { pos = start } in
    let l' = skip_while (bytes_left l₂) is_hex_digit l₂ in
    (token_from (if l'.pos - start == 0 then token_invalid else token_hex) start l', l')

unfoldable pub lexer_read_string : Lexer → Token × Lexer
unfolding skip_while is_quote
lexer_read_string l =
    let start = l.pos + 1 in
    let l₂ = record l { pos = start } in
    let l' = skip_while (bytes_left l₂) (λ c. not (is_quote c)) l₂ in
    if not (has_more l') || not (is_quote (current_char l'))
    then (token_from token_invalid start l', l')
    else (token_from token_string start l', record l' { pos = l'.pos + 1 })

unfoldable pub lexer_symbol_two_chars : ℕ → ℕ → TokenType
lexer_symbol_two_chars cc' nc =
    if cc' == b'>' && nc == b'='
    then token_great_or_equal
    else (if cc' == b'<' && nc == b'='
        then token_less_or_equal
        else (if cc' == b'!' && nc == b'=' then token_not_equals else token_invalid))

unfoldable pub lexer_symbol_type : ℕ → TokenType
lexer_symbol_type c =
    if c == b'<'
    then token_less
    else (if c == b'>'
        then token_greater
        else (if c == b'('
            then token_lparen
            else (if c == b')'
                then token_rparen
                else (if c == b','
                    then token_comma
                    else (if c == b'*'
                        then token_star
                        else (if c == b';'
                            then token_semicolon
                            else (if c == b'=' then token_equals else token_invalid)))))))

-- The token of `n` bytes at the position, which is passed.
abbrev pub symbol_token : TokenType → ℕ → Lexer → Token × Lexer
symbol_token t n l = (
  record { type = t; lexeme = sv_from_parts (drop l.pos l.input.ptr) n },
  record l { pos = l.pos + n },
)

unfoldable pub lexer_read_symbol : Lexer → Token × Lexer
unfolding lexer_symbol_two_chars lexer_symbol_type
lexer_read_symbol l =
    let two = lexer_symbol_two_chars (current_char l) (next_char l) in
    if has_more l && not (is_type two token_invalid)
    then symbol_token two 2 l
    else symbol_token (lexer_symbol_type (current_char l)) 1 l

unfoldable pub lexer_init : StrView → Lexer
lexer_init input = record { input = input; pos = 0 }

-- `lexer_next` after the white space.
unfoldable pub lexer_token : Lexer → Token × Lexer
lexer_token l =
    if not (has_more l)
    then (record { type = token_eof; lexeme = sv_from_parts (drop l.input.len l.input.ptr) 0 }, l)
    else (if is_ident_start (current_char l)
        then lexer_read_ident l
        else (if is_digit (current_char l)
            then (if has_more l && is_hex_mark (next_char l)
                then lexer_read_hex l
                else lexer_read_number l)
            else (if is_quote (current_char l) then lexer_read_string l else lexer_read_symbol l)))

unfoldable pub lexer_next : Lexer → Token × Lexer
lexer_next l = lexer_token (lexer_skip_whitespace l)
