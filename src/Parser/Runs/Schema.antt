-- ===== src/Parser/Runs/Schema.antt =====
-- The schema parser ends: each round of its loops takes a token or sets an error.
use maxql.Prelude.{
  ℕ, zero, suc, ◌<◌, ◌≡◌, ◌⊎◌, inl, inr, refl, arith, List, [], ◌∷◌, Bool, true, false, some,
  Bool-cases, ◌&&◌, not,
}
use maxql.Core.Error.{error_is_ok, err_parser}
use maxql.Core.Lexer.{token_ident, token_comma, token_rparen, is_type}
use maxql.Core.Lexer.Laws.{IsLexer}
use maxql.Parser.Ast.{SchemaParseResult}
use maxql.Parser.State.{Parser, M, pure, ◌>>=◌, ◌>>◌, branch, tokens_left}
use maxql.Parser.Primitives.{
  set_error, advance, parser_next, parser_check, parser_accept, parser_expect, parser_set_error,
  current_lexeme, parse_token, parse_ident, parse_column_def,
}
use maxql.Parser.Schema.{
  goes_on, while_list, schema_list, parse_schema_column_def_list, parse_index_def,
  parse_index_def_list, parse_schema,
}
use maxql.Parser.Runs.{
  Keeps, first_error, Keeps-refl, Keeps-trans, Ends, Ends-bind, Ends-step, Ends-some, Runs,
  Runs-pure,
}
use maxql.Parser.Runs.Primitives.{
  advance-Keeps, advance-lt, set_error-Keeps, parser_accept-Runs, parser_expect_keyword-Runs,
}
use maxql.Parser.Runs.Parts.{
  parts, parse_column_type-Runs, parse_value-Runs, parse_index_key_part_list-Runs,
}

-- The parser ends, and has taken a token unless there is an error.
abbrev pub Moves : {A : Type 0} → M A → Type 0
Moves {A} m =
    (p : Parser)
    → IsLexer p.lexer
    → (a : A) × (p' : Parser) × (m p ≡ some (a, p'))
      × Keeps p p'
      × (error_is_ok p'.error ≡ true → tokens_left p' < tokens_left p)

set_error_sets :
    (p : Parser) → ¬ (error_is_ok (set_error p err_parser "Unexpected token").error ≡ true)
unfolding set_error
set_error_sets p h = ground arith

parse_ident-Moves : Moves parse_ident
unfolding parse_ident parse_token current_lexeme parser_expect parser_accept parser_check
    parser_next parser_set_error branch ◌>>=◌ ◌>>◌ pure
parse_ident-Moves p w = elim (Bool-cases (is_type p.current.type token_ident)) [
  | inl here ↦ (
    p.current.lexeme,
    advance p,
    ground arith,
    advance-Keeps p w,
    λ _. advance-lt p w (ground arith),
  )
  | inr away ↦ (
    p.current.lexeme,
    set_error p err_parser "Unexpected token",
    ground arith,
    set_error-Keeps p err_parser "Unexpected token" w,
    λ h. absurd (set_error_sets p h),
  )
]

Moves-bind :
    {A B : Type 0} (m : M A) (f : A → M B) → Moves m → ((a : A) → Runs (f a)) → Moves (m >>= f)
Moves-bind m f h k p w =
    let (a, p₁, e₁, k₁, fewer) = h p w in
    let (b, p₂, e₂, k₂) = Ends-some (k a p₁ k₁.lexer) in
    (
      b,
      p₂,
      unfold ◌>>=◌ in rw (e₁, ◌>>=◌) e₂,
      Keeps-trans p p₁ p₂ k₁ k₂,
      λ fine. elim (Bool-cases (error_is_ok p₁.error)) [
        | inl was ↦ omega (arith, fewer was, k₂.left)
        | inr bad ↦ let still = first_error p₁ p₂ k₂ bad in cc
      ],
    )

parse_column_def-Moves : Moves parse_column_def
unfolding parse_column_def
parse_column_def-Moves =
    Moves-bind _ _ parse_ident-Moves
      (search (parts, parse_column_type-Runs, parse_value-Runs) depth 9)

parse_index_def-Moves : Moves parse_index_def
unfolding parse_index_def
parse_index_def-Moves =
    Moves-bind _ _ parse_ident-Moves (search (parts, parse_index_key_part_list-Runs) depth 14)

-- Fuel for the rounds: one to see that the list has ended, and one for each token unless there
-- is an error.
abbrev Enough : ℕ → Parser → Type 0
Enough f p = (suc (tokens_left p) < f) ⊎ ((error_is_ok p.error ≡ false) × (0 < f))

abbrev more : Parser → Bool
more p = not (is_type p.current.type token_rparen) && error_is_ok p.error

goes_on_lem : (p : Parser) → goes_on p ≡ some (more p, p)
unfolding goes_on pure
goes_on_lem p = refl

Enough-many : (f : ℕ) (p : Parser) → Enough (suc f) p → more p ≡ true → suc (tokens_left p) < suc f
Enough-many f p (inl many) go = many
Enough-many f p (inr bad) go = ground arith

-- After a round the fuel that is left is enough.
Enough-next :
    (f : ℕ) (p p₁ p₂ : Parser)
    → Enough (suc f) p
    → more p ≡ true
    → (error_is_ok p₁.error ≡ true → tokens_left p₁ < tokens_left p)
    → Keeps p₁ p₂
    → Enough f p₂
Enough-next f p p₁ p₂ h go fewer k = elim (Bool-cases (error_is_ok p₁.error)) [
  | inl fine ↦ let less = fewer fine in inl (omega (arith, Enough-many f p h go, k.left))
  | inr bad ↦
      let still = first_error p₁ p₂ k bad in inr (rw still bad, omega (arith, Enough-many f p h go))
]

while_list-Ends :
    {A : Type 0} (item : M A)
    → Moves item
    → (f : ℕ) (p : Parser) → Enough f p
    → IsLexer p.lexer
    → Ends p (while_list f item p)
unfolding while_list ◌>>◌
while_list-Ends item mv zero p h w = absurd (ground arith)
while_list-Ends {A} item mv (suc f) p h w = Ends-step goes_on _ (goes_on_lem p) (Keeps-refl p w) (
    round (more p) (λ go.
      let (a, p₁, read, k₁, fewer) = mv p w in
      let (b, p₂, tested, k₂) = Ends-some (parser_accept-Runs token_comma p₁ k₁.lexer) in
      let enough = Enough-next f p p₁ p₂ h go fewer k₂ in
      Ends-step item _ read k₁ (
        Ends-step (parser_accept token_comma) _ tested k₂ (
          Ends-bind (while_list f item) _ (while_list-Ends item mv f p₂ enough k₂.lexer)
            (λ as'. Runs-pure (a ∷ as'))))))
  where
    rest : A → M (List A)
    rest a = parser_accept token_comma >> (while_list f item >>= λ as'. pure (a ∷ as'))

    round :
        (b : Bool)
        → (b ≡ true → Ends p ((item >>= rest) p))
        → Ends p (branch b (item >>= rest) (pure []) p)
    round true go = unfold branch in go refl
    round false go = unfold branch in Runs-pure [] p w

schema_list-Runs : {A : Type 0} (item : M A) → Moves item → Runs (schema_list item)
unfolding schema_list
schema_list-Runs item mv p w =
    while_list-Ends item mv (suc (suc (tokens_left p))) p (inl (omega arith)) w

parse_schema_column_def_list-Runs : Runs parse_schema_column_def_list
unfolding parse_schema_column_def_list
parse_schema_column_def_list-Runs = schema_list-Runs _ parse_column_def-Moves

parse_index_def_list-Runs : Runs parse_index_def_list
unfolding parse_index_def_list
parse_index_def_list-Runs = schema_list-Runs _ parse_index_def-Moves

parse_schema-Runs : Runs parse_schema
unfolding parse_schema
parse_schema-Runs =
    search
      (
        parts, parser_expect_keyword-Runs, parse_schema_column_def_list-Runs,
        parse_index_def_list-Runs,
      )
      depth 20

-- From every state on a C string the parser of a schema file returns; the input is then a C string
-- at a position inside it, no token has come back, and an error that was set is still the one set.
pub parse_schema_total :
    (p : Parser)
    → IsLexer p.lexer
    → (s : SchemaParseResult) × (p' : Parser) × (parse_schema p ≡ some (s, p')) × Keeps p p'
parse_schema_total p w = Ends-some (parse_schema-Runs p w)
