-- ===== src/Parser/Runs/Lists.antt =====
-- The loops of the parsers end: each round that is followed by another one takes a token.
use maxql.Prelude.{
  ℕ, zero, suc, ◌<◌, ◌≡◌, refl, arith, [], ◌∷◌, Bool, true, false, some, Bool-cases, inl, inr,
}
use Prim.Native.String.{String}
use maxql.Core.StrView.{codes, sv_equal_cstr}
use maxql.Core.Lexer.{TokenType, token_eof, token_ident, is_type}
use maxql.Core.Lexer.Laws.{IsLexer}
use maxql.Parser.State.{Parser, M, pure, ◌>>=◌, ◌>>◌, branch, tokens_left, do_while, sep_list}
use maxql.Parser.Primitives.{
  advance, parser_next, parser_check, parser_accept, at_text, parser_accept_keyword,
}
use maxql.Parser.Runs.{Keeps, Keeps-refl, Ends, Ends-bind, Ends-step, Ends-some, Runs, Runs-pure}
use maxql.Parser.Runs.Primitives.{advance-Keeps, advance-lt}

-- The test ends, and has taken a token where it holds.
abbrev pub Takes : M Bool → Type 0
Takes again =
    (p : Parser)
    → IsLexer p.lexer
    → (b : Bool) × (p' : Parser) × (again p ≡ some (b, p'))
      × Keeps p p'
      × (b ≡ true → tokens_left p' < tokens_left p)

pub parser_accept-Takes : (t : TokenType) → is_type t token_eof ≡ false → Takes (parser_accept t)
unfolding parser_accept parser_check parser_next branch ◌>>=◌ ◌>>◌ pure
parser_accept-Takes t other p w = elim (Bool-cases (is_type p.current.type t)) [
  | inl here ↦
      (true, advance p, rw here refl, advance-Keeps p w, λ _. advance-lt p w (ground arith))
  | inr away ↦ (false, p, rw away refl, Keeps-refl p w, λ h. cc)
]

pub parser_accept_keyword-Takes : (keyword : String) → Takes (parser_accept_keyword keyword)
unfolding parser_accept_keyword parser_check at_text parser_next branch ◌>>=◌ ◌>>◌ pure
parser_accept_keyword-Takes keyword p w = elim (Bool-cases (is_type p.current.type token_ident)) [
  | inl ident ↦ elim (Bool-cases (sv_equal_cstr p.current.lexeme (codes keyword))) [
    | inl same ↦ (
      true,
      advance p,
      rw (ident, same) refl,
      advance-Keeps p w,
      λ _. advance-lt p w (ground arith),
    )
    | inr differs ↦ (false, p, rw (ident, differs) refl, Keeps-refl p w, λ h. cc)
  ]
  | inr away ↦ (false, p, rw away refl, Keeps-refl p w, λ h. cc)
]

do_while-Ends :
    {A : Type 0} (item : M A) (again : M Bool)
    → Runs item
    → Takes again
    → (f : ℕ) (p : Parser) → tokens_left p < f
    → IsLexer p.lexer
    → Ends p (do_while f item again p)
unfolding do_while
do_while-Ends item again r t zero p h w = absurd (omega arith)
do_while-Ends {A} item again r t (suc f) p h w =
    let (a, p₁, read, k₁) = Ends-some (r p w) in
    let (b, p₂, tested, k₂, fewer) = t p₁ k₁.lexer in
    Ends-step item _ read k₁ (
      Ends-step again _ tested k₂ (
        round a b p₂ k₂.lexer
          (λ go. do_while-Ends item again r t f p₂ (omega (arith, fewer go, k₁.left)) k₂.lexer)))
  where
    round :
        (a : A) (b : Bool) (q : Parser)
        → IsLexer q.lexer
        → (b ≡ true → Ends q (do_while f item again q))
        → Ends q (branch b (do_while f item again >>= λ as'. pure (a ∷ as')) (pure (a ∷ [])) q)
    round a true q v go =
        unfold branch in
        (Ends-bind (do_while f item again) _ (go refl) (λ as'. Runs-pure (a ∷ as')))
    round a false q v go = unfold branch in Runs-pure (a ∷ []) q v

pub sep_list-Runs :
    {A : Type 0} (item : M A) (again : M Bool)
    → Runs item
    → Takes again
    → Runs (sep_list item again)
unfolding sep_list
sep_list-Runs item again r t p w =
    do_while-Ends item again r t (suc (tokens_left p)) p (omega arith) w
