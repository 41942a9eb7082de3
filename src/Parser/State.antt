-- ===== src/Parser/State.antt =====
-- `Parser` of include/maxql/parser/parser_state.h, and its functions as state transformers. `none`
-- has no counterpart in the program: a loop ran out of fuel, which the laws rule out.
use maxql.Prelude.{
  ℕ, zero, suc, ◌+◌, List, [], ◌∷◌, Option, none, some, Bool, true, false, if◌then◌else◌,
}
use maxql.Core.Error.{Error}
use maxql.Core.Lexer.{Lexer, Token, token_eof, is_type, bytes_left}

pub record Parser : Type 0 where
  pub lexer : Lexer
  pub current : Token
  pub error : Error

abbrev pub M : Type 0 → Type 0
M A = Parser → Option (A × Parser)

unfoldable pub pure : {A : Type 0} → A → M A
pure a p = some (a, p)

infixl 5 ◌>>=◌ ◌>>◌
unfoldable pub ◌>>=◌ : {A B : Type 0} → M A → (A → M B) → M B
◌>>=◌ m f p = elim (m p) [ none ↦ none | some (a, p') ↦ f a p' ]

unfoldable pub ◌>>◌ : {A B : Type 0} → M A → M B → M B
m >> n = m >>= λ _. n

unfoldable pub branch : {A : Type 0} → Bool → M A → M A → M A
branch b m n p = elim b [ true ↦ m p | false ↦ n p ]

-- What is left to read: the bytes, and the current token unless it is the end. Fuel for the loops.
unfoldable pub tokens_left : Parser → ℕ
tokens_left p = bytes_left p.lexer + (if is_type p.current.type token_eof then 0 else 1)

-- `do { item } while (again)`, pushing each item.
unfoldable pub do_while : {A : Type 0} → ℕ → M A → M Bool → M (List A)
do_while zero item again = λ p. none
do_while (suc f) item again = do
  a ← item
  more ← again
  branch more (do as' ← do_while f item again; pure (a ∷ as')) (pure (a ∷ []))

unfoldable pub sep_list : {A : Type 0} → M A → M Bool → M (List A)
sep_list item again p = do_while (suc (tokens_left p)) item again p
