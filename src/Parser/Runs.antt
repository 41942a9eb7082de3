-- ===== src/Parser/Runs.antt =====
-- What every parser does: it ends, stays in its input, and keeps the first error.
pub mod Primitives
pub mod Lists
pub mod Parts
pub mod Query
pub mod Schema
use maxql.Prelude.{
  ℕ, zero, suc, ◌+◌, ◌-◌, ◌≤◌, ◌<◌, ◌≡◌, ◌⊎◌, inl, inr, refl, Bool-cases, ◌∙◌, arith, List, [], ◌∷◌,
  Bool, true, false, Option, none, some,
}
use maxql.Core.Error.{error_is_ok}
use maxql.Core.Lexer.Laws.{IsLexer}
use maxql.Parser.State.{Parser, M, pure, ◌>>=◌, ◌>>◌, branch, tokens_left, do_while, sep_list}

-- From `p` to `p'`: the input is a C string still, no token comes back, an error stays.
pub record Keeps (p p' : Parser) : Type 0 where
  pub lexer : IsLexer p'.lexer
  pub left : tokens_left p' ≤ tokens_left p
  pub error : (error_is_ok p.error ≡ true) ⊎ (p'.error ≡ p.error)

pub first_error : (p p' : Parser) → Keeps p p' → error_is_ok p.error ≡ false → p'.error ≡ p.error
first_error p p' k h = elim k.error [ inl fine ↦ cc | inr same ↦ same ]

pub Keeps-refl : (p : Parser) → IsLexer p.lexer → Keeps p p
Keeps-refl p w = record { lexer = w; left = omega arith; error = inr refl }

pub Keeps-trans : (p q r : Parser) → Keeps p q → Keeps q r → Keeps p r
Keeps-trans p q r a b = record {
  lexer = b.lexer;
  left = omega (arith, a.left, b.left);
  error = elim (Bool-cases (error_is_ok p.error)) [
    | inl fine ↦ inl fine
    | inr bad ↦ let same = first_error p q a bad in inr (first_error q r b (rw same bad) ∙ same)
  ];
}

-- The run gave a value, and keeps what `Keeps` says.
pub data Ends {A : Type 0} (p : Parser) : Option (A × Parser) → Type 0 where
  ends : (a : A) (p' : Parser) → Keeps p p' → Ends p (some (a, p'))

-- A parser that ends from every state on a C string.
abbrev pub Runs : {A : Type 0} → M A → Type 0
Runs m = (p : Parser) → IsLexer p.lexer → Ends p (m p)

pub Runs-pure : {A : Type 0} (a : A) → Runs (pure a)
unfolding pure
Runs-pure a p w = ends a p (Keeps-refl p w)

Ends-from : {A : Type 0} (p q : Parser) {r : Option (A × Parser)} → Keeps p q → Ends q r → Ends p r
Ends-from p q k (ends a p' k') = ends a p' (Keeps-trans p q p' k k')

Ends-then :
    {A B : Type 0} {p : Parser} {r : Option (A × Parser)} (f : A → M B)
    → Ends p r
    → ((a : A) → Runs (f a))
    → Ends p (elim r [ none ↦ none | some (a, p') ↦ f a p' ])
Ends-then f (ends a p' k) h = Ends-from _ _ k (h a p' k.lexer)

-- The same from one state.
pub Ends-bind :
    {A B : Type 0} {p : Parser} (m : M A) (f : A → M B)
    → Ends p (m p)
    → ((a : A) → Runs (f a))
    → Ends p ((m >>= f) p)
unfolding ◌>>=◌
Ends-bind m f h k = Ends-then f h k

pub Ends-step :
    {A B : Type 0} {p p' : Parser} {a : A} (m : M A) (f : A → M B)
    → m p ≡ some (a, p')
    → Keeps p p'
    → Ends p' (f a p')
    → Ends p ((m >>= f) p)
unfolding ◌>>=◌
Ends-step m f e k h = rw (e, ◌>>=◌) (Ends-from _ _ k h)

pub Ends-some :
    {A : Type 0} {p : Parser} {r : Option (A × Parser)}
    → Ends p r
    → (a : A) × (p' : Parser) × (r ≡ some (a, p')) × Keeps p p'
Ends-some (ends a p' k) = (a, p', refl, k)

pub Runs-bind :
    {A B : Type 0} (m : M A) (f : A → M B) → Runs m → ((a : A) → Runs (f a)) → Runs (m >>= f)
unfolding ◌>>=◌
Runs-bind m f h k p w = Ends-then f (h p w) k

pub Runs-then : {A B : Type 0} (m : M A) (n : M B) → Runs m → Runs n → Runs (m >> n)
unfolding ◌>>◌
Runs-then m n h k = Runs-bind m (λ _. n) h (λ _. k)

pub Runs-branch : {A : Type 0} (b : Bool) (m n : M A) → Runs m → Runs n → Runs (branch b m n)
unfolding branch
Runs-branch true m n h k = h
Runs-branch false m n h k = k

pub ruleset runs = (Runs-pure, Runs-bind, Runs-then, Runs-branch)
