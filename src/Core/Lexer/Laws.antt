-- ===== src/Core/Lexer/Laws.antt =====
-- The lexer stays inside its input, ends, and reads each token to its end.
use maxql.Prelude.{
  ℕ, zero, suc, ◌+◌, ◌≤◌, ◌<◌, ◌≡◌, ◌≢◌, ◌⊎◌, inl, inr, refl, ap, ◌∙◌, arith, ltb→le, Bool, true,
  false, ◌&&◌, ◌||◌, not, get_or, Bool-cases,
}
use native.Mathlib.Decide.{dec_lt}
use maxql.Core.StrView.{StrView}
use maxql.Core.Lexer.{
  Lexer, Token, token_eof, has_more, current_char, next_char, bytes_left, skip_while, skip_number,
  is_ident, is_ident_start, is_digit, is_dot, is_hex_digit, is_hex_mark, is_quote, is_whitespace,
  lexer_skip_whitespace, lexer_read_ident, lexer_read_number, lexer_read_hex, lexer_read_string,
  lexer_read_symbol, lexer_symbol_two_chars, lexer_token, lexer_next,
}

-- The input is a C string, or what stands before its 0; the position is inside.
pub record IsLexer (l : Lexer) : Type 0 where
  pub ended : get_or l.input.ptr l.input.len 0 ≡ 0
  pub inside : l.pos ≤ l.input.len

-- The same input, read on up to a position inside.
pub record ReadOn (l l' : Lexer) : Type 0 where
  pub same : l'.input ≡ l.input
  pub onward : l.pos ≤ l'.pos
  pub within : l'.pos ≤ l.input.len

skip_while-ReadOn :
    (f : ℕ) (test : ℕ → Bool) (l : Lexer) → l.pos ≤ l.input.len → ReadOn l (skip_while f test l)
unfolding skip_while
skip_while-ReadOn zero test l h = ground arith
skip_while-ReadOn (suc f) test l h = elim (Bool-cases (has_more l && test (current_char l))) [
  | inl go ↦
      let r = skip_while-ReadOn f test (record l { pos = l.pos + 1 }) (ground arith) in ground arith
  | inr stop ↦ ground arith
]

-- With enough fuel the loop ends at the end of the input or at a byte that fails the test.
skip_while_stop :
    (f : ℕ) (test : ℕ → Bool) (l : Lexer)
    → bytes_left l ≤ f
    → (has_more (skip_while f test l) && test (current_char (skip_while f test l))) ≡ false
unfolding skip_while
skip_while_stop zero test l h = ground arith
skip_while_stop (suc f) test l h = elim (Bool-cases (has_more l && test (current_char l))) [
  | inl go ↦ rw go (skip_while_stop f test (record l { pos = l.pos + 1 }) (ground arith))
  | inr stop ↦ rw stop stop
]

skip_while-lt :
    (f : ℕ) (test : ℕ → Bool) (l : Lexer)
    → bytes_left l ≤ f
    → has_more l ≡ true
    → test (current_char l) ≡ true
    → l.pos < (skip_while f test l).pos
unfolding skip_while
skip_while-lt zero test l h more t = ground arith
skip_while-lt (suc f) test l h more t =
    let r = skip_while-ReadOn f test (record l { pos = l.pos + 1 }) (ground arith) in ground arith

skip_number-ReadOn :
    (f : ℕ) (dot : Bool) (l : Lexer) → l.pos ≤ l.input.len → ReadOn l (skip_number f dot l)
unfolding skip_number
skip_number-ReadOn zero dot l h = ground arith
skip_number-ReadOn (suc f) dot l h =
    let next = record l { pos = l.pos + 1 } in
    elim (Bool-cases (has_more l)) [
      | inl more ↦
          let r = skip_number-ReadOn f (dot || is_dot (current_char l)) next (ground arith) in
          ground arith
      | inr stop ↦ ground arith
    ]

skip_number-lt :
    (f : ℕ) (l : Lexer)
    → bytes_left l ≤ f
    → has_more l ≡ true
    → is_digit (current_char l) ≡ true
    → l.pos < (skip_number f false l).pos
unfolding skip_number
skip_number-lt zero l h more t = ground arith
skip_number-lt (suc f) l h more t =
    let r =
      skip_number-ReadOn f (is_dot (current_char l)) (record l { pos = l.pos + 1 })
        (ground arith) in
    ground arith

-- A token was read: the same input, read on by at least a byte.
abbrev Advances : Lexer → Token × Lexer → Type 0
Advances l r = ReadOn l r.1 × (l.pos < r.1.pos)

is_ident_of_start : (c : ℕ) → is_ident_start c ≡ true → is_ident c ≡ true
unfolding is_ident_start is_ident
is_ident_of_start c h = ground arith

read_ident-Advances :
    (l : Lexer)
    → l.pos ≤ l.input.len
    → has_more l ≡ true
    → is_ident_start (current_char l) ≡ true
    → Advances l (lexer_read_ident l)
unfolding lexer_read_ident is_ident_start is_ident
read_ident-Advances l h more t = (
  skip_while-ReadOn (bytes_left l) is_ident l h,
  skip_while-lt (bytes_left l) is_ident l (omega arith) more (is_ident_of_start (current_char l) t),
)

read_number-Advances :
    (l : Lexer)
    → l.pos ≤ l.input.len
    → has_more l ≡ true
    → is_digit (current_char l) ≡ true
    → Advances l (lexer_read_number l)
unfolding lexer_read_number
read_number-Advances l h more t = (
  skip_number-ReadOn (bytes_left l) false l h,
  skip_number-lt (bytes_left l) l (omega arith) more t,
)

-- A byte that is not 0 stands before the end.
inside_of_byte :
    (l : Lexer) → IsLexer l → l.pos < l.input.len → next_char l ≢ 0 → l.pos + 1 < l.input.len
inside_of_byte l w h n = elim (dec_lt (l.pos + 1) l.input.len) [
  | yes inside ↦ inside
  | no outside ↦ let last : l.pos + 1 ≡ l.input.len = omega arith in absurd (n (rw last w.ended))
]

read_hex-Advances :
    (l : Lexer)
    → IsLexer l
    → has_more l ≡ true
    → is_hex_mark (next_char l) ≡ true
    → Advances l (lexer_read_hex l)
unfolding lexer_read_hex is_hex_mark
read_hex-Advances l w more t =
    let past = inside_of_byte l w (ground arith) (ground arith) in
    let l₂ = record l { pos = l.pos + 2 } in
    let r = skip_while-ReadOn (bytes_left l₂) is_hex_digit l₂ (omega arith) in
    (record { same = r.same; onward = omega arith; within = r.within }, omega arith)

read_string-Advances : (l : Lexer) → has_more l ≡ true → Advances l (lexer_read_string l)
unfolding lexer_read_string
read_string-Advances l more =
    let l₂ = record l { pos = l.pos + 1 } in
    let r = skip_while-ReadOn (bytes_left l₂) (λ c. not (is_quote c)) l₂ (ground arith) in
    ground arith

read_symbol-Advances :
    (l : Lexer) → IsLexer l → has_more l ≡ true → Advances l (lexer_read_symbol l)
unfolding lexer_read_symbol lexer_symbol_two_chars
read_symbol-Advances l w more = let past = inside_of_byte l w (ground arith) in ground arith

lexer_token-Advances : (l : Lexer) → IsLexer l → has_more l ≡ true → Advances l (lexer_token l)
unfolding lexer_token
lexer_token-Advances l w more =
    let c = current_char l in
    elim (Bool-cases (is_ident_start c)) [
      | inl ident ↦ rw (more, ident) (read_ident-Advances l w.inside more ident)
      | inr not_ident ↦ elim (Bool-cases (is_digit c)) [
        | inl digit ↦ elim (Bool-cases (is_hex_mark (next_char l))) [
          | inl hex ↦ rw (more, not_ident, digit, hex) (read_hex-Advances l w more hex)
          | inr plain ↦
              rw (more, not_ident, digit, plain) (read_number-Advances l w.inside more digit)
        ]
        | inr not_digit ↦ elim (Bool-cases (is_quote c)) [
          | inl quote ↦ rw (more, not_ident, not_digit, quote) (read_string-Advances l more)
          | inr symbol ↦ rw (more, not_ident, not_digit, symbol) (read_symbol-Advances l w more)
        ]
      ]
    ]

lexer_token_end :
    (l : Lexer)
    → has_more l ≡ false
    → ((lexer_token l).0.type ≡ token_eof) × ((lexer_token l).1 ≡ l)
unfolding lexer_token
lexer_token_end l none_left = rw none_left (refl, refl)

-- What a call of `lexer_next` may do: the end of the input, or a token of at least a byte.
pub record Reads (l : Lexer) (t : Token) (l' : Lexer) : Type 0 where
  pub same : l'.input ≡ l.input
  pub onward : l.pos ≤ l'.pos
  pub lexer : IsLexer l'
  pub token : ((t.type ≡ token_eof) × (l'.pos ≡ l.input.len)) ⊎ (l.pos < l'.pos)

lexer_of : (l l' : Lexer) → IsLexer l → ReadOn l l' → IsLexer l'
lexer_of l l' w r = record {
  ended = rw (ap (λ (v : StrView). get_or v.ptr v.len 0) r.same) w.ended;
  inside = rw (ap (λ (v : StrView). v.len) r.same) r.within;
}

-- Reading on twice.
ReadOn-trans : (l l₁ l₂ : Lexer) → ReadOn l l₁ → ReadOn l₁ l₂ → ReadOn l l₂
ReadOn-trans l l₁ l₂ r s = record {
  same = s.same ∙ r.same;
  onward = omega (arith, r.onward, s.onward);
  within = omega (arith, s.within, ap (λ (v : StrView). v.len) r.same);
}

-- On a C string, from a position inside it, the lexer stays in the same input at a position inside
-- it, never goes back, and passes at least a byte unless it answers that the input has ended,
-- which it does at its end only.
pub lexer_next-Reads : (l : Lexer) → IsLexer l → Reads l (lexer_next l).0 (lexer_next l).1
unfolding lexer_next lexer_skip_whitespace
lexer_next-Reads l w =
    let l₁ = skip_while (bytes_left l) is_whitespace l in
    let skipped = skip_while-ReadOn (bytes_left l) is_whitespace l w.inside in
    let w₁ : IsLexer l₁ = lexer_of l l₁ w skipped in
    elim (Bool-cases (has_more l₁)) [
      | inl more ↦
          let (r, past) = lexer_token-Advances l₁ w₁ more in
          let all = ReadOn-trans l l₁ (lexer_token l₁).1 skipped r in
          record {
            same = all.same;
            onward = all.onward;
            lexer = lexer_of l (lexer_token l₁).1 w all;
            token = inr (omega (arith, skipped.onward, past));
          }
      | inr ended ↦
          let (eof, stays) = lexer_token_end l₁ ended in
          rw stays (record {
            same = skipped.same;
            onward = skipped.onward;
            lexer = w₁;
            token = inl (
              eof,
              omega (
                arith,
                ltb→le l₁.pos l₁.input.len ended,
                skipped.within,
                ap (λ (v : StrView). v.len) skipped.same,
              ),
            );
          })
    ]
