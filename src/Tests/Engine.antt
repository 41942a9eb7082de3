-- ===== src/Tests/Engine.antt =====
-- The checks of statements, at statements.
use maxql.Prelude.{[], ◌∷◌, some, true, false, ◌≡◌, ◌↔◌, refl}
use maxql.Core.Error.{error_is_ok, error_ok}
use maxql.Core.StrView.{StrView, sv_equal}
use maxql.Parser.Ast.{IndexKeyPart, CreateIndexStmt, ParseResult, query_select, no_view}
use maxql.Engine.Stages.{validate_stage}
use maxql.Engine.DdlValidator.{
  validate_create_index, IsIndexStmt, validate_create_index-IsIndexStmt,
}

abbrev letter_a : StrView
letter_a = record { ptr = 97 ∷ 0 ∷ []; len = 1 }

abbrev letter_b : StrView
letter_b = record { ptr = 98 ∷ 0 ∷ []; len = 1 }

abbrev part : StrView → IndexKeyPart
part column = record { column = column; key_len = no_view; has_key_len = false }

abbrev index_on : StrView → StrView → CreateIndexStmt
index_on c d = record {
  is_unique = true;
  name = letter_a;
  type = letter_b;
  table = letter_a;
  key_parts = part c ∷ part d ∷ [];
}

accepts_two : error_is_ok (validate_create_index (index_on letter_a letter_b)) ≡ true
unfolding validate_create_index sv_equal
accepts_two = refl

rejects_twice : error_is_ok (validate_create_index (index_on letter_a letter_a)) ≡ false
unfolding validate_create_index sv_equal
rejects_twice = refl

validate_create_index-IsIndexStmt_example :
    (error_is_ok (validate_create_index (index_on letter_a letter_b)) ≡ true)
    ↔ IsIndexStmt (index_on letter_a letter_b)
validate_create_index-IsIndexStmt_example =
    validate_create_index-IsIndexStmt (index_on letter_a letter_b)

abbrev select_a : ParseResult
select_a = query_select (record {
  columns = letter_a ∷ letter_b ∷ [];
  table = letter_a;
  ignore_index = false;
  where_list = [];
})

accepts_select : validate_stage select_a ≡ some error_ok
unfolding validate_stage sv_equal
accepts_select = refl
