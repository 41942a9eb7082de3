-- ===== src/Parser/Runs/Parts.antt =====
-- The parsers of the parts of a statement end.
use maxql.Prelude.{refl}
use maxql.Core.Lexer.{token_string, token_hex, token_comma}
use maxql.Parser.State.{M, sep_list}
use maxql.Parser.Primitives.{
  parser_accept, parse_string, parse_hex, parse_ident_list, parse_value, parse_index_key_part,
  parse_index_key_part_list, parse_assignment, parse_assignment_list, parse_comparison_op,
  parse_condition, parse_condition_list, parse_column_type, parse_column_def, parse_column_def_list,
}
use maxql.Parser.Runs.{Runs, runs}
use maxql.Parser.Runs.Primitives.{
  parser_next-Runs, parser_set_error-Runs, parser_check-Runs, parser_accept-Runs,
  parser_expect-Runs, parser_accept_keyword-Runs, parser_expect_keyword-Runs, parse_token-Runs,
  parse_ident-Runs, parse_number-Runs, current_op-Runs,
}
use maxql.Parser.Runs.Lists.{parser_accept-Takes, parser_accept_keyword-Takes, sep_list-Runs}

parse_string-Runs : Runs parse_string
unfolding parse_string
parse_string-Runs = parse_token-Runs token_string

parse_hex-Runs : Runs parse_hex
unfolding parse_hex
parse_hex-Runs = parse_token-Runs token_hex

pub ruleset parts = (
  runs, parser_set_error-Runs, parser_check-Runs, parser_accept-Runs, parser_expect-Runs,
  parser_accept_keyword-Runs, parser_expect_keyword-Runs, parse_ident-Runs, parse_number-Runs,
)

comma_list :
    {A : Type 0} (item : M A) → Runs item → Runs (sep_list item (parser_accept token_comma))
comma_list item r = sep_list-Runs item _ r (parser_accept-Takes token_comma refl)

pub parse_ident_list-Runs : Runs parse_ident_list
unfolding parse_ident_list
parse_ident_list-Runs = comma_list _ parse_ident-Runs

pub parse_value-Runs : Runs parse_value
unfolding parse_value
parse_value-Runs = search (parts, parse_string-Runs, parse_hex-Runs) depth 14

pub parse_index_key_part-Runs : Runs parse_index_key_part
unfolding parse_index_key_part
parse_index_key_part-Runs = search parts depth 9

pub parse_index_key_part_list-Runs : Runs parse_index_key_part_list
unfolding parse_index_key_part_list
parse_index_key_part_list-Runs = comma_list _ parse_index_key_part-Runs

parse_assignment-Runs : Runs parse_assignment
unfolding parse_assignment
parse_assignment-Runs = search (parts, parse_value-Runs) depth 9

pub parse_assignment_list-Runs : Runs parse_assignment_list
unfolding parse_assignment_list
parse_assignment_list-Runs = comma_list _ parse_assignment-Runs

parse_comparison_op-Runs : Runs parse_comparison_op
unfolding parse_comparison_op
parse_comparison_op-Runs = search (parts, current_op-Runs, parser_next-Runs) depth 9

parse_condition-Runs : Runs parse_condition
unfolding parse_condition
parse_condition-Runs = search (parts, parse_comparison_op-Runs, parse_value-Runs) depth 9

pub parse_condition_list-Runs : Runs parse_condition_list
unfolding parse_condition_list
parse_condition_list-Runs =
    sep_list-Runs _ _ parse_condition-Runs (parser_accept_keyword-Takes "and")

pub parse_column_type-Runs : Runs parse_column_type
unfolding parse_column_type
parse_column_type-Runs = search parts depth 9

pub parse_column_def-Runs : Runs parse_column_def
unfolding parse_column_def
parse_column_def-Runs = search (parts, parse_column_type-Runs, parse_value-Runs) depth 9

pub parse_column_def_list-Runs : Runs parse_column_def_list
unfolding parse_column_def_list
parse_column_def_list-Runs = comma_list _ parse_column_def-Runs
