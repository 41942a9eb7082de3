-- ===== src/Types/Compare.antt =====
-- src/types/comparator.c: the comparison of two values, by its sign, and the operators of conditions.
-- A read of another member of the union than the one stored gives `none`.
use maxql.Prelude.{
  ℕ, List, [], ◌∷◌, Bool, true, false, Option, none, some, compare, Ordering, length, get_or, ◌==◌,
  if◌then◌else◌,
}
use Prim.Native.Nat.Ordering.{lt, eq, gt}
use maxql.Core.StrView.{tail_bytes}
use maxql.Types.KeyCompare.{biased, compare_binary_keys, compare_floats}
use maxql.Types.Value.{DataValue, value_int, value_string, value_binary, value_float}
use maxql.Parser.Ast.{
  ConditionOp, op_unknown, op_equals, op_not_equals, op_less, op_less_or_equal, op_greater,
  op_great_or_equal,
}

-- `strcmp`.
unfoldable pub strcmp : List ℕ → List ℕ → Ordering
strcmp [] b = compare 0 (get_or b 0 0)
strcmp (x ∷ a) b = elim (compare x (get_or b 0 0)) [
  | lt ↦ lt
  | gt ↦ gt
  | eq ↦ if x == 0 then eq else strcmp a (tail_bytes b)
]

-- The first by its length, then `memcmp`.
unfoldable pub compare_bytes : List ℕ → List ℕ → Ordering
unfolding compare_binary_keys
compare_bytes a b = elim (compare (length a) (length b)) [
  | lt ↦ lt
  | gt ↦ gt
  | eq ↦ compare_binary_keys (length a) a b
]

unfoldable pub compare_value : DataValue → DataValue → Option Ordering
unfolding strcmp compare_floats compare_bytes
compare_value (value_int a) (value_int b) = some (compare (biased a) (biased b))
compare_value (value_string a) (value_string b) = some (strcmp a b)
compare_value (value_binary a) (value_binary b) = some (compare_bytes a b)
compare_value (value_float a) (value_float b) = some (compare_floats a b)
compare_value _ _ = none

-- An unknown operator is asserted not to come.
unfoldable pub compare_matches_op : ConditionOp → Ordering → Option Bool
compare_matches_op op_unknown c = none
compare_matches_op op_equals c = some (elim c [ eq ↦ true | _ ↦ false ])
compare_matches_op op_not_equals c = some (elim c [ eq ↦ false | _ ↦ true ])
compare_matches_op op_less c = some (elim c [ lt ↦ true | _ ↦ false ])
compare_matches_op op_less_or_equal c = some (elim c [ gt ↦ false | _ ↦ true ])
compare_matches_op op_greater c = some (elim c [ gt ↦ true | _ ↦ false ])
compare_matches_op op_great_or_equal c = some (elim c [ lt ↦ false | _ ↦ true ])
