-- ===== src/Types/Mapper.antt =====
-- src/types/mapper.c and include/maxql/types/types.h: the types of columns, with what each does to a
-- value. `serialize` returns the bytes it writes, as many as it returns in C; it returns `none` where
-- it would read another member of the union than the one stored, or write past the field.
pub mod RoundTrip
use maxql.Prelude.{
  ℕ, zero, suc, ◌+◌, ◌-◌, ◌%◌, List, [], ◌∷◌, ◌++◌, Bool, true, false, not, ◌&&◌, Option, none,
  some, Ordering, length, get_or, replicate, ltb, ◌==◌, if◌then◌else◌, reverse,
}
use Prim.Native.Nat.Ordering.{lt, eq, gt}
use maxql.Core.StrView.{codes, strlen, tail_bytes, take_bytes}
use maxql.Btree.Order.{KeyComparator}
use maxql.Types.KeyCompare.{
  word_at, compare_int_keys, compare_string_keys, compare_binary_keys, compare_float_keys,
}
use maxql.Types.Compare.{strcmp}
use maxql.Types.Value.{
  ColumnType, type_int, type_varchar, type_char, type_binary, type_float, ValueType, null_type,
  int_type, string_type, binary_type, float_type, DataValue, value_null, value_int, value_string,
  value_binary, value_float, value_type, word_bytes,
}

pub data TypeValidateResult : Type 0 where
  validate_ok validate_type_mismatch validate_value_too_long : TypeValidateResult

unfoldable pub validate_string : DataValue → ℕ → Option TypeValidateResult
validate_string (value_string s) byte_len =
    some (if ltb byte_len (strlen s) then validate_value_too_long else validate_ok)
validate_string _ byte_len = none

unfoldable pub validate_binary : DataValue → ℕ → Option TypeValidateResult
validate_binary (value_binary b) byte_len =
    some (if ltb byte_len (length b) then validate_value_too_long else validate_ok)
validate_binary _ byte_len = none

unfoldable pub serialize_int : DataValue → ℕ → Option (List ℕ)
serialize_int (value_int w) byte_len = some (take_bytes byte_len (word_bytes w))
serialize_int _ byte_len = none

-- The value, and the number of bytes read.
unfoldable pub deserialize_int : List ℕ → ℕ → DataValue × ℕ
deserialize_int buf byte_len = (value_int (word_at (take_bytes byte_len buf)), byte_len)

unfoldable pub serialize_float : DataValue → ℕ → Option (List ℕ)
serialize_float (value_float w) byte_len = some (take_bytes byte_len (word_bytes w))
serialize_float _ byte_len = none

unfoldable pub deserialize_float : List ℕ → ℕ → DataValue × ℕ
deserialize_float buf byte_len = (value_float (word_at (take_bytes byte_len buf)), byte_len)

unfoldable pub serialize_varchar : DataValue → ℕ → Option (List ℕ)
serialize_varchar (value_string s) byte_len =
    let len = strlen s % 256 in some (len ∷ take_bytes len s)
serialize_varchar _ byte_len = none

unfoldable pub deserialize_varchar : List ℕ → ℕ → DataValue × ℕ
deserialize_varchar buf byte_len =
    let len = get_or buf 0 0 in (value_string (take_bytes len (tail_bytes buf)), len + 1)

unfoldable pub serialize_char : DataValue → ℕ → Option (List ℕ)
serialize_char (value_string s) byte_len =
    let len = strlen s % 256 in
    if ltb byte_len len then none else some (take_bytes len s ++ replicate (byte_len - len) 32)
serialize_char _ byte_len = none

-- The loop that ends the string before its last spaces, on the bytes from the last one back.
abbrev pub drop_spaces : List ℕ → List ℕ
drop_spaces [] = []
drop_spaces (c ∷ cs) = if c == 32 then drop_spaces cs else c ∷ cs

abbrev pub trim_spaces : List ℕ → List ℕ
trim_spaces cs = reverse (drop_spaces (reverse cs))

unfoldable pub deserialize_char : List ℕ → ℕ → DataValue × ℕ
deserialize_char buf byte_len = (value_string (trim_spaces (take_bytes byte_len buf)), byte_len)

unfoldable pub serialize_binary : DataValue → ℕ → Option (List ℕ)
serialize_binary (value_binary b) byte_len =
    if ltb byte_len (length b) then none else some (b ++ replicate (byte_len - length b) 0)
serialize_binary _ byte_len = none

unfoldable pub deserialize_binary : List ℕ → ℕ → DataValue × ℕ
deserialize_binary buf byte_len = (value_binary (take_bytes byte_len buf), byte_len)

-- A `compare` is handed the length of its part of the key. `fixed_size` is 0 where it is not set.
pub record TypeInfo : Type 0 where
  pub column_type : ColumnType
  pub value_type : ValueType
  pub type_name : List ℕ
  pub expects_len : Bool
  pub min_len : ℕ
  pub max_len : ℕ
  pub fixed_size : ℕ
  pub comparator : ℕ → KeyComparator
  pub validate : Option (DataValue → ℕ → Option TypeValidateResult)
  pub serialize : DataValue → ℕ → Option (List ℕ)
  pub deserialize : List ℕ → ℕ → DataValue × ℕ

unfoldable pub type_mapping : ColumnType → TypeInfo
unfolding compare_int_keys compare_string_keys compare_binary_keys compare_float_keys
    validate_string validate_binary serialize_int deserialize_int serialize_varchar
    deserialize_varchar serialize_char deserialize_char serialize_binary deserialize_binary
    serialize_float deserialize_float
type_mapping type_int = record {
  column_type = type_int;
  value_type = int_type;
  type_name = codes "int";
  expects_len = false;
  min_len = 0;
  max_len = 0;
  fixed_size = 4;
  comparator = λ _. compare_int_keys;
  validate = none;
  serialize = serialize_int;
  deserialize = deserialize_int;
}
type_mapping type_varchar = record {
  column_type = type_varchar;
  value_type = string_type;
  type_name = codes "varchar";
  expects_len = true;
  min_len = 1;
  max_len = 255;
  fixed_size = 0;
  comparator = compare_string_keys;
  validate = some validate_string;
  serialize = serialize_varchar;
  deserialize = deserialize_varchar;
}
type_mapping type_char = record {
  column_type = type_char;
  value_type = string_type;
  type_name = codes "char";
  expects_len = true;
  min_len = 1;
  max_len = 128;
  fixed_size = 0;
  comparator = compare_string_keys;
  validate = some validate_string;
  serialize = serialize_char;
  deserialize = deserialize_char;
}
type_mapping type_binary = record {
  column_type = type_binary;
  value_type = binary_type;
  type_name = codes "binary";
  expects_len = true;
  min_len = 1;
  max_len = 128;
  fixed_size = 0;
  comparator = compare_binary_keys;
  validate = some validate_binary;
  serialize = serialize_binary;
  deserialize = deserialize_binary;
}
type_mapping type_float = record {
  column_type = type_float;
  value_type = float_type;
  type_name = codes "float";
  expects_len = false;
  min_len = 0;
  max_len = 0;
  fixed_size = 4;
  comparator = λ _. compare_float_keys;
  validate = none;
  serialize = serialize_float;
  deserialize = deserialize_float;
}
