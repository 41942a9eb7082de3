-- ===== src/Types/Value.antt =====
-- `DataValue` and the enumerations of include/maxql/types.h. A string is the bytes of its buffer; a
-- byte past the end of the list is read as 0, the end of the C string. A number is its pattern of 32
-- bits, with the low byte first in memory.
use maxql.Prelude.{ℕ, ◌/◌, ◌%◌, List, [], ◌∷◌}

pub data ColumnType : Type 0 where
  type_int type_varchar type_char type_binary type_float : ColumnType

pub data ValueType : Type 0 where
  null_type int_type string_type binary_type float_type : ValueType

pub data DataValue : Type 0 where
  value_null : DataValue
  value_int : ℕ → DataValue
  value_string : List ℕ → DataValue
  value_binary : List ℕ → DataValue
  value_float : ℕ → DataValue

abbrev pub value_type : DataValue → ValueType
value_type value_null = null_type
value_type (value_int w) = int_type
value_type (value_string s) = string_type
value_type (value_binary b) = binary_type
value_type (value_float w) = float_type

-- The bytes of 32 bits in memory.
abbrev pub word_bytes : ℕ → List ℕ
word_bytes w = (w % 256) ∷ (w / 256 % 256) ∷ (w / 65536 % 256) ∷ (w / 16777216 % 256) ∷ []
