-- ===== src/Types/Formatter.antt =====
-- src/types/formatter.c and src/types/presentation.c: values as text, without the 0 at its end. A text is
-- cut to its buffer. `print_float` is `snprintf` of a float by "%.7g", a parameter.
use maxql.Prelude.{
  ℕ, zero, suc, ◌+◌, ◌-◌, ◌*◌, ◌/◌, ◌%◌, List, [], ◌∷◌, ◌++◌, Bool, true, false, Option, none, some,
  take, length, ltb, ◌==◌, if◌then◌else◌,
}
use maxql.Core.StrView.{codes, until_nul}
use maxql.Types.Value.{
  ColumnType, type_int, type_varchar, type_char, type_binary, type_float, DataValue, value_int,
  value_string, value_binary, value_float,
}

-- The last digits of a number, as many as are counted.
unfoldable pub last_digits : ℕ → ℕ → List ℕ → List ℕ
last_digits zero n out = out
last_digits (suc k) n out =
    let rest = last_digits k (n / 10) ((48 + n % 10) ∷ out) in if n == 0 then out else rest

-- `%u` of 32 bits, which have ten digits at most.
unfoldable pub print_number : ℕ → List ℕ
print_number n = if n == 0 then 48 ∷ [] else last_digits 10 n []

-- `%i` of the pattern of an `int32_t`.
unfoldable pub print_int : ℕ → List ℕ
print_int w = if ltb w 2147483648 then print_number w else b'-' ∷ print_number (4294967296 - w)

-- A digit of base 16.
abbrev pub hex_digit : ℕ → ℕ
hex_digit d = if ltb d 10 then 48 + d else 87 + d

-- `%02x` of each byte.
unfoldable pub print_bytes : List ℕ → List ℕ
print_bytes [] = []
print_bytes (b ∷ bs) = hex_digit (b / 16 % 16) ∷ hex_digit (b % 16) ∷ print_bytes bs

-- A value of another type than the function is for has no text.
unfoldable pub format_int : DataValue → ℕ → Option (List ℕ)
unfolding print_int
format_int (value_int w) buf_size = some (take (buf_size - 1) (print_int w))
format_int _ buf_size = none

unfoldable pub format_string : DataValue → ℕ → Option (List ℕ)
format_string (value_string s) buf_size = some (take (buf_size - 1) (until_nul s))
format_string _ buf_size = none

-- A byte that is written from behind the buffer gives none: the size that is left wraps around.
unfoldable pub format_binary : DataValue → ℕ → Option (List ℕ)
unfolding print_bytes
format_binary (value_binary b) buf_size =
    if ltb buf_size (2 * length b)
    then none
    else some (take (buf_size - 1) (codes "0x" ++ print_bytes b))
format_binary _ buf_size = none

unfoldable pub format_literal_string : DataValue → ℕ → Option (List ℕ)
format_literal_string (value_string s) buf_size =
    some (take (buf_size - 1) (34 ∷ until_nul s ++ 34 ∷ []))
format_literal_string _ buf_size = none

-- `uint8_t` in the widths wraps around.
pub record ColumnPresentation : Type 0 where
  pub align_right : Bool
  pub display_width : ℕ → ℕ
  pub max_literal_size : ℕ → ℕ
  pub format_display : DataValue → ℕ → Option (List ℕ)
  pub format_literal : DataValue → ℕ → Option (List ℕ)

abbrev pub display_width_string : ℕ → ℕ
display_width_string byte_len = if ltb byte_len 4 then 4 else byte_len

abbrev pub display_width_binary : ℕ → ℕ
display_width_binary byte_len = (byte_len * 2 + 2) % 256

module _ (print_float : ℕ → List ℕ) where
  unfoldable pub format_float : DataValue → ℕ → Option (List ℕ)
  format_float (value_float w) buf_size = some (take (buf_size - 1) (print_float w))
  format_float _ buf_size = none

  unfoldable pub type_presentation : ColumnType → ColumnPresentation
  unfolding format_int format_string format_binary format_float format_literal_string
  type_presentation type_int = record {
    align_right = true;
    display_width = λ byte_len. 11;
    max_literal_size = λ byte_len. 12;
    format_display = format_int;
    format_literal = format_int;
  }
  type_presentation type_varchar = record {
    align_right = false;
    display_width = display_width_string;
    max_literal_size = λ byte_len. byte_len + 3;
    format_display = format_string;
    format_literal = format_literal_string;
  }
  type_presentation type_char = record {
    align_right = false;
    display_width = display_width_string;
    max_literal_size = λ byte_len. byte_len + 3;
    format_display = format_string;
    format_literal = format_literal_string;
  }
  type_presentation type_binary = record {
    align_right = false;
    display_width = display_width_binary;
    max_literal_size = λ byte_len. byte_len * 2 + 3;
    format_display = format_binary;
    format_literal = format_binary;
  }
  type_presentation type_float = record {
    align_right = true;
    display_width = λ byte_len. 15;
    max_literal_size = λ byte_len. 15;
    format_display = format_float;
    format_literal = format_float;
  }
