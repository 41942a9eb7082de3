-- ===== src/Types/Converter.antt =====
-- src/types/converter.c: from the text of a literal to a value. `strtof` is a parameter: the bits of the
-- float that a text starts with, the text behind it, and whether it is out of range.
pub mod Digits
pub mod Bounds
pub mod RoundTrip
use maxql.Prelude.{
  ℕ, zero, suc, ◌+◌, ◌-◌, ◌*◌, ◌/◌, ◌%◌, List, [], ◌∷◌, ◌++◌, Bool, true, false, not, ◌&&◌, ◌||◌,
  Option, none, some, get_or, drop, ltb, leb, min, ◌==◌, if◌then◌else◌,
}
use maxql.Core.StrView.{StrView, tail_bytes, take_bytes, sv_contains, sv_to_cstr, until_nul}
use maxql.Parser.Ast.{LiteralType, lit_number, lit_string, lit_hex}
use maxql.Types.Value.{DataValue, value_int, value_string, value_binary, value_float}

-- `convert_ok` holds what is written to the value.
pub data ConvertResult : Type 0 where
  convert_ok : DataValue → ConvertResult
  convert_not_a_number convert_out_of_range convert_too_long convert_bad_hex : ConvertResult

-- What `isspace` accepts.
abbrev pub is_space : ℕ → Bool
is_space c = c == 32 || (leb 9 c && leb c 13)

unfoldable pub skip_spaces : List ℕ → List ℕ
skip_spaces [] = []
skip_spaces (c ∷ cs) = if is_space c then skip_spaces cs else c ∷ cs

-- The value of a digit, in any base up to 36; no digit has a value above that.
abbrev pub digit_value : ℕ → ℕ
digit_value c =
    if leb 48 c && leb c 57
    then c - 48
    else if leb 97 c && leb c 122
    then c - 87
    else if leb 65 c && leb c 90
    then c - 55
    else 99

-- The digits that a text starts with, behind the number `n`, and the text behind them.
unfoldable pub read_digits : ℕ → ℕ → List ℕ → ℕ × List ℕ
read_digits base n [] = (n, [])
read_digits base n (c ∷ cs) =
    if ltb (digit_value c) base then read_digits base (n * base + digit_value c) cs else (n, c ∷ cs)

-- What `strtoll` and `strtol` answer, and where `end` points. A text for base 16 is too short here for
-- a digit behind 0x.
pub record Number : Type 0 where
  pub negative : Bool
  pub magnitude : ℕ
  pub rest : List ℕ

-- Without a digit, no character is read.
unfoldable pub read_number : Bool → ℕ → List ℕ → List ℕ → Number
unfolding read_digits
read_number negative base digits s =
    if ltb (digit_value (get_or digits 0 0)) base
    then record {
      negative = negative;
      magnitude = (read_digits base 0 digits).0;
      rest = (read_digits base 0 digits).1;
    }
    else record { negative = false; magnitude = 0; rest = s }

-- Behind the spaces, a sign and the digits.
abbrev pub read_signed : ℕ → List ℕ → List ℕ → Number
read_signed base [] s = read_number false base [] s
read_signed base (c ∷ cs) s =
    if c == b'-'
    then read_number true base cs s
    else if c == b'+'
    then read_number false base cs s
    else read_number false base (c ∷ cs) s

unfoldable pub strtoll : ℕ → List ℕ → Number
unfolding skip_spaces read_number
strtoll base s = read_signed base (skip_spaces s) s

-- A number above `INT32_MAX` or below `INT32_MIN`, those that are `ERANGE` among them.
abbrev pub is_too_big : Number → Bool
is_too_big r = if r.negative then ltb 2147483648 r.magnitude else ltb 2147483647 r.magnitude

-- The number modulo the range of a machine word, a power of 2.
abbrev pub wrap : ℕ → Number → ℕ
wrap range r = if r.negative then (range - r.magnitude % range) % range else r.magnitude % range

-- A copy of at most `size - 1` bytes, and a 0.
abbrev pub literal_buffer : ℕ → StrView → List ℕ
literal_buffer size view = take_bytes (min view.len (size - 1)) view.ptr ++ 0 ∷ []

-- What the checks behind `strtoll` make of its answer.
abbrev pub int_of : Number → ConvertResult
int_of r =
    if is_too_big r
    then convert_out_of_range
    else if not (get_or r.rest 0 0 == 0)
    then convert_not_a_number
    else convert_ok (value_int (wrap 4294967296 r))

unfoldable pub convert_int : StrView → ConvertResult
convert_int int_literal = int_of (strtoll 10 (literal_buffer 16 int_literal))

unfoldable pub convert_string : StrView → ConvertResult
unfolding sv_to_cstr
convert_string string_literal =
    if ltb 255 string_literal.len
    then convert_too_long
    else convert_ok (value_string (until_nul (sv_to_cstr string_literal 256)))

-- `strtol` of two characters, as a byte; none where it stops before their end.
abbrev pub byte_of : Number → Option ℕ
byte_of r = if get_or r.rest 0 0 == 0 then some (wrap 256 r) else none

unfoldable pub hex_byte : ℕ → ℕ → Option ℕ
unfolding strtoll
hex_byte a b = byte_of (strtoll 16 (a ∷ b ∷ 0 ∷ []))

-- A byte in front of those that are read.
abbrev pub then_bytes : Option ℕ → Option (List ℕ) → Option (List ℕ)
then_bytes none rest = none
then_bytes (some b) none = none
then_bytes (some b) (some bs) = some (b ∷ bs)

-- The loop over the pairs of characters.
unfoldable pub hex_pairs : ℕ → List ℕ → Option (List ℕ)
unfolding hex_byte
hex_pairs zero ptr = some []
hex_pairs (suc n) ptr =
    then_bytes (hex_byte (get_or ptr 0 0) (get_or ptr 1 0)) (hex_pairs n (drop 2 ptr))

-- A single first character, if the number of them is odd, then the pairs.
unfoldable pub hex_all : ℕ → List ℕ → Option (List ℕ)
unfolding hex_pairs
hex_all len ptr =
    if len % 2 == 1
    then then_bytes (hex_byte 48 (get_or ptr 0 0)) (hex_pairs (len / 2) (tail_bytes ptr))
    else hex_pairs (len / 2) ptr

abbrev pub binary_of : Option (List ℕ) → ConvertResult
binary_of none = convert_bad_hex
binary_of (some bs) = convert_ok (value_binary bs)

unfoldable pub convert_hex : StrView → ConvertResult
unfolding hex_all
convert_hex hex_literal =
    if ltb 256 hex_literal.len
    then convert_too_long
    else binary_of (hex_all hex_literal.len hex_literal.ptr)

pub record Strtof : Type 0 where
  pub value : ℕ
  pub rest : List ℕ
  pub out_of_range : Bool

abbrev pub float_of : Strtof → ConvertResult
float_of r =
    if r.out_of_range
    then convert_out_of_range
    else if not (get_or r.rest 0 0 == 0)
    then convert_not_a_number
    else convert_ok (value_float r.value)

module _ (strtof : List ℕ → Strtof) where
  unfoldable pub convert_float : StrView → ConvertResult
  convert_float float_literal = float_of (strtof (literal_buffer 32 float_literal))

  unfoldable pub convert_number : StrView → ConvertResult
  unfolding convert_float convert_int sv_contains
  convert_number number_literal =
      if sv_contains number_literal b'.'
      then convert_float number_literal
      else convert_int number_literal

  unfoldable pub convert_value : LiteralType → StrView → ConvertResult
  unfolding convert_number convert_string convert_hex
  convert_value lit_number text = convert_number text
  convert_value lit_string text = convert_string text
  convert_value lit_hex text = convert_hex text
