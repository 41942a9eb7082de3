-- ===== src/Types/Converter/Bounds.antt =====
-- The values that src/types/converter.c makes.
use maxql.Prelude.{
  ℕ, zero, suc, ◌/◌, ◌%◌, ◌≤◌, ◌<◌, List, [], ◌∷◌, ◌++◌, Bool, true, false, not, Option, some, none,
  ◌≡◌, refl, ap, arith, Bool-cases, inl, inr, length, drop, get_or, ltb, ◌==◌, if◌then◌else◌, All,
  All-append,
}
use maxql.Core.StrView.{StrView, tail_bytes, take_bytes, sv_contains, sv_to_cstr, until_nul}
use maxql.Parser.Ast.{LiteralType, lit_number, lit_string, lit_hex}
use maxql.Types.Value.{DataValue, value_null, value_int, value_string, value_binary, value_float}
use maxql.Types.Mapper.RoundTrip.{IsCharacter, length-take_bytes}
use maxql.Types.Converter.{
  ConvertResult, convert_ok, is_too_big, Number, strtoll, literal_buffer, int_of, convert_int,
  convert_string, byte_of, then_bytes, binary_of, float_of, hex_byte, hex_pairs, hex_all,
  convert_hex, Strtof, convert_float, convert_number, convert_value,
}

-- A value of a literal: a pattern of 32 bits, at most 255 characters, or at most 128 bytes.
abbrev pub IsValue : DataValue → Type 0
IsValue value_null = ⊥
IsValue (value_int w) = w < 4294967296
IsValue (value_float w) = w < 4294967296
IsValue (value_string s) = (length s ≤ 255) × All IsCharacter s
IsValue (value_binary b) = (length b ≤ 128) × All (λ c. c < 256) b

-- The kind of value that a literal has.
abbrev pub OfLiteral : LiteralType → DataValue → Type 0
OfLiteral lit_number (value_int w) = Unit
OfLiteral lit_number (value_float w) = Unit
OfLiteral lit_string (value_string s) = Unit
OfLiteral lit_hex (value_binary b) = Unit
OfLiteral _ _ = ⊥

-- What a conversion answers: a value of the literal's kind, or a refusal.
abbrev pub Converted : LiteralType → ConvertResult → Type 0
Converted type (convert_ok v) = IsValue v × OfLiteral type v
Converted type _ = Unit

Converted-if :
    (type : LiteralType) (b : Bool) (r s : ConvertResult)
    → (b ≡ true → Converted type r)
    → (b ≡ false → Converted type s)
    → Converted type (if b then r else s)
Converted-if type true r s f g = f refl
Converted-if type false r s f g = g refl

int_of-Converted : (r : Number) → Converted lit_number (int_of r)
int_of-Converted r =
    Converted-if lit_number (is_too_big r) _ _ (λ h. tt)
      (λ h.
        Converted-if lit_number (not (get_or r.rest 0 0 == 0)) _ _ (λ k. tt)
          (λ k. (ground arith, tt)))

convert_int-Converted : (text : StrView) → Converted lit_number (convert_int text)
unfolding convert_int
convert_int-Converted text = int_of-Converted (strtoll 10 (literal_buffer 16 text))

-- `convert_int` makes integers only.
abbrev pub IsInt : DataValue → Type 0
IsInt (value_int w) = w < 4294967296
IsInt _ = ⊥

abbrev pub OfInt : ConvertResult → Type 0
OfInt (convert_ok v) = IsInt v
OfInt _ = Unit

OfInt-if : (b : Bool) (r s : ConvertResult) → OfInt r → OfInt s → OfInt (if b then r else s)
OfInt-if true r s f g = f
OfInt-if false r s f g = g

pub convert_int-OfInt : (text : StrView) → OfInt (convert_int text)
unfolding convert_int
convert_int-OfInt text =
    let r = strtoll 10 (literal_buffer 16 text) in
    OfInt-if (is_too_big r) _ _ tt (OfInt-if (not (get_or r.rest 0 0 == 0)) _ _ tt (ground arith))

abbrev pub IsByte : ℕ → Type 0
IsByte c = c ≤ 255

until_nul-IsCharacter : (s : List ℕ) → All IsByte s → All IsCharacter (until_nul s)
until_nul-IsCharacter [] h = tt
until_nul-IsCharacter (c ∷ s) h = elim (Bool-cases (c == 0)) [
  | inl z ↦ rw (z) tt
  | inr p ↦ rw (p) (((ground (arith, p)), h.0), until_nul-IsCharacter s h.1)
]

length-until_nul : (s rest : List ℕ) → length (until_nul (s ++ 0 ∷ rest)) ≤ length s
length-until_nul [] rest = omega arith
length-until_nul (c ∷ s) rest = ground (arith, length-until_nul s rest)

tail_bytes-IsByte : (s : List ℕ) → All IsByte s → All IsByte (tail_bytes s)
tail_bytes-IsByte [] h = tt
tail_bytes-IsByte (c ∷ s) h = h.1

first-IsByte : (s : List ℕ) → All IsByte s → get_or s 0 0 ≤ 255
first-IsByte [] h = omega arith
first-IsByte (c ∷ s) h = h.0

take_bytes-IsByte : (n : ℕ) (s : List ℕ) → All IsByte s → All IsByte (take_bytes n s)
take_bytes-IsByte zero s h = tt
take_bytes-IsByte (suc n) s h =
    (first-IsByte s h, take_bytes-IsByte n (tail_bytes s) (tail_bytes-IsByte s h))

convert_string-Converted :
    (text : StrView) → All IsByte text.ptr → Converted lit_string (convert_string text)
unfolding convert_string sv_to_cstr
convert_string-Converted text h =
    let n = if ltb text.len 255 then text.len else 255 in
    let short : n ≤ 255 = ground arith in
    let copy = take_bytes n text.ptr in
    Converted-if lit_string (ltb 255 text.len) _ _ (λ _. tt)
      (λ _. (
        (
          omega (arith, length-until_nul copy [], length-take_bytes n text.ptr, short),
          until_nul-IsCharacter (copy ++ 0 ∷ [])
              (All-append IsByte copy (0 ∷ []) (take_bytes-IsByte n text.ptr h) (omega arith, tt)),
        ),
        tt,
      ))

byte_of-lt : (r : Number) (b : ℕ) → byte_of r ≡ some b → b < 256
byte_of-lt r b h = ground (arith, h)

-- As many bytes as are asked for.
abbrev Bytes : ℕ → Option (List ℕ) → Type 0
Bytes n none = Unit
Bytes n (some bs) = (length bs ≡ n) × All (λ c. c < 256) bs

then_bytes-Bytes :
    (n : ℕ) (o : Option ℕ) (rest : Option (List ℕ))
    → ((b : ℕ) → o ≡ some b → b < 256)
    → Bytes n rest
    → Bytes (suc n) (then_bytes o rest)
then_bytes-Bytes n none rest h k = tt
then_bytes-Bytes n (some b) none h k = tt
then_bytes-Bytes n (some b) (some bs) h k = (ap suc k.0, (h b refl, k.1))

hex_byte-lt : (a c b : ℕ) → hex_byte a c ≡ some b → b < 256
unfolding hex_byte
hex_byte-lt a c b h = byte_of-lt (strtoll 16 (a ∷ c ∷ 0 ∷ [])) b h

hex_pairs-Bytes : (n : ℕ) (ptr : List ℕ) → Bytes n (hex_pairs n ptr)
unfolding hex_pairs
hex_pairs-Bytes zero ptr = (refl, tt)
hex_pairs-Bytes (suc n) ptr =
    let a = get_or ptr 0 0 in
    let c = get_or ptr 1 0 in
    then_bytes-Bytes n (hex_byte a c) (hex_pairs n (drop 2 ptr)) (hex_byte-lt a c)
      (hex_pairs-Bytes n (drop 2 ptr))

binary_of-Converted :
    (n : ℕ) (o : Option (List ℕ)) → n ≤ 128 → Bytes n o → Converted lit_hex (binary_of o)
binary_of-Converted n none h k = tt
binary_of-Converted n (some bs) h k = ((omega (arith, h, k.0), k.1), tt)

convert_hex-Converted : (text : StrView) → Converted lit_hex (convert_hex text)
unfolding convert_hex hex_all
convert_hex-Converted text =
    let first = hex_byte 48 (get_or text.ptr 0 0) in
    let half = text.len / 2 in
    Converted-if lit_hex (ltb 256 text.len) _ _ (λ _. tt)
      (λ fits. elim (Bool-cases (text.len % 2 == 1)) [
        | inl odd ↦
            let short : suc half ≤ 128 = ground (arith, fits, odd) in
            rw (odd) (
              binary_of-Converted (suc half)
                (then_bytes first (hex_pairs half (tail_bytes text.ptr))) short
                (then_bytes-Bytes half first _ (hex_byte-lt 48 (get_or text.ptr 0 0))
                  (hex_pairs-Bytes half (tail_bytes text.ptr))))
        | inr even ↦ rw (even) (
            binary_of-Converted half (hex_pairs half text.ptr) (ground (arith, fits))
              (hex_pairs-Bytes half text.ptr))
      ])

module _ (strtof : List ℕ → Strtof) (single : (s : List ℕ) → (strtof s).value < 4294967296) where
  float_of-Converted : (r : Strtof) → r.value < 4294967296 → Converted lit_number (float_of r)
  float_of-Converted r h =
      Converted-if lit_number r.out_of_range _ _ (λ _. tt)
        (λ _. Converted-if lit_number (not (get_or r.rest 0 0 == 0)) _ _ (λ _. tt) (λ _. (h, tt)))

  convert_number-Converted : (text : StrView) → Converted lit_number (convert_number strtof text)
  unfolding convert_number convert_float
  convert_number-Converted text =
      Converted-if lit_number (sv_contains text b'.') _ _
        (λ _.
          float_of-Converted (strtof (literal_buffer 32 text)) (single (literal_buffer 32 text)))
        (λ _. convert_int-Converted text)

  -- Where `strtof` answers with patterns of 32 bits and the text is bytes, a literal converts to a value
  -- of its kind: a number to an integer or a float of 32 bits, a string to at most 255 characters, hex
  -- digits to at most 128 bytes. Else the conversion refuses it.
  pub convert_value-Converted :
      (type : LiteralType) (text : StrView)
      → All IsByte text.ptr
      → Converted type (convert_value strtof type text)
  unfolding convert_value
  convert_value-Converted lit_number text h = convert_number-Converted text
  convert_value-Converted lit_string text h = convert_string-Converted text h
  convert_value-Converted lit_hex text h = convert_hex-Converted text
