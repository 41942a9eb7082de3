-- ===== src/Types/Converter/RoundTrip.antt =====
-- What src/types/formatter.c prints of a value, read by src/types/converter.c.
use maxql.Prelude.{
  ℕ, suc, ◌+◌, ◌-◌, ◌*◌, ◌/◌, ◌%◌, ◌≤◌, ◌<◌, List, [], ◌∷◌, ◌++◌, Bool, true, false, some, ◌≡◌,
  refl, ap, ◌∙◌, arith, Bool-cases, inl, inr, length, get_or, ltb, ◌==◌, All, if◌then◌else◌,
}
use maxql.Core.StrView.{take_bytes}
use maxql.Types.Value.{value_int, value_binary}
use maxql.Types.Converter.{
  convert_ok, convert_out_of_range, is_space, skip_spaces, read_digits, Number, digit_value,
  read_number, read_signed, strtoll, literal_buffer, int_of, convert_int, then_bytes, hex_byte,
  hex_pairs, hex_all, convert_hex,
}
use maxql.Types.Mapper.RoundTrip.{take_bytes-append}
use maxql.Types.Converter.Digits.{
  IsDigit, read_digits-print_number, length-print_number, print_number-IsDigit,
}
use maxql.Types.Formatter.{print_number, print_int, hex_digit, print_bytes}

literal_buffer-append :
    (size : ℕ) (xs rest : List ℕ)
    → length xs < size
    → literal_buffer size (record { ptr = xs ++ rest; len = length xs }) ≡ xs ++ 0 ∷ []
literal_buffer-append size xs rest h =
    ap (λ n. take_bytes n (xs ++ rest) ++ 0 ∷ []) (omega (arith, h))
    ∙ ap (λ t. t ++ 0 ∷ []) (take_bytes-append xs rest (length xs) refl)

skip_none : (s : List ℕ) → is_space (get_or s 0 0) ≡ false → skip_spaces s ≡ s
unfolding skip_spaces
skip_none [] h = refl
skip_none (c ∷ s) h = rw (h) refl

signed_number : Bool → ℕ × List ℕ → Number
signed_number negative p = record { negative = negative; magnitude = p.0; rest = p.1 }

digit_value-IsDigit : (c : ℕ) → IsDigit c → ltb (digit_value c) 10 ≡ true
digit_value-IsDigit c h = ground (arith, h)

read_number-digits :
    (negative : Bool) (digits s : List ℕ)
    → IsDigit (get_or digits 0 0)
    → read_number negative 10 digits s ≡ signed_number negative (read_digits 10 0 digits)
unfolding read_number signed_number
read_number-digits negative digits s h = rw (digit_value-IsDigit (get_or digits 0 0) h) refl

strtoll_digits :
    (s : List ℕ) → IsDigit (get_or s 0 0) → strtoll 10 s ≡ signed_number false (read_digits 10 0 s)
unfolding strtoll
strtoll_digits [] h = absurd (omega arith)
strtoll_digits (c ∷ s) h =
    let minus : (c == 45) ≡ false = ground (arith, h) in
    let plus : (c == 43) ≡ false = ground (arith, h) in
    ap (λ t. read_signed 10 t (c ∷ s)) (skip_none (c ∷ s) (ground (arith, h)))
    ∙ rw (minus, plus) (read_number-digits false (c ∷ s) (c ∷ s) h)

strtoll_minus :
    (s : List ℕ)
    → IsDigit (get_or s 0 0)
    → strtoll 10 (45 ∷ s) ≡ signed_number true (read_digits 10 0 s)
unfolding strtoll
strtoll_minus s h =
    ap (λ t. read_signed 10 t (45 ∷ s)) (skip_none (45 ∷ s) refl)
    ∙ read_number-digits true s (45 ∷ s) h

convert_int-plain :
    (w : ℕ) (rest : List ℕ)
    → w < 2147483648
    → convert_int (record { ptr = print_number w ++ rest; len = length (print_number w) })
      ≡ convert_ok (value_int w)
unfolding convert_int signed_number
convert_int-plain w rest h =
    ap (λ b. int_of (strtoll 10 b))
      (literal_buffer-append 16 (print_number w) rest (omega (arith, length-print_number w)))
    ∙ ap int_of (
        strtoll_digits (print_number w ++ 0 ∷ []) (print_number-IsDigit w (0 ∷ []))
        ∙ ap (signed_number false) (read_digits-print_number w (omega arith)))
    ∙ ground (arith, h)

convert_int-minus :
    (w : ℕ) (rest : List ℕ)
    → 2147483648 ≤ w
    → w < 4294967296
    → convert_int (record {
      ptr = 45 ∷ print_number (4294967296 - w) ++ rest;
      len = suc (length (print_number (4294967296 - w)));
    })
      ≡ convert_ok (value_int w)
unfolding convert_int signed_number
convert_int-minus w rest h k =
    let n = 4294967296 - w in
    ap (λ b. int_of (strtoll 10 b))
      (literal_buffer-append 16 (45 ∷ print_number n) rest (omega (arith, length-print_number n)))
    ∙ ap int_of (
        strtoll_minus (print_number n ++ 0 ∷ []) (print_number-IsDigit n (0 ∷ []))
        ∙ ap (signed_number true) (read_digits-print_number n (omega arith)))
    ∙ ground (arith, h, k)

-- What is made of a number that is read to its end.
int_of-signed :
    (negative : Bool) (n : ℕ)
    → n < 4294967296
    → int_of (signed_number negative (n, 0 ∷ [])) ≡ (
        if ltb (if negative then 2147483648 else 2147483647) n
        then convert_out_of_range
        else convert_ok (value_int (if negative then (4294967296 - n) % 4294967296 else n)))
unfolding signed_number
int_of-signed true n h = ground (arith, h)
int_of-signed false n h = ground (arith, h)

-- The digits of a number below 2 ^ 32, in front of any other text, are read by `convert_int` as that
-- number if it is at most 2 ^ 31 - 1, and are out of range if not. Behind a minus they are read as the
-- pattern of its opposite if it is at most 2 ^ 31, and are out of range if not.
pub convert_int-print_number :
    (n : ℕ) (rest : List ℕ)
    → n < 4294967296
    → (convert_int (record { ptr = print_number n ++ rest; len = length (print_number n) })
        ≡ (if ltb 2147483647 n then convert_out_of_range else convert_ok (value_int n)))
      × (convert_int
            (record { ptr = 45 ∷ print_number n ++ rest; len = suc (length (print_number n)) })
          ≡ (if ltb 2147483648 n
              then convert_out_of_range
              else convert_ok (value_int ((4294967296 - n) % 4294967296))))
unfolding convert_int
convert_int-print_number n rest h = (
  ap (λ b. int_of (strtoll 10 b))
        (literal_buffer-append 16 (print_number n) rest (omega (arith, length-print_number n)))
      ∙ ap int_of (
          strtoll_digits (print_number n ++ 0 ∷ []) (print_number-IsDigit n (0 ∷ []))
          ∙ ap (signed_number false) (read_digits-print_number n h))
      ∙ int_of-signed false n h,
  ap (λ b. int_of (strtoll 10 b))
        (literal_buffer-append 16 (45 ∷ print_number n) rest (omega (arith, length-print_number n)))
      ∙ ap int_of (
          strtoll_minus (print_number n ++ 0 ∷ []) (print_number-IsDigit n (0 ∷ []))
          ∙ ap (signed_number true) (read_digits-print_number n h))
      ∙ int_of-signed true n h,
)

digit_value-hex_digit : (d : ℕ) → d < 16 → digit_value (hex_digit d) ≡ d
digit_value-hex_digit d h = ground (arith, h)

hex_byte-hex_digit :
    (a b : ℕ) → a < 16 → b < 16 → hex_byte (hex_digit a) (hex_digit b) ≡ some (a * 16 + b)
unfolding hex_byte strtoll skip_spaces read_digits read_number
hex_byte-hex_digit a b ha hb =
    ground (arith, digit_value-hex_digit a ha, digit_value-hex_digit b hb)

hex_byte-byte : (b : ℕ) → b < 256 → hex_byte (hex_digit (b / 16 % 16)) (hex_digit (b % 16)) ≡ some b
hex_byte-byte b h =
    hex_byte-hex_digit (b / 16 % 16) (b % 16) (omega arith) (omega arith) ∙ ap some (omega arith)

hex_pairs-print_bytes :
    (bs rest : List ℕ)
    → All (λ b. b < 256) bs
    → hex_pairs (length bs) (print_bytes bs ++ rest) ≡ some bs
unfolding hex_pairs print_bytes
hex_pairs-print_bytes [] rest h = refl
hex_pairs-print_bytes (b ∷ bs) rest h =
    ap (λ o. then_bytes o (hex_pairs (length bs) (print_bytes bs ++ rest))) (hex_byte-byte b h.0)
    ∙ ap (then_bytes (some b)) (hex_pairs-print_bytes bs rest h.1)

length-print_bytes : (bs : List ℕ) → length (print_bytes bs) ≡ 2 * length bs
unfolding print_bytes
length-print_bytes [] = refl
length-print_bytes (b ∷ bs) = omega (arith, length-print_bytes bs)

hex_all-even : (n : ℕ) (ptr : List ℕ) → hex_all (2 * n) ptr ≡ hex_pairs n ptr
unfolding hex_all
hex_all-even n ptr =
    let even : ((2 * n) % 2 == 1) ≡ false = ground arith in
    rw (even) (ap (λ m. hex_pairs m ptr) (omega arith))

-- The text that `format_int` makes of a pattern of 32 bits, in front of any other text, is read by
-- `convert_int` as that pattern.
pub convert_int-print_int :
    (w : ℕ) (rest : List ℕ)
    → w < 4294967296
    → convert_int (record { ptr = print_int w ++ rest; len = length (print_int w) })
      ≡ convert_ok (value_int w)
unfolding print_int
convert_int-print_int w rest h = elim (Bool-cases (ltb w 2147483648)) [
  | inl small ↦ rw (small) (convert_int-plain w rest (ground (arith, small)))
  | inr big ↦ rw (big) (convert_int-minus w rest (ground (arith, big)) h)
]

-- The digits that `format_binary` makes of at most 128 bytes, in front of any other text, are read by
-- `convert_hex` as those bytes.
pub convert_hex-print_bytes :
    (bs rest : List ℕ)
    → All (λ b. b < 256) bs
    → length bs ≤ 128
    → convert_hex (record { ptr = print_bytes bs ++ rest; len = length (print_bytes bs) })
      ≡ convert_ok (value_binary bs)
unfolding convert_hex
convert_hex-print_bytes bs rest h k =
    let short : ltb 256 (length (print_bytes bs)) ≡ false =
      ground (arith, length-print_bytes bs, k) in
    let read : hex_all (length (print_bytes bs)) (print_bytes bs ++ rest) ≡ some bs =
      ap (λ n. hex_all n (print_bytes bs ++ rest)) (length-print_bytes bs)
      ∙ hex_all-even (length bs) (print_bytes bs ++ rest)
      ∙ hex_pairs-print_bytes bs rest h in
    rw (short, read) refl
