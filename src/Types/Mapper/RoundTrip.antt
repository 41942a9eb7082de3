-- ===== src/Types/Mapper/RoundTrip.antt =====
-- What src/types/mapper.c writes for a value is read back as the value that the column stores.
use maxql.Prelude.{
  ℕ, zero, suc, ◌+◌, ◌-◌, ◌%◌, ◌≤◌, ◌<◌, List, [], ◌∷◌, ◌++◌, some, ◌≡◌, refl, sym, ap, ◌∙◌, arith,
  length, replicate, reverse, All, append-nil, length-append, length-replicate, le→ltb,
  reverse-cons, reverse-append,
}
use maxql.Core.StrView.{strlen, tail_bytes, take_bytes}
use maxql.Types.KeyCompare.{word_at}
use maxql.Types.Value.{
  ColumnType, type_int, type_varchar, type_char, type_binary, type_float, DataValue, value_null,
  value_int, value_string, value_binary, value_float, word_bytes,
}
use maxql.Types.Mapper.{
  type_mapping, trim_spaces, drop_spaces, serialize_varchar, serialize_char, serialize_binary,
}

-- The bytes of a C string.
abbrev pub IsCharacter : ℕ → Type 0
IsCharacter c = (1 ≤ c) × (c ≤ 255)

-- A value that a column of a type and a length can hold.
abbrev pub Fits : ColumnType → ℕ → DataValue → Type 0
Fits type_int n (value_int w) = (n ≡ 4) × (w < 4294967296)
Fits type_float n (value_float w) = (n ≡ 4) × (w < 4294967296)
Fits type_varchar n (value_string s) = (length s ≤ n) × (n ≤ 255) × All IsCharacter s
Fits type_char n (value_string s) = (length s ≤ n) × (n ≤ 255) × All IsCharacter s
Fits type_binary n (value_binary b) = (length b ≤ n) × (n ≤ 255)
Fits _ n _ = ⊥

-- The value as it comes back: a string of fixed length without its last spaces, bytes filled up.
abbrev pub stored : ColumnType → ℕ → DataValue → DataValue
stored type_char n (value_string s) = value_string (trim_spaces s)
stored type_binary n (value_binary b) = value_binary (b ++ replicate (n - length b) 0)
stored _ n v = v

pub strlen-length : (s : List ℕ) → All IsCharacter s → strlen s ≡ length s
strlen-length [] h = refl
strlen-length (c ∷ s) h = ground (arith, strlen-length s h.1)

pub take_bytes-append : (xs ys : List ℕ) (n : ℕ) → n ≡ length xs → take_bytes n (xs ++ ys) ≡ xs
take_bytes-append [] ys zero h = refl
take_bytes-append [] ys (suc n) h = absurd (omega arith)
take_bytes-append (x ∷ xs) ys zero h = absurd (omega arith)
take_bytes-append (x ∷ xs) ys (suc n) h = ap (λ t. x ∷ t) (take_bytes-append xs ys n (omega arith))

pub take_bytes-length : (xs : List ℕ) → take_bytes (length xs) xs ≡ xs
take_bytes-length xs =
    ap (take_bytes (length xs)) (sym (append-nil xs)) ∙ take_bytes-append xs [] (length xs) refl

pub length-take_bytes : (n : ℕ) (xs : List ℕ) → length (take_bytes n xs) ≡ n
length-take_bytes zero xs = refl
length-take_bytes (suc n) xs = ap suc (length-take_bytes n (tail_bytes xs))

drop_spaces-replicate : (n : ℕ) (xs : List ℕ) → drop_spaces (replicate n 32 ++ xs) ≡ drop_spaces xs
drop_spaces-replicate zero xs = refl
drop_spaces-replicate (suc n) xs = drop_spaces-replicate n xs

replicate-append : (n : ℕ) (x : ℕ) (xs : List ℕ) → replicate n x ++ x ∷ xs ≡ x ∷ replicate n x ++ xs
replicate-append zero x xs = refl
replicate-append (suc n) x xs = ap (λ t. x ∷ t) (replicate-append n x xs)

reverse-replicate : (n x : ℕ) → reverse (replicate n x) ≡ replicate n x
reverse-replicate zero x = refl
reverse-replicate (suc n) x =
    reverse-cons x (replicate n x)
    ∙ ap (λ t. t ++ x ∷ []) (reverse-replicate n x)
    ∙ replicate-append n x []
    ∙ ap (λ t. x ∷ t) (append-nil (replicate n x))

-- The padding goes with the spaces that the string ends in.
trim_spaces-replicate : (s : List ℕ) (n : ℕ) → trim_spaces (s ++ replicate n 32) ≡ trim_spaces s
trim_spaces-replicate s n =
    ap (λ t. reverse (drop_spaces t))
      (reverse-append s (replicate n 32) ∙ ap (λ t. t ++ reverse s) (reverse-replicate n 32))
    ∙ ap reverse (drop_spaces-replicate n (reverse s))

-- What a column writes for a value, and that it reads the value as stored from it.
pub record Written (c : ColumnType) (n : ℕ) (v : DataValue) : Type 0 where
  pub bytes : List ℕ
  pub made : (type_mapping c).serialize v n ≡ some bytes
  pub short : length bytes ≤ 256
  pub back :
      (rest : List ℕ)
      → (type_mapping c).deserialize (bytes ++ rest) n ≡ (stored c n v, length bytes)

word_at-word_bytes : (w : ℕ) → w < 4294967296 → word_at (take_bytes 4 (word_bytes w)) ≡ w
word_at-word_bytes w h = omega arith

drop_spaces-le : (xs : List ℕ) → length (drop_spaces xs) ≤ length xs
drop_spaces-le [] = omega arith
drop_spaces-le (x ∷ xs) = ground (arith, drop_spaces-le xs)

Written-varchar :
    (n : ℕ) (s : List ℕ)
    → Fits type_varchar n (value_string s)
    → Written type_varchar n (value_string s)
unfolding type_mapping
Written-varchar n s h =
    let e : strlen s % 256 ≡ length s = omega (arith, strlen-length s h.2, h.0, h.1) in
    record {
      bytes = length s ∷ s;
      made = rw (serialize_varchar, e) (ap (λ t. some (length s ∷ t)) (take_bytes-length s));
      short = omega (arith, h.0, h.1);
      back = λ rest.
          ap (λ t. (value_string t, length s + 1)) (take_bytes-append s rest (length s) refl)
          ∙ ap (λ t. (value_string s, t)) (omega arith);
    }

Written-char :
    (n : ℕ) (s : List ℕ) → Fits type_char n (value_string s) → Written type_char n (value_string s)
unfolding type_mapping
Written-char n s h =
    let e : strlen s % 256 ≡ length s = omega (arith, strlen-length s h.2, h.0, h.1) in
    let size : length (s ++ replicate (n - length s) 32) ≡ n = omega (
      arith,
      length-append s (replicate (n - length s) 32),
      length-replicate {A = ℕ} (n - length s) 32,
      h.0,
    ) in
    record {
      bytes = s ++ replicate (n - length s) 32;
      made =
          rw (serialize_char, e, le→ltb n (length s) h.0)
            (ap (λ t. some (t ++ replicate (n - length s) 32)) (take_bytes-length s));
      short = omega (arith, h.1);
      back = λ rest.
          ap (λ t. (value_string (trim_spaces t), n))
            (take_bytes-append (s ++ replicate (n - length s) 32) rest n (sym size))
          ∙ ap (λ t. (value_string t, n)) (trim_spaces-replicate s (n - length s))
          ∙ ap (λ t. (value_string (trim_spaces s), t)) (sym size);
    }

Written-binary :
    (n : ℕ) (b : List ℕ)
    → Fits type_binary n (value_binary b)
    → Written type_binary n (value_binary b)
unfolding type_mapping
Written-binary n b h =
    let bytes = b ++ replicate (n - length b) 0 in
    let size : length bytes ≡ n = omega (
      arith,
      length-append b (replicate (n - length b) 0),
      length-replicate {A = ℕ} (n - length b) 0,
      h.0,
    ) in
    record {
      bytes = bytes;
      made = rw (serialize_binary, le→ltb n (length b) h.0) refl;
      short = omega (arith, h.1);
      back = λ rest.
          ap (λ t. (value_binary t, n)) (take_bytes-append bytes rest n (sym size))
          ∙ ap (λ t. (value_binary bytes, t)) (sym size);
    }

Written-int : (w : ℕ) → w < 4294967296 → Written type_int 4 (value_int w)
unfolding type_mapping
Written-int w h = record {
  bytes = word_bytes w;
  made = refl;
  short = omega arith;
  back = λ rest. ap (λ t. (value_int t, 4)) (word_at-word_bytes w h);
}

Written-float : (w : ℕ) → w < 4294967296 → Written type_float 4 (value_float w)
unfolding type_mapping
Written-float w h = record {
  bytes = word_bytes w;
  made = refl;
  short = omega arith;
  back = λ rest. ap (λ t. (value_float t, 4)) (word_at-word_bytes w h);
}

-- A value that fits a column's type and length is written in at most 256 bytes, from which the
-- column reads the value back, whatever follows: without the last spaces for `char`, filled up with
-- zeros to the length for `binary`, and as it is for the others.
pub serialize-Written : (c : ColumnType) (n : ℕ) (v : DataValue) → Fits c n v → Written c n v
serialize-Written type_int n (value_int w) h = rw (h.0) (Written-int w h.1)
serialize-Written type_int n value_null h = absurd h
serialize-Written type_int n (value_string s) h = absurd h
serialize-Written type_int n (value_binary b) h = absurd h
serialize-Written type_int n (value_float w) h = absurd h
serialize-Written type_float n (value_float w) h = rw (h.0) (Written-float w h.1)
serialize-Written type_float n value_null h = absurd h
serialize-Written type_float n (value_string s) h = absurd h
serialize-Written type_float n (value_binary b) h = absurd h
serialize-Written type_float n (value_int w) h = absurd h
serialize-Written type_varchar n (value_string s) h = Written-varchar n s h
serialize-Written type_varchar n value_null h = absurd h
serialize-Written type_varchar n (value_int w) h = absurd h
serialize-Written type_varchar n (value_binary b) h = absurd h
serialize-Written type_varchar n (value_float w) h = absurd h
serialize-Written type_char n (value_string s) h = Written-char n s h
serialize-Written type_char n value_null h = absurd h
serialize-Written type_char n (value_int w) h = absurd h
serialize-Written type_char n (value_binary b) h = absurd h
serialize-Written type_char n (value_float w) h = absurd h
serialize-Written type_binary n (value_binary b) h = Written-binary n b h
serialize-Written type_binary n value_null h = absurd h
serialize-Written type_binary n (value_int w) h = absurd h
serialize-Written type_binary n (value_string s) h = absurd h
serialize-Written type_binary n (value_float w) h = absurd h
