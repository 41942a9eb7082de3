-- ===== src/Types/KeyCompare.antt =====
-- src/types/key_compare.c: the comparison of the bytes of one column of an index key. A byte past
-- the end of a list is read as 0.
use maxql.Prelude.{
  ℕ, zero, suc, ◌+◌, ◌-◌, ◌*◌, ◌%◌, ◌≡◌, refl, compare, Ordering, Bool, ◌||◌, get_or, ltb, ◌==◌,
  if◌then◌else◌, arith,
}
use Prim.Native.Nat.Ordering.{lt, eq, gt}
use maxql.Core.StrView.{tail_bytes}
use maxql.Btree.Order.{Key, KeyComparator, IsKeyOrder, flip}

-- The bytes of an `int32_t`, the low one first.
abbrev pub word_at : Key → ℕ
word_at k = get_or k 0 0 + 256 * get_or k 1 0 + 65536 * get_or k 2 0 + 16777216 * get_or k 3 0

-- The integers of 32 bits in order: the pattern of -2 ^ 31 comes first.
abbrev pub biased : ℕ → ℕ
biased w = (w + 2147483648) % 4294967296

-- `(va > vb) - (va < vb)`.
unfoldable pub compare_int_keys : KeyComparator
compare_int_keys a b = compare (biased (word_at a)) (biased (word_at b))

-- `strncmp(a, b, length)`.
unfoldable pub compare_string_keys : ℕ → KeyComparator
compare_string_keys zero a b = eq
compare_string_keys (suc n) a b = elim (compare (get_or a 0 0) (get_or b 0 0)) [
  | lt ↦ lt
  | gt ↦ gt
  | eq ↦ if get_or a 0 0 == 0 then eq else compare_string_keys n (tail_bytes a) (tail_bytes b)
]

-- `memcmp(a, b, length)`.
unfoldable pub compare_binary_keys : ℕ → KeyComparator
compare_binary_keys zero a b = eq
compare_binary_keys (suc n) a b = elim (compare (get_or a 0 0) (get_or b 0 0)) [
  | lt ↦ lt
  | gt ↦ gt
  | eq ↦ compare_binary_keys n (tail_bytes a) (tail_bytes b)
]

-- The place of a `float` among the others, by its bits: a magnitude with a sign. The two zeros have
-- the same place; a pattern above that of infinity is not a number.
abbrev pub float_place : ℕ → ℕ
float_place w = if ltb w 2147483648 then 2147483648 + w else 4294967296 - w

abbrev pub is_nan : ℕ → Bool
is_nan w = ltb 2139095040 (w % 2147483648)

-- `(a > b) - (a < b)` of two floats.
unfoldable pub compare_floats : ℕ → ℕ → Ordering
compare_floats a b = if is_nan a || is_nan b then eq else compare (float_place a) (float_place b)

unfoldable pub compare_float_keys : KeyComparator
unfolding compare_floats
compare_float_keys a b = compare_floats (word_at a) (word_at b)

pub compare_int_keys-IsKeyOrder : IsKeyOrder compare_int_keys
unfolding compare_int_keys
compare_int_keys-IsKeyOrder = ground arith

string_refl : (n : ℕ) (a : Key) → compare_string_keys n a a ≡ eq
unfolding compare_string_keys
string_refl zero a = refl
string_refl (suc n) a = ground (arith, string_refl n (tail_bytes a))

string_flip : (n : ℕ) (a b : Key) → compare_string_keys n b a ≡ flip (compare_string_keys n a b)
unfolding compare_string_keys
string_flip zero a b = refl
string_flip (suc n) a b = ground (arith, string_flip n (tail_bytes a) (tail_bytes b))

string_lt_trans :
    (n : ℕ) (a b c : Key)
    → compare_string_keys n a b ≡ lt
    → compare_string_keys n b c ≡ lt
    → compare_string_keys n a c ≡ lt
unfolding compare_string_keys
string_lt_trans zero a b c h k = cc
string_lt_trans (suc n) a b c h k =
    ground (arith, string_lt_trans n (tail_bytes a) (tail_bytes b) (tail_bytes c))

string_eq-lt :
    (n : ℕ) (a b c : Key)
    → compare_string_keys n a b ≡ eq
    → compare_string_keys n b c ≡ lt
    → compare_string_keys n a c ≡ lt
unfolding compare_string_keys
string_eq-lt zero a b c h k = cc
string_eq-lt (suc n) a b c h k =
    ground (arith, string_eq-lt n (tail_bytes a) (tail_bytes b) (tail_bytes c))

string_eq_trans :
    (n : ℕ) (a b c : Key)
    → compare_string_keys n a b ≡ eq
    → compare_string_keys n b c ≡ eq
    → compare_string_keys n a c ≡ eq
unfolding compare_string_keys
string_eq_trans zero a b c h k = refl
string_eq_trans (suc n) a b c h k =
    ground (arith, string_eq_trans n (tail_bytes a) (tail_bytes b) (tail_bytes c))

pub compare_string_keys-IsKeyOrder : (n : ℕ) → IsKeyOrder (compare_string_keys n)
compare_string_keys-IsKeyOrder n = record {
  compare_refl = string_refl n;
  compare_flip = string_flip n;
  lt_trans = string_lt_trans n;
  eq_lt = string_eq-lt n;
  eq_trans = string_eq_trans n;
}

binary_refl : (n : ℕ) (a : Key) → compare_binary_keys n a a ≡ eq
unfolding compare_binary_keys
binary_refl zero a = refl
binary_refl (suc n) a = ground (arith, binary_refl n (tail_bytes a))

binary_flip : (n : ℕ) (a b : Key) → compare_binary_keys n b a ≡ flip (compare_binary_keys n a b)
unfolding compare_binary_keys
binary_flip zero a b = refl
binary_flip (suc n) a b = ground (arith, binary_flip n (tail_bytes a) (tail_bytes b))

binary_lt_trans :
    (n : ℕ) (a b c : Key)
    → compare_binary_keys n a b ≡ lt
    → compare_binary_keys n b c ≡ lt
    → compare_binary_keys n a c ≡ lt
unfolding compare_binary_keys
binary_lt_trans zero a b c h k = cc
binary_lt_trans (suc n) a b c h k =
    ground (arith, binary_lt_trans n (tail_bytes a) (tail_bytes b) (tail_bytes c))

binary_eq-lt :
    (n : ℕ) (a b c : Key)
    → compare_binary_keys n a b ≡ eq
    → compare_binary_keys n b c ≡ lt
    → compare_binary_keys n a c ≡ lt
unfolding compare_binary_keys
binary_eq-lt zero a b c h k = cc
binary_eq-lt (suc n) a b c h k =
    ground (arith, binary_eq-lt n (tail_bytes a) (tail_bytes b) (tail_bytes c))

binary_eq_trans :
    (n : ℕ) (a b c : Key)
    → compare_binary_keys n a b ≡ eq
    → compare_binary_keys n b c ≡ eq
    → compare_binary_keys n a c ≡ eq
unfolding compare_binary_keys
binary_eq_trans zero a b c h k = refl
binary_eq_trans (suc n) a b c h k =
    ground (arith, binary_eq_trans n (tail_bytes a) (tail_bytes b) (tail_bytes c))

pub compare_binary_keys-IsKeyOrder : (n : ℕ) → IsKeyOrder (compare_binary_keys n)
compare_binary_keys-IsKeyOrder n = record {
  compare_refl = binary_refl n;
  compare_flip = binary_flip n;
  lt_trans = binary_lt_trans n;
  eq_lt = binary_eq-lt n;
  eq_trans = binary_eq_trans n;
}
