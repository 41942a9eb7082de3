-- ===== src/Index/Keys/Equal.antt =====
-- Values that src/types/comparator.c compares equal make the same bytes of a key in src/index/index.c.
use maxql.Prelude.{
  ℕ, zero, suc, ◌-◌, ◌%◌, ◌/◌, ◌≤◌, List, [], ◌∷◌, ◌++◌, Option, some, ◌≡◌, refl, ap, ◌∙◌, arith,
  length, get_or, min, compare, replicate,
}
use Prim.Native.Nat.Ordering.{eq}
use maxql.Core.StrView.{strlen, tail_bytes, take_bytes}
use maxql.Types.KeyCompare.{biased, compare_binary_keys}
use maxql.Types.Compare.{strcmp, compare_bytes, compare_value}
use maxql.Types.Value.{
  DataValue, value_null, value_int, value_string, value_binary, value_float, word_bytes,
}
use maxql.Schema.Table.{IndexPart}
use maxql.Index.Keys.{data_value_raw_ptr, part_bytes}

-- A value that is there and not a float: two floats can compare equal with other bits.
abbrev pub IsBitwise : DataValue → Type 0
IsBitwise (value_float w) = ⊥
IsBitwise value_null = ⊥
IsBitwise _ = Unit

eq_of_compare : (a b : ℕ) → compare a b ≡ eq → a ≡ b
eq_of_compare a b h = ground arith

cons-eq : {x y : ℕ} {xs ys : List ℕ} → x ≡ y → xs ≡ ys → x ∷ xs ≡ y ∷ ys
cons-eq {y = y} {xs = xs} h k = ap (λ t. t ∷ xs) h ∙ ap (λ t. y ∷ t) k

word_bytes-eq : (v w : ℕ) → compare (biased v) (biased w) ≡ eq → word_bytes v ≡ word_bytes w
word_bytes-eq v w h =
    let places = eq_of_compare (biased v) (biased w) h in
    let low : v % 4294967296 ≡ w % 4294967296 = omega (arith, places) in
    let a : v % 256 ≡ w % 256 = omega arith in
    let b : v / 256 % 256 ≡ w / 256 % 256 = omega arith in
    let c : v / 65536 % 256 ≡ w / 65536 % 256 = omega arith in
    let d : v / 16777216 % 256 ≡ w / 16777216 % 256 = omega arith in cc

strcmp-strlen : (a b : List ℕ) → strcmp a b ≡ eq → strlen a ≡ strlen b
unfolding strcmp
strcmp-strlen [] [] h = refl
strcmp-strlen [] (y ∷ b) h = ground arith
strcmp-strlen (x ∷ a) [] h = ground arith
strcmp-strlen (x ∷ a) (y ∷ b) h = ground (arith, strcmp-strlen a b)

strcmp-head : (x : ℕ) (a b : List ℕ) → strcmp (x ∷ a) b ≡ eq → x ≡ get_or b 0 0
unfolding strcmp
strcmp-head x a b h = ground arith

strcmp-tail :
    (x : ℕ) (a b : List ℕ)
    → 1 ≤ strlen (x ∷ a)
    → strcmp (x ∷ a) b ≡ eq
    → (strcmp a (tail_bytes b) ≡ eq) × (strlen (x ∷ a) ≡ suc (strlen a))
unfolding strcmp
strcmp-tail x a b k h = ground arith

strcmp-take_bytes :
    (a b : List ℕ) (n : ℕ) → strcmp a b ≡ eq → n ≤ strlen a → take_bytes n a ≡ take_bytes n b
unfolding strcmp
strcmp-take_bytes a b zero h k = refl
strcmp-take_bytes [] b (suc n) h k = absurd (omega arith)
strcmp-take_bytes (x ∷ a) b (suc n) h k =
    let (rest, longer) = strcmp-tail x a b (omega arith) h in
    cons-eq (strcmp-head x a b h) (strcmp-take_bytes a (tail_bytes b) n rest (omega arith))

binary-uncons :
    (n : ℕ) (a b : List ℕ)
    → compare_binary_keys (suc n) a b ≡ eq
    → (get_or a 0 0 ≡ get_or b 0 0) × (compare_binary_keys n (tail_bytes a) (tail_bytes b) ≡ eq)
unfolding compare_binary_keys
binary-uncons n a b h = ground arith

binary-take_bytes :
    (n : ℕ) (a b : List ℕ) → compare_binary_keys n a b ≡ eq → take_bytes n a ≡ take_bytes n b
unfolding compare_binary_keys
binary-take_bytes zero a b h = refl
binary-take_bytes (suc n) a b h =
    let (first, rest) = binary-uncons n a b h in
    cons-eq first (binary-take_bytes n (tail_bytes a) (tail_bytes b) rest)

compare_bytes-split :
    (a b : List ℕ)
    → compare_bytes a b ≡ eq
    → (length a ≡ length b) × (compare_binary_keys (length a) a b ≡ eq)
unfolding compare_bytes
compare_bytes-split a b h = ground arith

take_bytes-le :
    (n m : ℕ) (a b : List ℕ)
    → n ≤ m
    → take_bytes m a ≡ take_bytes m b
    → take_bytes n a ≡ take_bytes n b
take_bytes-le zero m a b k h = refl
take_bytes-le (suc n) zero a b k h = absurd (omega arith)
take_bytes-le (suc n) (suc m) a b k h =
    cons-eq (ap (λ t. get_or t 0 0) h)
      (take_bytes-le n m (tail_bytes a) (tail_bytes b) (omega arith) (ap tail_bytes h))

-- The bytes of a part, cut to it or filled up.
abbrev filled : ℕ → List ℕ → ℕ → Option (List ℕ)
filled n raw size = some (take_bytes (min size n) raw ++ replicate (n - min size n) 0)

filled-eq :
    (n : ℕ) (a b : List ℕ) (i j : ℕ)
    → i ≡ j
    → take_bytes (min i n) a ≡ take_bytes (min i n) b
    → filled n a i ≡ filled n b j
filled-eq n a b i j h k =
    ap (λ t. some (t ++ replicate (n - min i n) 0)) k ∙ ap (λ t. filled n b t) h

-- Equal values have the same bytes in a part.
pub part_bytes-eq :
    (p : IndexPart) (v w : DataValue)
    → IsBitwise w
    → compare_value v w ≡ some eq
    → part_bytes p v ≡ part_bytes p w
unfolding compare_value part_bytes data_value_raw_ptr
part_bytes-eq p (value_int v) (value_int w) t h =
    let e : compare (biased v) (biased w) ≡ eq = cc in
    ap (λ t. filled p.part_len t p.part_len) (word_bytes-eq v w e)
part_bytes-eq p (value_string v) (value_string w) t h =
    let e : strcmp v w ≡ eq = cc in
    filled-eq p.part_len v w (strlen v) (strlen w) (strcmp-strlen v w e)
      (strcmp-take_bytes v w (min (strlen v) p.part_len) e (omega arith))
part_bytes-eq p (value_binary v) (value_binary w) t h =
    let e : compare_bytes v w ≡ eq = cc in
    let (same, bytes) = compare_bytes-split v w e in
    filled-eq p.part_len v w (length v) (length w) same (
      take_bytes-le (min (length v) p.part_len) (length v) v w (omega arith)
        (binary-take_bytes (length v) v w bytes))
part_bytes-eq p (value_float v) (value_float w) t h = absurd t
part_bytes-eq p _ _ t h = cc
