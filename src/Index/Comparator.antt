-- ===== src/Index/Comparator.antt =====
-- `ComparatorCompoundCtx` of include/maxql/index/comparator.h and `compound_compare` of
-- src/index/comparator.c: keys of several columns are compared column by column.
pub mod Columns
use maxql.Prelude.{ℕ, ◌+◌, ◌%◌, ◌≡◌, refl, List, [], ◌∷◌, All, drop, arith}
use Prim.Native.Nat.Ordering.{lt, eq, gt}
use maxql.Btree.Order.{Key, KeyComparator, IsKeyOrder, flip, lt-eq}

-- A column of the key: its size, and the comparison that is handed the size.
pub record Field : Type 0 where
  pub size : ℕ
  pub comparator : ℕ → KeyComparator

-- The loop from a field on, with the `uint16_t` offset of that field.
unfoldable pub compare_fields : List Field → ℕ → KeyComparator
compare_fields [] offset a b = eq
compare_fields (f ∷ fs) offset a b = elim (f.comparator f.size (drop offset a) (drop offset b)) [
  | lt ↦ lt
  | gt ↦ gt
  | eq ↦ compare_fields fs ((offset + f.size) % 65536) a b
]

unfoldable pub compound_compare : List Field → KeyComparator
compound_compare fields a b = compare_fields fields 0 a b

-- Each field's comparison is an order.
abbrev pub AreOrders : List Field → Type 0
AreOrders fs = All (λ f. IsKeyOrder (f.comparator f.size)) fs

fields_refl : (fs : List Field) (i : ℕ) (a : Key) → AreOrders fs → compare_fields fs i a a ≡ eq
unfolding compare_fields
fields_refl [] i a o = refl
fields_refl (f ∷ fs) i a o =
    ground (arith, o.0.compare_refl (drop i a), fields_refl fs ((i + f.size) % 65536) a o.1)

fields_flip :
    (fs : List Field) (i : ℕ) (a b : Key)
    → AreOrders fs
    → compare_fields fs i b a ≡ flip (compare_fields fs i a b)
unfolding compare_fields
fields_flip [] i a b o = refl
fields_flip (f ∷ fs) i a b o =
    ground
      (arith, o.0.compare_flip (drop i a) (drop i b), fields_flip fs ((i + f.size) % 65536) a b o.1)

fields_lt_trans :
    (fs : List Field) (i : ℕ) (a b c : Key)
    → AreOrders fs
    → compare_fields fs i a b ≡ lt
    → compare_fields fs i b c ≡ lt
    → compare_fields fs i a c ≡ lt
unfolding compare_fields
fields_lt_trans [] i a b c o h k = cc
fields_lt_trans (f ∷ fs) i a b c o h k = ground (
  arith,
  o.0.lt_trans (drop i a) (drop i b) (drop i c),
  o.0.eq_lt (drop i a) (drop i b) (drop i c),
  o.0.eq_trans (drop i a) (drop i b) (drop i c),
  lt-eq _ o.0 (drop i a) (drop i b) (drop i c),
  fields_lt_trans fs ((i + f.size) % 65536) a b c o.1,
)

fields_eq-lt :
    (fs : List Field) (i : ℕ) (a b c : Key)
    → AreOrders fs
    → compare_fields fs i a b ≡ eq
    → compare_fields fs i b c ≡ lt
    → compare_fields fs i a c ≡ lt
unfolding compare_fields
fields_eq-lt [] i a b c o h k = cc
fields_eq-lt (f ∷ fs) i a b c o h k = ground (
  arith,
  o.0.eq_lt (drop i a) (drop i b) (drop i c),
  o.0.eq_trans (drop i a) (drop i b) (drop i c),
  fields_eq-lt fs ((i + f.size) % 65536) a b c o.1,
)

fields_eq_trans :
    (fs : List Field) (i : ℕ) (a b c : Key)
    → AreOrders fs
    → compare_fields fs i a b ≡ eq
    → compare_fields fs i b c ≡ eq
    → compare_fields fs i a c ≡ eq
unfolding compare_fields
fields_eq_trans [] i a b c o h k = refl
fields_eq_trans (f ∷ fs) i a b c o h k = ground (
  arith,
  o.0.eq_trans (drop i a) (drop i b) (drop i c),
  fields_eq_trans fs ((i + f.size) % 65536) a b c o.1,
)

-- Comparison column by column is a total preorder of keys where each column's comparison is one,
-- also where the offset wraps around.
pub compound_compare-IsKeyOrder :
    (fs : List Field) → AreOrders fs → IsKeyOrder (compound_compare fs)
unfolding compound_compare
compound_compare-IsKeyOrder fs o = record {
  compare_refl = λ a. fields_refl fs 0 a o;
  compare_flip = λ a b. fields_flip fs 0 a b o;
  lt_trans = λ a b c. fields_lt_trans fs 0 a b c o;
  eq_lt = λ a b c. fields_eq-lt fs 0 a b c o;
  eq_trans = λ a b c. fields_eq_trans fs 0 a b c o;
}
