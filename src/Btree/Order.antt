-- ===== src/Btree/Order.antt =====
-- `KeyComparator` of include/maxql/types/key_compare.h: the sign of the C comparison, and the laws
-- that the tree relies on.
use maxql.Prelude.{ℕ, ◌≡◌, List, Ordering, arith}
use Prim.Native.Nat.Ordering.{lt, eq, gt}

-- The bytes of a key.
abbrev pub Key : Type 0
Key = List ℕ

abbrev pub KeyComparator : Type 0
KeyComparator = Key → Key → Ordering

abbrev pub flip : Ordering → Ordering
flip lt = gt
flip eq = eq
flip gt = lt

-- A total preorder; keys that compare equal need not be the same bytes.
pub record IsKeyOrder (compare : KeyComparator) : Type 0 where
  pub compare_refl : (a : Key) → compare a a ≡ eq
  pub compare_flip : (a b : Key) → compare b a ≡ flip (compare a b)
  pub lt_trans : (a b c : Key) → compare a b ≡ lt → compare b c ≡ lt → compare a c ≡ lt
  pub eq_lt : (a b c : Key) → compare a b ≡ eq → compare b c ≡ lt → compare a c ≡ lt
  pub eq_trans : (a b c : Key) → compare a b ≡ eq → compare b c ≡ eq → compare a c ≡ eq

module _ (compare : KeyComparator) (o : IsKeyOrder compare) where
  pub lt_of_gt : (a b : Key) → compare a b ≡ gt → compare b a ≡ lt
  lt_of_gt a b h = ground (arith, o.compare_flip a b)

  pub gt_of_lt : (a b : Key) → compare a b ≡ lt → compare b a ≡ gt
  gt_of_lt a b h = ground (arith, o.compare_flip a b)

  pub eq_symm : (a b : Key) → compare a b ≡ eq → compare b a ≡ eq
  eq_symm a b h = ground (arith, o.compare_flip a b)

  pub lt-eq : (a b c : Key) → compare a b ≡ lt → compare b c ≡ eq → compare a c ≡ lt
  lt-eq a b c h k = lt_of_gt c a (
      ground (
        arith,
        o.compare_flip a c,
        o.compare_flip b c,
        o.eq_lt c b a,
        o.eq_trans a c b,
        o.lt_trans c a b,
        o.compare_flip a b,
        o.compare_flip c b,
      ))
