-- ===== src/Index/Comparator/Columns.antt =====
-- `compound_compare` of src/index/comparator.c on keys that are made of the bytes of their columns.
use maxql.Prelude.{
  ℕ, zero, suc, ◌+◌, ◌%◌, ◌<◌, List, [], ◌∷◌, ◌++◌, ◌≡◌, refl, sym, ap, ◌∙◌, arith, All, Ordering,
  append_assoc, length, length-append, drop, get_or,
}
use Prim.Native.Nat.Ordering.{lt, eq, gt}
use maxql.Btree.Order.{Key}
use maxql.Types.KeyCompare.{compare_int_keys}
use maxql.Index.Comparator.{Field, compare_fields, compound_compare}

-- A column's comparison reads as many bytes of each key as the column has.
abbrev pub ReadsOwn : Field → Type 0
ReadsOwn f =
    (a b x y : Key)
    → length a ≡ f.size
    → length b ≡ f.size
    → f.comparator f.size (a ++ x) (b ++ y) ≡ f.comparator f.size a b

-- The bytes of each column, as many as it has.
abbrev pub AreParts : List Field → List Key → Type 0
AreParts [] [] = Unit
AreParts [] (a ∷ as') = ⊥
AreParts (f ∷ fs) [] = ⊥
AreParts (f ∷ fs) (a ∷ as') = (length a ≡ f.size) × AreParts fs as'

-- The columns one behind the other.
abbrev pub joined : List Key → Key
joined [] = []
joined (a ∷ as') = a ++ joined as'

abbrev pub total_size : List Field → ℕ
total_size [] = 0
total_size (f ∷ fs) = f.size + total_size fs

-- The first column that differs decides.
abbrev pub compare_columns : List Field → List Key → List Key → Ordering
compare_columns (f ∷ fs) (a ∷ as') (b ∷ bs) = elim (f.comparator f.size a b) [
  | lt ↦ lt
  | gt ↦ gt
  | eq ↦ compare_columns fs as' bs
]
compare_columns _ _ _ = eq

drop-append : (p x : Key) (n : ℕ) → length p ≡ n → drop n (p ++ x) ≡ x
drop-append [] x zero h = refl
drop-append [] x (suc n) h = absurd (omega arith)
drop-append (c ∷ p) x zero h = absurd (omega arith)
drop-append (c ∷ p) x (suc n) h = drop-append p x n (omega arith)

-- Where a part is on the way of the loop.
decide :
    (c d : Ordering) (r s : Ordering)
    → c ≡ d
    → r ≡ s
    → (elim c [ lt ↦ lt | gt ↦ gt | eq ↦ r ]) ≡ (elim d [ lt ↦ lt | gt ↦ gt | eq ↦ s ])
decide c d r s h k =
    ap (λ t. elim t [ lt ↦ lt | gt ↦ gt | eq ↦ r ]) h
    ∙ ap (λ t. elim d [ lt ↦ lt | gt ↦ gt | eq ↦ t ]) k

compare_fields-compare_columns :
    (fs : List Field) (as' bs : List Key) (p q : Key) (offset : ℕ)
    → All ReadsOwn fs
    → AreParts fs as'
    → AreParts fs bs
    → length p ≡ offset
    → length q ≡ offset
    → offset + total_size fs < 65536
    → compare_fields fs offset (p ++ joined as') (q ++ joined bs) ≡ compare_columns fs as' bs
unfolding compare_fields
compare_fields-compare_columns [] as' bs p q offset own h k hp hq fits = refl
compare_fields-compare_columns (f ∷ fs) [] bs p q offset own h k hp hq fits = absurd h
compare_fields-compare_columns (f ∷ fs) (a ∷ as') [] p q offset own h k hp hq fits = absurd k
compare_fields-compare_columns (f ∷ fs) (a ∷ as') (b ∷ bs) p q offset own h k hp hq fits =
    let next : (offset + f.size) % 65536 ≡ offset + f.size = omega arith in
    decide _ _ _ _
      (ap (λ t. f.comparator f.size t (drop offset (q ++ (b ++ joined bs))))
          (drop-append p (a ++ joined as') offset hp)
        ∙ ap (f.comparator f.size (a ++ joined as')) (drop-append q (b ++ joined bs) offset hq)
        ∙ own.0 a b (joined as') (joined bs) h.0 k.0)
      (ap (λ t. compare_fields fs t (p ++ (a ++ joined as')) (q ++ (b ++ joined bs))) next
        ∙ ap (λ t. compare_fields fs (offset + f.size) t (q ++ (b ++ joined bs)))
            (sym (append_assoc p a (joined as')))
        ∙ ap (compare_fields fs (offset + f.size) ((p ++ a) ++ joined as'))
            (sym (append_assoc q b (joined bs)))
        ∙ compare_fields-compare_columns fs as' bs (p ++ a) (q ++ b) (offset + f.size) own.1 h.1 k.1
            (omega (arith, length-append p a, h.0)) (omega (arith, length-append q b, k.0))
            (omega arith))

-- Keys below 65536 bytes that are made of the bytes of their columns, where each column's comparison
-- reads as many bytes as the column has, compare as the first columns do that differ.
pub compound_compare-compare_columns :
    (fs : List Field) (as' bs : List Key)
    → All ReadsOwn fs
    → AreParts fs as'
    → AreParts fs bs
    → total_size fs < 65536
    → compound_compare fs (joined as') (joined bs) ≡ compare_columns fs as' bs
unfolding compound_compare
compound_compare-compare_columns fs as' bs own h k fits =
    compare_fields-compare_columns fs as' bs [] [] 0 own h k refl refl (omega arith)

get_or-append : (a x : Key) (i : ℕ) → i < length a → get_or (a ++ x) i 0 ≡ get_or a i 0
get_or-append [] x i h = absurd (omega arith)
get_or-append (c ∷ a) x zero h = refl
get_or-append (c ∷ a) x (suc i) h = get_or-append a x i (omega arith)

pub compare_int_keys-ReadsOwn : ReadsOwn (record { size = 4; comparator = λ n. compare_int_keys })
unfolding compare_int_keys
compare_int_keys-ReadsOwn a b x y h k =
    let read : (c z : Key) → length c ≡ 4 → (i : ℕ) → i < 4 → get_or (c ++ z) i 0 ≡ get_or c i 0 =
      λ c z e i below. get_or-append c z i (omega arith) in
    rw
      (
        read a x h 0 (omega arith),
        read a x h 1 (omega arith),
        read a x h 2 (omega arith),
        read a x h 3 (omega arith),
        read b y k 0 (omega arith),
        read b y k 1 (omega arith),
        read b y k 2 (omega arith),
        read b y k 3 (omega arith),
      )
      refl
