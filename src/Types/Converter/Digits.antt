-- ===== src/Types/Converter/Digits.antt =====
-- Numbers that src/types/formatter.c prints and src/types/converter.c reads.
use maxql.Prelude.{
  ℕ, zero, suc, ◌+◌, ◌*◌, ◌/◌, ◌%◌, ◌^◌, ◌≤◌, ◌<◌, List, [], ◌∷◌, ◌++◌, true, false, ◌≡◌, refl, ap,
  ◌∙◌, arith, Bool-cases, inl, inr, length, get_or, ◌==◌,
}
use maxql.Types.Converter.{read_digits}
use maxql.Types.Formatter.{last_digits, print_number}

abbrev pub IsDigit : ℕ → Type 0
IsDigit c = (48 ≤ c) × (c ≤ 57)

-- What is written in front of a text stays in front of it.
pub last_digits-append :
    (k n : ℕ) (out rest : List ℕ) → last_digits k n out ++ rest ≡ last_digits k n (out ++ rest)
unfolding last_digits
last_digits-append zero n out rest = refl
last_digits-append (suc k) n out rest =
    grind (arith, last_digits-append k (n / 10) ((48 + n % 10) ∷ out) rest)

read_last :
    (n : ℕ) (out : List ℕ) → read_digits 10 (n / 10) ((48 + n % 10) ∷ out) ≡ read_digits 10 n out
unfolding read_digits
read_last n out = ground arith

pub read_digits-last_digits :
    (k n : ℕ) (out : List ℕ)
    → n < 10 ^ k
    → read_digits 10 0 (last_digits k n out) ≡ read_digits 10 n out
unfolding last_digits
read_digits-last_digits zero n out h = ap (λ m. read_digits 10 m out) (omega arith)
read_digits-last_digits (suc k) n out h =
    let p = 10 ^ k in
    let fits : n < p * 10 = omega (arith, h) in
    grind (
      arith,
      read_last n out,
      read_digits-last_digits k (n / 10) ((48 + n % 10) ∷ out) (omega (arith, fits)),
    )

pub length-last_digits : (k n : ℕ) (out : List ℕ) → length (last_digits k n out) ≤ k + length out
unfolding last_digits
length-last_digits zero n out = omega arith
length-last_digits (suc k) n out =
    ground (arith, length-last_digits k (n / 10) ((48 + n % 10) ∷ out))

pub last_digits-IsDigit :
    (k n : ℕ) (out : List ℕ) → IsDigit (get_or out 0 0) → IsDigit (get_or (last_digits k n out) 0 0)
unfolding last_digits
last_digits-IsDigit zero n out h = h
last_digits-IsDigit (suc k) n out h =
    ground (arith, h, last_digits-IsDigit k (n / 10) ((48 + n % 10) ∷ out) (omega arith))

step-last_digits :
    (k n : ℕ) (out : List ℕ)
    → (n == 0) ≡ false
    → last_digits (suc k) n out ≡ last_digits k (n / 10) ((48 + n % 10) ∷ out)
unfolding last_digits
step-last_digits k n out h = rw (h) refl

-- A number of 32 bits that is printed before a text.
pub print_number-append :
    (n : ℕ) (rest : List ℕ) → (n == 0) ≡ false → print_number n ++ rest ≡ last_digits 10 n rest
unfolding print_number
print_number-append n rest h = rw (h) (last_digits-append 10 n [] rest)

read_end : (n : ℕ) → read_digits 10 n (0 ∷ []) ≡ (n, 0 ∷ [])
unfolding read_digits
read_end n = refl

read_zero : (n : ℕ) → (n == 0) ≡ true → read_digits 10 0 (print_number n ++ 0 ∷ []) ≡ (n, 0 ∷ [])
unfolding print_number read_digits
read_zero n h = rw (h) (ap (λ m. (m, 0 ∷ [])) (ground (arith, h)))

pub read_digits-print_number :
    (n : ℕ) → n < 4294967296 → read_digits 10 0 (print_number n ++ 0 ∷ []) ≡ (n, 0 ∷ [])
read_digits-print_number n h = elim (Bool-cases (n == 0)) [
  | inl z ↦ read_zero n z
  | inr p ↦
      ap (read_digits 10 0) (print_number-append n (0 ∷ []) p)
      ∙ read_digits-last_digits 10 n (0 ∷ []) (omega (arith, h))
      ∙ read_end n
]

pub length-print_number : (n : ℕ) → length (print_number n) ≤ 10
unfolding print_number
length-print_number n = ground (arith, length-last_digits 10 n [])

first_zero :
    (n : ℕ) (rest : List ℕ) → (n == 0) ≡ true → IsDigit (get_or (print_number n ++ rest) 0 0)
unfolding print_number
first_zero n rest h = rw (h) (omega arith, omega arith)

pub print_number-IsDigit : (n : ℕ) (rest : List ℕ) → IsDigit (get_or (print_number n ++ rest) 0 0)
print_number-IsDigit n rest = elim (Bool-cases (n == 0)) [
  | inl z ↦ first_zero n rest z
  | inr p ↦
      let same : print_number n ++ rest ≡ last_digits 9 (n / 10) ((48 + n % 10) ∷ rest) =
        print_number-append n rest p ∙ step-last_digits 9 n rest p in
      rw (same) (last_digits-IsDigit 9 (n / 10) ((48 + n % 10) ∷ rest) (omega arith, omega arith))
]
