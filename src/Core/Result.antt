-- ===== src/Core/Result.antt =====
-- What a function that returns an `Error` gives: the values it writes, an error, or neither, where the C
-- code reads what is not there.
use maxql.Prelude.{Bool, true, false, if◌then◌else◌, ◌≡◌, refl}
use maxql.Core.Error.{Error}

pub data Result {ℓ} (A : Type ℓ) : Type ℓ where
  done : A → Result A
  refused : Error → Result A
  undefined : Result A

-- The return on an error.
abbrev pub and_then {ℓ κ} : {A : Type ℓ} {B : Type κ} → Result A → (A → Result B) → Result B
and_then (done a) f = f a
and_then (refused e) f = refused e
and_then undefined f = undefined

-- What holds of the error or of the values; a result is not undefined.
abbrev pub Holds {ℓ} : {A : Type ℓ} → (Error → Type 0) → (A → Type 0) → Result A → Type 0
Holds E P (done a) = P a
Holds E P (refused e) = E e
Holds E P undefined = ⊥

pub Holds-and_then {ℓ κ} :
    {A : Type ℓ} {B : Type κ} (E : Error → Type 0) (P : A → Type 0) (Q : B → Type 0) (r : Result A)
    (f : A → Result B)
    → Holds E P r
    → ((a : A) → r ≡ done a → P a → Holds E Q (f a))
    → Holds E Q (and_then r f)
Holds-and_then E P Q (done a) f h k = k a refl h
Holds-and_then E P Q (refused e) f h k = h
Holds-and_then E P Q undefined f h k = h

pub Holds-if {ℓ} :
    {A : Type ℓ} (E : Error → Type 0) (P : A → Type 0) (b : Bool) (r s : Result A)
    → (b ≡ true → Holds E P r)
    → (b ≡ false → Holds E P s)
    → Holds E P (if b then r else s)
Holds-if E P true r s f g = f refl
Holds-if E P false r s f g = g refl

pub Holds-imp {ℓ} :
    {A : Type ℓ} (E : Error → Type 0) (P Q : A → Type 0) (r : Result A)
    → Holds E P r
    → ((a : A) → P a → Q a)
    → Holds E Q r
Holds-imp E P Q (done a) h k = k a h
Holds-imp E P Q (refused e) h k = h
Holds-imp E P Q undefined h k = h
