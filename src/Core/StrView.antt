-- ===== src/Core/StrView.antt =====
-- `StrView` of include/maxql/core/strview.h and the functions of src/core/strview.c. `ptr` holds
-- the bytes from the pointer on; a byte past its end is read as 0, the end of a C string.
use maxql.Prelude.{
  ℕ, zero, suc, List, [], ◌∷◌, ◌++◌, Bool, true, false, ◌&&◌, ◌||◌, ◌==◌, if◌then◌else◌, ltb,
  get_or,
}
use Prim.Native.String.{String}
use Prim.Native.Char.{code}

pub record StrView : Type 0 where
  pub ptr : List ℕ
  pub len : ℕ

-- The bytes of a C string literal.
abbrev pub codes : String → List ℕ
codes String.[] = []
codes (String.◌∷◌ c s) = code c ∷ codes s

abbrev pub sv_from_parts : List ℕ → ℕ → StrView
sv_from_parts ptr len = record { ptr = ptr; len = len }

-- `strlen`: the bytes before the first 0.
abbrev pub strlen : List ℕ → ℕ
strlen [] = 0
strlen (c ∷ cs) = if c == 0 then 0 else suc (strlen cs)

unfoldable pub sv_from_cstr : List ℕ → StrView
sv_from_cstr ptr = record { ptr = ptr; len = strlen ptr }

abbrev pub tail_bytes : List ℕ → List ℕ
tail_bytes [] = []
tail_bytes (c ∷ cs) = cs

-- The first `n` bytes, as `memcpy` copies them.
abbrev pub take_bytes : ℕ → List ℕ → List ℕ
take_bytes zero cs = []
take_bytes (suc n) cs = get_or cs 0 0 ∷ take_bytes n (tail_bytes cs)

-- `memcmp(a, b, n) == 0`.
abbrev pub equal_bytes : ℕ → List ℕ → List ℕ → Bool
equal_bytes zero a b = true
equal_bytes (suc n) a b =
    get_or a 0 0 == get_or b 0 0 && equal_bytes n (tail_bytes a) (tail_bytes b)

unfoldable pub sv_equal : StrView → StrView → Bool
sv_equal a b = a.len == b.len && equal_bytes a.len a.ptr b.ptr

unfoldable pub sv_equal_cstr : StrView → List ℕ → Bool
unfolding sv_equal sv_from_cstr
sv_equal_cstr view cstr = sv_equal view (sv_from_cstr cstr)

abbrev contains : ℕ → List ℕ → ℕ → Bool
contains zero ptr c = false
contains (suc n) ptr c = get_or ptr 0 0 == c || contains n (tail_bytes ptr) c

unfoldable pub sv_contains : StrView → ℕ → Bool
sv_contains view c = contains view.len view.ptr c

-- The bytes written to `out`, its 0 included.
unfoldable pub sv_to_cstr : StrView → ℕ → List ℕ
sv_to_cstr view zero = []
sv_to_cstr view (suc room) =
    let len = if ltb view.len room then view.len else room in take_bytes len view.ptr ++ 0 ∷ []

-- The bytes of a buffer before the first 0.
abbrev pub until_nul : List ℕ → List ℕ
until_nul [] = []
until_nul (c ∷ cs) = if c == 0 then [] else c ∷ until_nul cs
