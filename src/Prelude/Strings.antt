-- ===== src/Prelude/Strings.antt =====
-- C strings as lists of byte values, without the NUL that ends them.
use Prim.Native.Nat.{ℕ, zero, suc, ◌+◌, ◌<◌, ◌/◌, ◌%◌}
use Prim.Native.Char.{code}
use Prim.Native.String.{String}
use mathlib.Core.Path.{◌≡◌, refl, ap}
use mathlib.Core.Logic.{◌↔◌}
use mathlib.Core.Bool.{Bool, true, false, ◌&&◌}
use mathlib.Core.List.{List, [], ◌∷◌, ◌++◌}
use native.Mathlib.Omega.{arith}
use nsysu_system_programming.Prelude.Lists.{All, length}
use nsysu_system_programming.Prelude.Tests.{◌==◌, if◌then◌else◌}

abbrev pub Str : Type 0
Str = List ℕ

-- A string literal of the source, as its bytes.
abbrev pub codes : String → Str
codes String.[] = []
codes (String.◌∷◌ c s) = code c ∷ codes s

-- `strcmp(s, t) == 0`
abbrev pub str_eq : Str → Str → Bool
str_eq [] [] = true
str_eq [] (y ∷ ys) = false
str_eq (x ∷ xs) [] = false
str_eq (x ∷ xs) (y ∷ ys) = (x == y) && str_eq xs ys

pub str_eq_iff : (s t : Str) → (str_eq s t ≡ true) ↔ (s ≡ t)
str_eq_iff [] [] = (λ _. refl, λ _. refl)
str_eq_iff [] (y ∷ ys) = (λ e. cc, λ e. cc)
str_eq_iff (x ∷ xs) [] = (λ e. cc, λ e. cc)
str_eq_iff (x ∷ xs) (y ∷ ys) = ground (arith, str_eq_iff xs ys)

pub str_eq_self : (s : Str) → str_eq s s ≡ true
str_eq_self s = (str_eq_iff s s).1 refl

-- The digits of `n` in front of `acc`; enough fuel is one more than `n`.
abbrev pub digits_from : ℕ → ℕ → Str → Str
digits_from zero n acc = acc
digits_from (suc fuel) n acc =
    let rest = digits_from fuel (n / 10) ((48 + n % 10) ∷ acc) in
    if n / 10 == 0 then (48 + n % 10) ∷ acc else rest

-- `%d` of a number that is not negative.
unfoldable pub decimal : ℕ → Str
decimal n = digits_from (suc n) n []

-- The C string at the front of an array of bytes: those in front of the first NUL.
abbrev pub before_nul : Str → Str
before_nul [] = []
before_nul (c ∷ s) = let rest = before_nul s in if c == 0 then [] else c ∷ rest

pub before_nul-append :
    (s rest : Str) → All (λ c. (c == 0) ≡ false) s → before_nul (s ++ (0 ∷ rest)) ≡ s
before_nul-append [] rest h = refl
before_nul-append (c ∷ s) rest h = rw h.0 (ap (λ (zs : Str). c ∷ zs) (before_nul-append s rest h.1))

pub before_nul_self : (s : Str) → All (λ c. (c == 0) ≡ false) s → before_nul s ≡ s
before_nul_self [] h = refl
before_nul_self (c ∷ s) h = rw h.0 (ap (λ (zs : Str). c ∷ zs) (before_nul_self s h.1))

-- `fgets` of at most `n` bytes, and what is left of the input.
unfoldable pub fgets : ℕ → Str → Str × Str
fgets zero s = ([], s)
fgets (suc n) [] = ([], [])
fgets (suc n) (c ∷ s) =
    let rest = fgets n s in if c == 10 then (10 ∷ [], s) else (c ∷ rest.0, rest.1)

pub fgets-line :
    (n : ℕ) (word rest : Str)
    → All (λ c. (c == 10) ≡ false) word
    → length word < n
    → fgets n (word ++ (10 ∷ rest)) ≡ (word ++ (10 ∷ []), rest)
unfolding fgets
fgets-line zero word rest h room = absurd (omega arith)
fgets-line (suc n) [] rest h room = refl
fgets-line (suc n) (c ∷ word) rest h room =
    rw h.0 (ap (λ r. (c ∷ r.0, r.1)) (fgets-line n word rest h.1 (omega arith)))
