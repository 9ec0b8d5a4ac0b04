-- ===== src/Prelude/Int.antt =====
-- Signed C integers over the native numbers. `negsuc n` is -(n + 1).
use Prim.Native.Nat.{ℕ, zero, suc, ◌+◌, ◌-◌, ◌*◌}
use mathlib.Core.List.{[], ◌∷◌, ◌++◌}
use mathlib.Core.Path.{◌≡◌}
use mathlib.Core.Logic.{◌↔◌}
use mathlib.Core.Bool.{Bool, true, false, ◌&&◌, ◌||◌}
use native.Mathlib.Omega.{arith}
use nsysu_system_programming.Prelude.Tests.{◌==◌, leb, if◌then◌else◌}
use nsysu_system_programming.Prelude.Strings.{Str, codes, decimal}

pub data ℤ : Type 0 where
  pos : ℕ → ℤ
  negsuc : ℕ → ℤ

-- `a == b` of two integers of one type.
abbrev pub int_eq : ℤ → ℤ → Bool
int_eq (pos a) (pos b) = a == b
int_eq (pos a) (negsuc b) = false
int_eq (negsuc a) (pos b) = false
int_eq (negsuc a) (negsuc b) = a == b

pub int_eq_iff : (a b : ℤ) → (int_eq a b ≡ true) ↔ (a ≡ b)
int_eq_iff a b = ground arith

abbrev pub neg_ℤ : ℕ → ℤ
neg_ℤ zero = pos 0
neg_ℤ (suc n) = negsuc n

-- The digits at the front of a text, behind those read so far.
abbrev pub digits_value : ℕ → Str → ℕ
digits_value acc [] = acc
digits_value acc (c ∷ s) =
    let rest = digits_value (acc * 10 + (c - 48)) s in if leb 48 c && leb c 57 then rest else acc

-- `isspace`
abbrev pub is_space : ℕ → Bool
is_space c = (c == 32) || (leb 9 c && leb c 13)

-- A text after its sign, if it has one.
abbrev pub signed_value : Str → ℤ
signed_value [] = pos 0
signed_value (c ∷ s) =
    if c == b'-'
    then neg_ℤ (digits_value 0 s)
    else if c == b'+'
    then pos (digits_value 0 s)
    else pos (digits_value 0 (c ∷ s))

-- `atoi`, for texts whose number fits its type.
unfoldable pub atoi : Str → ℤ
atoi [] = pos 0
atoi (c ∷ s) = if is_space c then atoi s else signed_value (c ∷ s)

-- `%d` and `%ld`
unfoldable pub decimal_ℤ : ℤ → Str
unfolding decimal
decimal_ℤ (pos n) = decimal n
decimal_ℤ (negsuc n) = codes "-" ++ decimal (suc n)
