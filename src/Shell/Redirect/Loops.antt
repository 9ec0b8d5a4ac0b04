-- ===== src/Shell/Redirect/Loops.antt =====
-- What each loop of `__redirect_to` in hw4/part2/redirect.c does to the arguments up to the NULL.
use nsysu_system_programming.Prelude.{
  ℕ, zero, suc, ◌+◌, ◌≤◌, ◌<◌, ◌≡◌, refl, ap, ◌∙◌, inl, inr, true, false, Option, none, some, List,
  [], ◌∷◌, arith, if◌then◌else◌, Bool-cases, Option-cases, length, set, Str,
}
use nsysu_system_programming.Shell.Redirect.{
  Argv, argument, begins_with, find_symbol, find_end, shift,
}

-- The array of these arguments, with the NULL behind them and whatever follows it.
abbrev pub array : List Str → Argv → Argv
array [] rest = none ∷ rest
array (a ∷ xs) rest = some a ∷ array xs rest

-- The arguments up to the NULL.
abbrev pub arguments : Argv → List Str
arguments [] = []
arguments (none ∷ cmd) = []
arguments (some a ∷ cmd) = a ∷ arguments cmd

-- The index behind the first symbol.
abbrev pub locate : ℕ → List Str → Option ℕ
locate mode [] = none
locate mode (a ∷ xs) =
    let further = locate mode xs in
    if begins_with mode a then some 1 else (elim further [ none ↦ none | some i ↦ some (suc i) ])

abbrev pub bump : Option ℕ → Option ℕ
bump none = none
bump (some i) = some (suc i)

pub locate-here :
    (mode : ℕ) (a : Str) (xs : List Str) → begins_with mode a ≡ true → locate mode (a ∷ xs) ≡ some 1
locate-here mode a xs here = rw here refl

pub locate-later :
    (mode : ℕ) (a : Str) (xs : List Str)
    → begins_with mode a ≡ false
    → locate mode (a ∷ xs) ≡ bump (locate mode xs)
locate-later mode a xs other = rw other refl

pub bump-none : (o : Option ℕ) → bump o ≡ none → o ≡ none
bump-none none h = refl
bump-none (some i) h = absurd (ground arith)

pub find_symbol-cons :
    (fuel mode : ℕ) (x : Option Str) (cmd : Argv) (i : ℕ)
    → find_symbol fuel mode (x ∷ cmd) (suc i) ≡ bump (find_symbol fuel mode cmd i)
unfolding find_symbol
find_symbol-cons zero mode x cmd i = refl
find_symbol-cons (suc fuel) mode x cmd i = elim (Option-cases (argument cmd i)) [
  | inl e ↦ rw (e, find_symbol) refl
  | inr (tok, e) ↦ elim (Bool-cases (begins_with mode tok)) [
    | inl here ↦ rw (e, find_symbol) (rw (here, find_symbol) refl)
    | inr other ↦
        rw (e, find_symbol) (rw (other, find_symbol) (find_symbol-cons fuel mode x cmd (suc i)))
  ]
]

pub find_symbol-array :
    (xs : List Str) (fuel mode : ℕ) (rest : Argv)
    → length xs < fuel
    → find_symbol fuel mode (array xs rest) 0 ≡ locate mode xs
unfolding find_symbol
find_symbol-array xs zero mode rest h = absurd (omega arith)
find_symbol-array [] (suc fuel) mode rest h = refl
find_symbol-array (a ∷ xs) (suc fuel) mode rest h = elim (Bool-cases (begins_with mode a)) [
  | inl here ↦ rw here refl
  | inr other ↦ rw other (
      find_symbol-cons fuel mode (some a) (array xs rest) 0
      ∙ ap bump (find_symbol-array xs fuel mode rest (omega arith)))
]

pub find_end-cons :
    (fuel : ℕ) (x : Option Str) (cmd : Argv) (j : ℕ)
    → find_end fuel (x ∷ cmd) (suc j) ≡ suc (find_end fuel cmd j)
unfolding find_end
find_end-cons zero x cmd j = refl
find_end-cons (suc fuel) x cmd j = elim (Option-cases (argument cmd j)) [
  | inl e ↦ rw (e, find_end) refl
  | inr (tok, e) ↦ rw (e, find_end) (find_end-cons fuel x cmd (suc j))
]

pub find_end-array :
    (xs : List Str) (fuel j : ℕ) (rest : Argv)
    → j ≤ length xs
    → length xs < fuel + j
    → find_end fuel (array xs rest) j ≡ length xs
unfolding find_end
find_end-array xs zero j rest h enough = absurd (omega arith)
find_end-array [] (suc fuel) zero rest h enough = refl
find_end-array [] (suc fuel) (suc j) rest h enough = absurd (omega arith)
find_end-array (a ∷ xs) (suc fuel) zero rest h enough =
    find_end-cons fuel (some a) (array xs rest) 0
    ∙ ap suc (find_end-array xs fuel 0 rest (omega arith) (omega arith))
find_end-array (a ∷ xs) (suc fuel) (suc j) rest h enough =
    find_end-cons (suc fuel) (some a) (array xs rest) j
    ∙ ap suc (find_end-array xs (suc fuel) j rest (omega arith) (omega arith))

pub shift-cons :
    (n k : ℕ) (x : Option Str) (cmd : Argv) → shift n (suc k) (x ∷ cmd) ≡ x ∷ shift n k cmd
unfolding shift
shift-cons zero k x cmd = refl
shift-cons (suc n) k x cmd =
    let far : suc k + 2 ≡ suc (k + 2) = omega arith in
    rw far (shift-cons n (suc k) x (set cmd k (argument cmd (k + 2))))

-- The tail moves over the symbol and the name.
pub shift-array :
    (xs : List Str) (x y : Option Str) (rest : Argv)
    → arguments (shift (suc (length xs)) 0 (x ∷ y ∷ array xs rest)) ≡ xs
unfolding shift
shift-array [] x y rest = refl
shift-array (c ∷ cs) x y rest =
    ap arguments (shift-cons (suc (length cs)) 0 (some c) (y ∷ some c ∷ array cs rest))
    ∙ ap (λ (zs : List Str). c ∷ zs) (shift-array cs y (some c) rest)

pub length-array : (xs : List Str) (rest : Argv) → length xs < length (array xs rest)
length-array [] rest = omega arith
length-array (a ∷ xs) rest = let more = length-array xs rest in omega arith

pub arguments-array : (xs : List Str) (rest : Argv) → arguments (array xs rest) ≡ xs
arguments-array [] rest = refl
arguments-array (a ∷ xs) rest = ap (λ (zs : List Str). a ∷ zs) (arguments-array xs rest)
