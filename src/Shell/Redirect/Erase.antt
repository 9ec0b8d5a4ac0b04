-- ===== src/Shell/Redirect/Erase.antt =====
-- What `redirect` of hw4/part2/redirect.c does to the arguments up to the NULL.
use nsysu_system_programming.Prelude.{
  ℕ, suc, ◌-◌, ◌≤◌, ◌<◌, ◌≡◌, refl, sym, ap, ◌∙◌, ◌⊎◌, inl, inr, false, Option, none, some, List,
  [], ◌∷◌, arith, if◌then◌else◌, Bool-cases, Option-cases, length, Str,
}
use nsysu_system_programming.Shell.Redirect.{Argv, argument, begins_with, shift, redirect_to}
use nsysu_system_programming.Shell.Redirect.Loops.{
  array, arguments, locate, bump, locate-here, locate-later, bump-none, find_symbol-array,
  find_end-array, shift-cons, shift-array, length-array, arguments-array,
}

-- The arguments without the first symbol that a name follows, and without the name.
abbrev pub erase : ℕ → List Str → List Str × Option Str
erase mode [] = ([], none)
erase mode (a ∷ []) = (a ∷ [], none)
erase mode (a ∷ b ∷ xs) =
    let (others, name) = erase mode (b ∷ xs) in
    if begins_with mode a then (xs, some b) else (a ∷ others, name)

erase-none : (mode : ℕ) (xs : List Str) → locate mode xs ≡ none → erase mode xs ≡ (xs, none)
erase-none mode [] h = refl
erase-none mode (a ∷ []) h = refl
erase-none mode (a ∷ b ∷ xs) h = elim (Bool-cases (begins_with mode a)) [
  | inl here ↦ absurd (ground arith)
  | inr other ↦
      let rest_none : locate mode (b ∷ xs) ≡ none =
        bump-none _ (sym (locate-later mode a (b ∷ xs) other) ∙ h) in
      rw other (rw (erase-none mode (b ∷ xs) rest_none) refl)
]

-- What is at an index behind the first symbol, and what the loops make of it.
record Located (mode : ℕ) (xs : List Str) (rest : Argv) (i : ℕ) : Type 0 where
  positive : 0 < i
  within : i ≤ length xs
  outcome :
      ((argument (array xs rest) i ≡ none) × (erase mode xs ≡ (xs, none)))
      ⊎ ((name : Str) × (argument (array xs rest) i ≡ some name)
          × (i < length xs)
          × (arguments (shift (length xs - i) (i - 1) (array xs rest)) ≡ (erase mode xs).0)
          × ((erase mode xs).1 ≡ some name))

Located-later :
    (mode : ℕ) (a b : Str) (xs : List Str) (rest : Argv) (i : ℕ)
    → begins_with mode a ≡ false
    → Located mode (b ∷ xs) rest i
    → Located mode (a ∷ b ∷ xs) rest (suc i)
Located-later mode a b xs rest i other l = record {
  positive = omega arith;
  within = omega (arith, l.within);
  outcome = elim l.outcome [
    | inl (alone, same) ↦ inl (alone, rw other (rw same refl))
    | inr (name, found, room, moved, erased) ↦ inr (
      name,
      found,
      omega (arith, room),
      (let count : suc (suc (length xs)) - suc i ≡ suc (length xs) - i = omega arith in
          let place : suc i - 1 ≡ suc (i - 1) = omega (arith, l.positive) in
          rw other (
            rw count (
              rw place (
                ap arguments
                  (shift-cons (suc (length xs) - i) (i - 1) (some a) (array (b ∷ xs) rest))
                ∙ ap (λ (zs : List Str). a ∷ zs) moved)))),
      rw other erased,
    )
  ];
}

located :
    (mode : ℕ) (xs : List Str) (rest : Argv) (i : ℕ)
    → locate mode xs ≡ some i
    → Located mode xs rest i
located mode [] rest i h = absurd (ground arith)
located mode (a ∷ []) rest i h = elim (Bool-cases (begins_with mode a)) [
  | inl here ↦
      let first : i ≡ 1 = ground (arith, sym (locate-here mode a [] here) ∙ h) in
      rw first (record { positive = omega arith; within = omega arith; outcome = inl (refl, refl) })
  | inr other ↦ absurd (ground (arith, sym (locate-later mode a [] other) ∙ h))
]
located mode (a ∷ b ∷ xs) rest i h = elim (Bool-cases (begins_with mode a)) [
  | inl here ↦
      let first : i ≡ 1 = ground (arith, sym (locate-here mode a (b ∷ xs) here) ∙ h) in
      let count : suc (suc (length xs)) - 1 ≡ suc (length xs) = omega arith in
      rw first (record {
        positive = omega arith;
        within = omega arith;
        outcome = inr (
          b,
          refl,
          omega arith,
          rw count (rw here (shift-array xs (some a) (some b) rest)),
          rw here refl,
        );
      })
  | inr other ↦ elim (Option-cases (locate mode (b ∷ xs))) [
    | inl nowhere ↦
        absurd
          (ground (arith, sym (ap bump nowhere) ∙ (sym (locate-later mode a (b ∷ xs) other) ∙ h)))
    | inr (i', there) ↦
        let next : i ≡ suc i' =
          ground (arith, sym (ap bump there) ∙ (sym (locate-later mode a (b ∷ xs) other) ∙ h)) in
        rw next (Located-later mode a b xs rest i' other (located mode (b ∷ xs) rest i' there))
  ]
]

-- `__redirect_to` takes the first argument that begins with the symbol, and the name behind it, out of
-- the arguments, in place, and opens the file of that name; if no argument begins with the symbol, or
-- the first that does is the last one, nothing changes and no file is opened.
pub redirect_to_lem :
    (mode : ℕ) (xs : List Str) (rest : Argv)
    → (arguments (redirect_to mode (array xs rest)).0 ≡ (erase mode xs).0)
      × ((redirect_to mode (array xs rest)).1 ≡ (erase mode xs).1)
unfolding redirect_to
redirect_to_lem mode xs rest =
    let fuel = length (array xs rest) in
    let found = find_symbol-array xs fuel mode rest (length-array xs rest) in
    elim (Option-cases (locate mode xs)) [
      | inl nowhere ↦
          rw (found ∙ nowhere, redirect_to)
            (rw (erase-none mode xs nowhere) (arguments-array xs rest, refl))
      | inr (i, there) ↦
          let l = located mode xs rest i there in
          rw (found ∙ there, redirect_to)
            (elim l.outcome [
              | inl (alone, same) ↦
                  rw (alone, redirect_to) (rw same (arguments-array xs rest, refl))
              | inr (name, at_i, room, moved, erased) ↦
                  let end =
                    find_end-array xs fuel (suc i) rest (omega arith)
                      (let fits = length-array xs rest in omega arith) in
                  let count : length xs - 1 - (i - 1) ≡ length xs - i = omega (arith, l.positive) in
                  rw (at_i, redirect_to) (rw (end, redirect_to) (rw count (moved, sym erased)))
            ])
    ]
