-- ===== src/Walk/Numbers.antt =====
-- The names that `is_numeric` of hw3 takes, and the loop over them.
use nsysu_system_programming.Prelude.{
  ℕ, ◌≡◌, refl, sym, ap, ◌∙◌, ◌↔◌, inl, inr, Bool, true, false, not, ◌||◌, Option, some, List, [],
  ◌∷◌, ◌++◌, arith, ◌==◌, if◌then◌else◌, Bool-cases, get_or, All, if_false, Str, codes, if_false,
  is_space,
}
use nsysu_system_programming.Walk.{
  is_digit, skip_digits, behind_number, behind_spaces, ended, is_end, is_numeric, gen_subdir,
  append, walk,
}

is_end-skip_digits : (s : Str) → (is_end (skip_digits s) ≡ true) ↔ All (λ c. is_digit c ≡ true) s
is_end-skip_digits [] = (λ e. tt, λ h. refl)
is_end-skip_digits (c ∷ s) = elim (Bool-cases (is_digit c)) [
  | inl e ↦ let (there, back) = is_end-skip_digits s in rw e (λ k. (refl, there k), λ h. back h.1)
  | inr e ↦ (
    λ k. absurd (ground (arith, sym (ap is_end (if_false (skip_digits s) e)) ∙ k)),
    λ h. absurd (ground (arith, e, h.0)),
  )
]

-- A byte that `strtol` does not pass over in front of a number.
abbrev pub starts_number : ℕ → Bool
starts_number c = not (is_space c || (c == b'-') || (c == b'+'))

behind_number-digits :
    (c : ℕ) (s : Str)
    → (is_end (ended (c ∷ s) (behind_number (c ∷ s))) ≡ true) ↔ All (λ d. is_digit d ≡ true) (c ∷ s)
behind_number-digits c s = elim (Bool-cases (is_digit c)) [
  | inl e ↦ let (there, back) = is_end-skip_digits s in rw e (λ k. (refl, there k), λ h. back h.1)
  | inr e ↦ rw e (λ k. absurd (ground (arith, k)), λ h. absurd (ground (arith, h.0)))
]

-- A name that begins with neither a space nor a sign is taken exactly if all of its bytes are digits:
-- the empty name is taken too.
pub is_numeric_iff :
    (name : Str)
    → starts_number (get_or name 0 b'0') ≡ true
    → (is_numeric name ≡ true) ↔ All (λ c. is_digit c ≡ true) name
unfolding is_numeric
is_numeric_iff [] h = (λ e. tt, λ k. refl)
is_numeric_iff (c ∷ s) h =
    let no_space : is_space c ≡ false = ground (arith, h) in
    let no_sign : ((c == b'-') || (c == b'+')) ≡ false = ground (arith, h) in
    let shape : behind_spaces (c ∷ s) ≡ behind_number (c ∷ s) =
      if_false (behind_spaces s) no_space ∙ if_false (behind_number s) no_sign in
    let test : is_numeric (c ∷ s) ≡ is_end (ended (c ∷ s) (behind_number (c ∷ s))) =
      ap (λ o. is_end (ended (c ∷ s) o)) shape in
    rw test (behind_number-digits c s)

-- The texts of the names that are taken, in their order.
abbrev pub listing : (text : Str → Str) → List Str → Str
listing text [] = []
listing text (name ∷ names) =
    let rest = listing text names in if is_numeric name then text name ++ rest else rest

-- If every name that is taken shows a text, the walk shows them in the order of the names and nothing
-- else.
pub walk-listing :
    (show : Str → Option Str) (text : Str → Str) (names : List Str)
    → All
        (λ name.
          is_numeric name ≡ true → show (gen_subdir (codes "/proc/") name) ≡ some (text name))
        names
    → walk show names ≡ some (listing text names)
unfolding walk
walk-listing show text [] h = refl
walk-listing show text (name ∷ names) h = elim (Bool-cases (is_numeric name)) [
  | inl e ↦ rw e (
      ap (λ o. append o (walk show names)) (h.0 e)
      ∙ ap (append (some (text name))) (walk-listing show text names h.1))
  | inr e ↦ rw e (walk-listing show text names h.1)
]
