-- ===== src/Popen/Table.antt =====
-- The stores by number that hw5/2 works on, and hw5/2/dict.cpp: the map from streams to processes.
use mathlib.Core.Path.{subst}
use nsysu_system_programming.Prelude.{
  ℕ, ◌≡◌, refl, sym, ◌≢◌, inl, inr, Option, none, some, List, [], ◌∷◌, arith, ◌==◌, if◌then◌else◌,
  Option-cases, if_keeps,
}

-- The entry of a key.
unfoldable pub lookup {ℓ} : {A : Type ℓ} → ℕ → List (ℕ × A) → Option A
lookup k [] = none
lookup k ((i, a) ∷ t) = let rest = lookup k t in if k == i then some a else rest

-- `std::unordered_map::erase`, and what `close` does to the descriptors.
unfoldable pub erase {ℓ} : {A : Type ℓ} → ℕ → List (ℕ × A) → List (ℕ × A)
erase k [] = []
erase k ((i, a) ∷ t) = let rest = erase k t in if k == i then rest else (i, a) ∷ rest

abbrev put_absent {ℓ} : {A : Type ℓ} → Option A → ℕ → A → List (ℕ × A) → List (ℕ × A)
put_absent none k a t = (k, a) ∷ t
put_absent (some b) k a t = t

-- `dict.insert({fp, pid})`, which keeps the entry that is there.
unfoldable pub insert {ℓ} : {A : Type ℓ} → ℕ → A → List (ℕ × A) → List (ℕ × A)
insert k a t = put_absent (lookup k t) k a t

pub lookup-erase_self {ℓ} : {A : Type ℓ} (k : ℕ) (t : List (ℕ × A)) → lookup k (erase k t) ≡ none
unfolding lookup erase
lookup-erase_self k [] = refl
lookup-erase_self k ((i, a) ∷ t) = ground (arith, lookup-erase_self k t)

pub lookup-erase_ne {ℓ} :
    {A : Type ℓ} (k i : ℕ) (t : List (ℕ × A)) → k ≢ i → lookup k (erase i t) ≡ lookup k t
unfolding lookup erase
lookup-erase_ne k i [] h = refl
lookup-erase_ne k i ((j, a) ∷ t) h = ground (arith, lookup-erase_ne k i t h)

pub erase-absent {ℓ} : {A : Type ℓ} (k : ℕ) (t : List (ℕ × A)) → lookup k t ≡ none → erase k t ≡ t
unfolding lookup erase
erase-absent k [] h = refl
erase-absent k ((i, a) ∷ t) h = ground (arith, erase-absent k t)

pub lookup-insert {ℓ} :
    {A : Type ℓ} (k : ℕ) (a : A) (t : List (ℕ × A)) → lookup k t ≡ none → insert k a t ≡ (k, a) ∷ t
unfolding insert
lookup-insert k a t h = rw h refl

-- No key has two entries.
unfoldable pub Distinct {ℓ} : {A : Type ℓ} → List (ℕ × A) → Type ℓ
Distinct [] = Unit
Distinct ((i, a) ∷ t) = (lookup i t ≡ none) × Distinct t

erase-keeps_absent {ℓ} :
    {A : Type ℓ} (i k : ℕ) (t : List (ℕ × A)) → lookup i t ≡ none → lookup i (erase k t) ≡ none
unfolding lookup erase
erase-keeps_absent i k [] h = refl
erase-keeps_absent i k ((j, a) ∷ t) h = ground (arith, erase-keeps_absent i k t)

pub erase-Distinct {ℓ} : {A : Type ℓ} (k : ℕ) (t : List (ℕ × A)) → Distinct t → Distinct (erase k t)
unfolding Distinct erase
erase-Distinct k [] h = tt
erase-Distinct k ((i, a) ∷ t) h =
    if_keeps Distinct (k == i) (erase-Distinct k t h.1)
      (erase-keeps_absent i k t h.0, erase-Distinct k t h.1)

pub insert-Distinct {ℓ} :
    {A : Type ℓ} (k : ℕ) (a : A) (t : List (ℕ × A)) → Distinct t → Distinct (insert k a t)
unfolding Distinct insert
insert-Distinct k a t h = elim (Option-cases (lookup k t)) [
  | inl e ↦ subst (λ o. Distinct (put_absent o k a t)) (sym e) (e, h)
  | inr (b, e) ↦ subst (λ o. Distinct (put_absent o k a t)) (sym e) h
]
