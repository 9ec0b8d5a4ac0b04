-- ===== src/Pstree/Forest.antt =====
-- What the links of hw3/part2.c stand for: the sisters from some process on, each with the forest of
-- its children.
use mathlib.Core.Logic.{⊎_elim}
use native.Mathlib.Decide.{ℕ_discrete}
use nsysu_system_programming.Prelude.{
  ℕ, suc, ◌+◌, ◌≡◌, refl, ◌⊎◌, inl, inr, Option, none, some, List,
}
use nsysu_system_programming.Pstree.Table.{Proc, proc}

pub data Forest : Type 0 where
  nil : Forest
  node : ℕ → Forest → Forest → Forest

-- The walk from `link` along children and sisters unfolds to the forest, so it ends.
abbrev pub Shows : List Proc → Option ℕ → Forest → Type 0
Shows ps link nil = link ≡ none
Shows ps link (node i below after) =
    (link ≡ some i) × Shows ps (proc ps i).child below × Shows ps (proc ps i).sister after

abbrev pub size : Forest → ℕ
size nil = 0
size (node i below after) = suc (size below + size after)

-- A property of every process of the forest.
abbrev pub Every : (ℕ → Type 0) → Forest → Type 0
Every P nil = Unit
Every P (node i below after) = P i × Every P below × Every P after

-- The process `i` stands in the forest.
pub data In (i : ℕ) : Forest → Type 0 where
  at_node : {f g : Forest} → In i (node i f g)
  in_below : {j : ℕ} {f g : Forest} → In i f → In i (node j f g)
  in_after : {j : ℕ} {f g : Forest} → In i g → In i (node j f g)

-- The forest depends on the child and sister links alone.
pub Shows-frame :
    (ps qs : List Proc) (f : Forest) (link : Option ℕ)
    → ((i : ℕ)
        → ((proc qs i).child ≡ (proc ps i).child) × ((proc qs i).sister ≡ (proc ps i).sister))
    → Shows ps link f
    → Shows qs link f
Shows-frame ps qs nil link same s = s
Shows-frame ps qs (node i below after) link same s = (
  s.0,
  rw (same i).0 (Shows-frame ps qs below _ same s.1),
  rw (same i).1 (Shows-frame ps qs after _ same s.2),
)

pub In-cases : {i j : ℕ} {f g : Forest} → In i (node j f g) → (i ≡ j) ⊎ (In i f ⊎ In i g)
In-cases at_node = inl refl
In-cases (in_below m) = inr (inl m)
In-cases (in_after m) = inr (inr m)

pub In-at_node : {i j : ℕ} (f g : Forest) → i ≡ j → In i (node j f g)
In-at_node f g e = rw e at_node

pub Every-imp : (P Q : ℕ → Type 0) (f : Forest) → ((i : ℕ) → P i → Q i) → Every P f → Every Q f
Every-imp P Q nil h e = tt
Every-imp P Q (node i f g) h e = (h i e.0, Every-imp P Q f h e.1, Every-imp P Q g h e.2)

pub In-or-not : (i : ℕ) (f : Forest) → In i f ⊎ (¬ In i f)
In-or-not i nil = inr (λ m. elim m [ ])
In-or-not i (node j f g) = elim (ℕ_discrete i j) [
  | yes e ↦ inl (In-at_node f g e)
  | no ne ↦ elim (In-or-not i f) [
    | inl m ↦ inl (in_below m)
    | inr out_f ↦ elim (In-or-not i g) [
      | inl m ↦ inl (in_after m)
      | inr out_g ↦ inr (λ m. ⊎_elim ne (⊎_elim out_f out_g) (In-cases m))
    ]
  ]
]
