-- ===== src/Pstree/Drop/Prune.antt =====
-- The forest of a table after `DropProcs` (hw3/part2.c): the old one without the branches that begin
-- at an unprinted process.
use nsysu_system_programming.Prelude.{
  ℕ, ◌<◌, ◌≡◌, refl, ap, ◌∙◌, inl, inr, Bool, true, Option, some, List, [], ◌∷◌, if◌then◌else◌,
  Bool-cases, if_true, length,
}
use nsysu_system_programming.Pstree.Table.{Proc, proc}
use nsysu_system_programming.Pstree.Forest.{Forest, nil, node, Shows}
use nsysu_system_programming.Pstree.Make.Kids.{Chain}
use nsysu_system_programming.Pstree.Drop.{drop_procs}
use nsysu_system_programming.Pstree.Drop.Links.{first_printed, dropped, drop_procs_lem}

-- The sisters at the top of a forest.
abbrev pub spine : Forest → List ℕ
spine nil = []
spine (node i f g) = i ∷ spine g

abbrev pub prune : List Proc → Forest → Forest
prune ps nil = nil
prune ps (node i f g) = if (proc ps i).print then node i (prune ps f) (prune ps g) else prune ps g

Shows-Chain :
    (ps : List Proc) (f : Forest) (link : Option ℕ) → Shows ps link f → Chain ps link (spine f)
Shows-Chain ps nil link s = s
Shows-Chain ps (node i f g) link s = (s.0, Shows-Chain ps g _ s.2)

-- A walk has one list of indices.
Chain-unique :
    (ps : List Proc) (link : Option ℕ) (l m : List ℕ) → Chain ps link l → Chain ps link m → l ≡ m
Chain-unique ps link [] [] a b = refl
Chain-unique ps link [] (j ∷ m) a b = absurd (cc (a, b.0))
Chain-unique ps link (i ∷ l) [] a b = absurd (cc (a.0, b))
Chain-unique ps link (i ∷ l) (j ∷ m) a b =
    let same : i ≡ j = cc (a.0, b.0) in
    let rest = Chain-unique ps (proc ps i).sister l m a.1 (rw same b.1) in cc (same, rest)

module _ (roption : Bool) (ps qs : List Proc) (below after : ℕ → List ℕ)
    (chains : (i : ℕ)
      → Chain ps (proc ps i).child (below i) × Chain ps (proc ps i).sister (after i))
    (entries : (i : ℕ) → proc qs i ≡ dropped roption ps below after i) where
  child_eq : (i : ℕ) → (proc ps i).print ≡ true → (proc qs i).child ≡ first_printed ps (below i)
  child_eq i e = ap (λ (r : Proc). r.child) (entries i ∙ if_true (proc ps i) e)

  sister_eq : (i : ℕ) → (proc ps i).print ≡ true → (proc qs i).sister ≡ first_printed ps (after i)
  sister_eq i e = ap (λ (r : Proc). r.sister) (entries i ∙ if_true (proc ps i) e)

  Shows-prune :
      (f : Forest) (link : Option ℕ)
      → Shows ps link f
      → Shows qs (first_printed ps (spine f)) (prune ps f)
  Shows-prune nil link s = refl
  Shows-prune (node i f g) link s = elim (Bool-cases (proc ps i).print) [
    | inl e ↦ rw e (
      refl,
      rw (child_eq i e, Chain-unique ps _ (below i) (spine f) (chains i).0 (Shows-Chain ps f _ s.1))
          (Shows-prune f _ s.1),
      rw
          (
            sister_eq i e,
            Chain-unique ps _ (after i) (spine g) (chains i).1 (Shows-Chain ps g _ s.2),
          )
          (Shows-prune g _ s.2),
    )
    | inr e ↦ rw e (Shows-prune g _ s.2)
  ]

-- After `DropProcs` the children of a printed process unfold to the forest of before, without the
-- branches that begin at an unprinted process.
pub drop_procs-Shows :
    (fuel : ℕ) (roption : Bool) (ps : List Proc) (below after : ℕ → List ℕ)
    → ((i : ℕ) → Chain ps (proc ps i).child (below i) × Chain ps (proc ps i).sister (after i))
    → ((i : ℕ) → (length (below i) < fuel) × (length (after i) < fuel))
    → (i : ℕ) (f : Forest) → (proc ps i).print ≡ true
    → Shows ps (proc ps i).child f
    → (qs : List Proc) × (drop_procs fuel roption ps ≡ some qs)
      × Shows qs (proc qs i).child (prune ps f)
drop_procs-Shows fuel roption ps below after chains short i f shown s =
    let (qs, e, _, entries) = drop_procs_lem fuel roption ps below after chains short in
    (
      qs,
      e,
      rw
          (
            child_eq roption ps qs below after chains entries i shown,
            Chain-unique ps _ (below i) (spine f) (chains i).0 (Shows-Chain ps f _ s),
          )
          (Shows-prune roption ps qs below after chains entries f _ s),
    )
