-- ===== src/Pstree/Make/Step.antt =====
-- One process that `MakeTree` (hw3/part2.c) links to its parent.
use native.Mathlib.Decide.{ℕ_discrete}
use nsysu_system_programming.Prelude.{
  ℕ, suc, ◌≤◌, ◌<◌, ◌≡◌, refl, sym, ap, ◌∙◌, ◌≢◌, inl, inr, none, some, List, [], ◌∷◌, ◌++◌, arith,
  Option-cases, List-cases, length, All-imp,
}
use nsysu_system_programming.Pstree.Table.{
  Proc, proc, modify, proc-modify_self, proc-modify_ne, field-modify,
}
use nsysu_system_programming.Pstree.Make.{parent_of, link_child, adopt, make_step}
use nsysu_system_programming.Pstree.Make.Ids.{SameIds-modify, parent_of-SameIds, parent_of-some}
use nsysu_system_programming.Pstree.Make.Kids.{
  kids, kids-lt, kids-IsAsc, kids-parent, length-kids, kids-suc, Chain-frame, Chain-snoc, last,
  last_sister_lem, All-last, IsAsc,
}
use nsysu_system_programming.Pstree.Make.Half.{Built, Built-skip, Half, All-every, set_parent-Half}

module _ (ps : List Proc) (k : ℕ) (lt : k < length ps) where
  module _ {qs : List Proc} (p : ℕ) (e : parent_of ps k ≡ some p) (h : Half ps k lt p qs) where
    p_in : p < length qs
    p_in = omega (arith, h.ids.size, (parent_of-some ps k p e).0)

    -- The children of another process do not change.
    kids-other : (q : ℕ) → q ≢ p → kids ps q (suc k) ≡ kids ps q k
    kids-other q ne = elim (kids-suc ps q k) [
      | inl (_, same) ↦ same
      | inr (g, _) ↦ absurd (ne (ground (arith, e, g)))
    ]

    kids-own : kids ps p (suc k) ≡ kids ps p k ++ k ∷ []
    kids-own = elim (kids-suc ps p k) [ inl (g, _) ↦ absurd (g e) | inr (_, more) ↦ more ]

    first_child :
        kids ps p k ≡ [] → Built ps (suc k) (modify qs p (λ r. record r { child = some k }))
    first_child none_yet = record {
      ids = SameIds-modify p f (λ r. (refl, refl)) h.ids;
      chains = λ q. elim (ℕ_discrete p q) [
        | yes own ↦
            rw (← own, kids-own, none_yet)
              (
                ap (λ (r : Proc). r.child) (proc-modify_self qs p f p_in),
                sister k ∙ h.fresh k (omega arith),
              )
        | no ne ↦
            rw
              (
                kids-other q (λ g. ne (sym g)),
                ap (λ (r : Proc). r.child) (proc-modify_ne qs p q f ne),
              )
              (Chain-frame qs rs _ (kids ps q k) (All-every (kids ps q k) sister) (h.chains q))
      ];
      fresh = λ j g. (sister j ∙ h.fresh j (omega arith), parent j ∙ h.orphans j g);
      parents = λ j g. parent j ∙ h.parents j g;
    }
      where
        f : Proc → Proc
        f r = record r { child = some k }

        rs : List Proc
        rs = modify qs p f

        sister : (j : ℕ) → (proc rs j).sister ≡ (proc qs j).sister
        sister = field-modify qs p f (λ r. r.sister) (λ r. refl)

        parent : (j : ℕ) → (proc rs j).parent ≡ (proc qs j).parent
        parent = field-modify qs p f (λ r. r.parent) (λ r. refl)

    next_sister :
        (c : ℕ) (l : List ℕ)
        → kids ps p k ≡ c ∷ l
        → Built ps (suc k) (modify qs (last c l) (λ r. record r { sister = some k }))
    next_sister c l some_yet = record {
      ids = SameIds-modify t f (λ r. (refl, refl)) h.ids;
      chains = λ q. elim (ℕ_discrete p q) [
        | yes own ↦
            rw (← own, kids-own, some_yet, child p)
              (Chain-snoc qs rs k c l asc (λ i ne. sister_other i (λ g. ne (sym g))) at_last
                (sister_other k (omega (arith, t_lt)) ∙ h.fresh k (omega arith)) _
                (rw some_yet at (h.chains p)))
        | no ne ↦
            rw (kids-other q (λ g. ne (sym g)), child q)
              (Chain-frame qs rs _ (kids ps q k)
                (All-imp _ _ (kids ps q k) (apart q ne) (kids-parent ps q k)) (h.chains q))
      ];
      fresh = λ j g. (
        sister_other j (omega (arith, t_lt)) ∙ h.fresh j (omega arith),
        parent j ∙ h.orphans j g,
      );
      parents = λ j g. parent j ∙ h.parents j g;
    }
      where
        t : ℕ
        t = last c l

        f : Proc → Proc
        f r = record r { sister = some k }

        rs : List Proc
        rs = modify qs t f

        asc : IsAsc (c ∷ l)
        asc = rw some_yet at (kids-IsAsc ps p k)

        t_lt : t < k
        t_lt = All-last (λ i. i < k) c l (rw some_yet at (kids-lt ps p k))

        t_of : parent_of ps t ≡ some p
        t_of = All-last (λ i. parent_of ps i ≡ some p) c l (rw some_yet at (kids-parent ps p k))

        child : (j : ℕ) → (proc rs j).child ≡ (proc qs j).child
        child = field-modify qs t f (λ r. r.child) (λ r. refl)

        parent : (j : ℕ) → (proc rs j).parent ≡ (proc qs j).parent
        parent = field-modify qs t f (λ r. r.parent) (λ r. refl)

        sister_other : (j : ℕ) → t ≢ j → (proc rs j).sister ≡ (proc qs j).sister
        sister_other j ne = ap (λ (r : Proc). r.sister) (proc-modify_ne qs t j f ne)

        at_last : (proc rs t).sister ≡ some k
        at_last =
            ap (λ (r : Proc). r.sister) (proc-modify_self qs t f (omega (arith, t_lt, h.ids.size)))

        apart :
            (q : ℕ)
            → p ≢ q
            → (i : ℕ) → parent_of ps i ≡ some q
            → (proc rs i).sister ≡ (proc qs i).sister
        apart q ne i g = sister_other i (λ same. ne (cc (t_of, g)))

    link_child_lem : (rs : List Proc) × (link_child qs k p ≡ some rs) × Built ps (suc k) rs
    unfolding link_child
    link_child_lem = elim (List-cases (kids ps p k)) [
      | inl none_yet ↦
          let no_child : (proc qs p).child ≡ none = rw none_yet at (h.chains p) in
          (_, rw (no_child, link_child), first_child none_yet)
      | inr (c, l, some_yet) ↦
          let chain = rw some_yet at (h.chains p) in
          let short : suc (length l) ≤ k =
            rw (ap (λ (xs : List ℕ). length xs) some_yet) at (length-kids ps p k) in
          let found =
            last_sister_lem (length qs) qs c l (omega (arith, h.ids.size)) (refl, chain.1) in
          (_, rw (chain.0, found, link_child), next_sister c l some_yet)
    ]

  pub make_step_lem :
      {qs : List Proc}
      → Built ps k qs
      → (rs : List Proc) × (make_step qs k ≡ some rs) × Built ps (suc k) rs
  unfolding make_step adopt
  make_step_lem {qs} b =
      let parent : parent_of qs k ≡ parent_of ps k = parent_of-SameIds b.ids k in
      elim (Option-cases (parent_of ps k)) [
        | inl e ↦ (qs, rw (parent, e, make_step), Built-skip ps k lt e b)
        | inr (p, e) ↦
            let (rs, eq, built) = link_child_lem p e (set_parent-Half ps k lt p e b) in
            (rs, rw (parent, e, make_step) eq, built)
      ]
