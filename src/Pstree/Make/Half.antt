-- ===== src/Pstree/Make/Half.antt =====
-- A table that `MakeTree` (hw3/part2.c) has linked in part, and a step without its last write.
use native.Mathlib.Decide.{ℕ_discrete}
use nsysu_system_programming.Prelude.{
  ℕ, suc, ◌≤◌, ◌<◌, ◌≡◌, refl, sym, ap, ◌∙◌, inl, inr, none, some, List, [], ◌∷◌, arith, length,
  All,
}
use nsysu_system_programming.Pstree.Table.{
  Proc, proc, modify, proc-modify_self, proc-modify_ne, field-modify,
}
use nsysu_system_programming.Pstree.Make.{parent_of}
use nsysu_system_programming.Pstree.Make.Ids.{SameIds, SameIds-modify}
use nsysu_system_programming.Pstree.Make.Kids.{kids, kids-zero, kids-suc, Chain, Chain-frame}

-- The table before the loop: no links.
pub record IsUnlinked (ps : List Proc) : Type 0 where
  pub parent : (i : ℕ) → (proc ps i).parent ≡ none
  pub child : (i : ℕ) → (proc ps i).child ≡ none
  pub sister : (i : ℕ) → (proc ps i).sister ≡ none

-- What holds of the table `qs` when the first `k` processes of `ps` have been linked.
pub record Built (ps : List Proc) (k : ℕ) (qs : List Proc) : Type 0 where
  pub ids : SameIds ps qs
  pub chains : (p : ℕ) → Chain qs (proc qs p).child (kids ps p k)
  pub fresh : (j : ℕ) → k ≤ j → ((proc qs j).sister ≡ none) × ((proc qs j).parent ≡ none)
  pub parents : (j : ℕ) → j < k → (proc qs j).parent ≡ parent_of ps j

pub Built-zero : (ps : List Proc) → IsUnlinked ps → Built ps 0 ps
Built-zero ps u = record {
  ids = record { size = refl; pid = λ i. refl; ppid = λ i. refl };
  chains = λ p. rw (kids-zero ps p) (u.child p);
  fresh = λ j h. (u.sister j, u.parent j);
  parents = λ j h. absurd (omega arith);
}

pub All-every : {P : ℕ → Type 0} (xs : List ℕ) → ((i : ℕ) → P i) → All P xs
All-every [] f = tt
All-every (x ∷ xs) f = (f x, All-every xs f)

module _ (ps : List Proc) (k : ℕ) (lt : k < length ps) where
  -- A process with no valid parent is left as it is.
  pub Built-skip : {qs : List Proc} → parent_of ps k ≡ none → Built ps k qs → Built ps (suc k) qs
  Built-skip {qs} e b = record {
    ids = b.ids;
    chains = λ p. elim (kids-suc ps p k) [ inl (_, same) ↦ rw same (b.chains p) | inr (h, _) ↦ cc ];
    fresh = λ j h. b.fresh j (omega arith);
    parents = λ j h. elim (ℕ_discrete j k) [
      | yes here ↦ rw (here, e) (b.fresh k (omega arith)).1
      | no ne ↦ b.parents j (omega arith)
    ];
  }

  -- In between: the parent of `k` is set, and the links from `p` are still those of before.
  pub record Half (p : ℕ) (qs : List Proc) : Type 0 where
    pub ids : SameIds ps qs
    pub chains : (q : ℕ) → Chain qs (proc qs q).child (kids ps q k)
    pub fresh : (j : ℕ) → k ≤ j → (proc qs j).sister ≡ none
    pub orphans : (j : ℕ) → suc k ≤ j → (proc qs j).parent ≡ none
    pub parents : (j : ℕ) → j < suc k → (proc qs j).parent ≡ parent_of ps j

  pub set_parent-Half :
      {qs : List Proc} (p : ℕ)
      → parent_of ps k ≡ some p
      → Built ps k qs
      → Half p (modify qs k (λ r. record r { parent = some p }))
  set_parent-Half {qs} p e b = record {
    ids = SameIds-modify k f (λ r. (refl, refl)) b.ids;
    chains = λ q.
        rw (child q)
          (Chain-frame qs rs _ (kids ps q k) (All-every (kids ps q k) sister) (b.chains q));
    fresh = λ j h. sister j ∙ (b.fresh j h).0;
    orphans = λ j h.
        ap (λ (r : Proc). r.parent) (proc-modify_ne qs k j f (omega arith))
        ∙ (b.fresh j (omega arith)).1;
    parents = λ j h. elim (ℕ_discrete k j) [
      | yes here ↦ rw (← here) (
          ap (λ (r : Proc). r.parent) (proc-modify_self qs k f (omega (arith, b.ids.size))) ∙ sym e)
      | no ne ↦ ap (λ (r : Proc). r.parent) (proc-modify_ne qs k j f ne) ∙ b.parents j (omega arith)
    ];
  }
    where
      f : Proc → Proc
      f r = record r { parent = some p }

      rs : List Proc
      rs = modify qs k f

      child : (j : ℕ) → (proc rs j).child ≡ (proc qs j).child
      child = field-modify qs k f (λ r. r.child) (λ r. refl)

      sister : (j : ℕ) → (proc rs j).sister ≡ (proc qs j).sister
      sister = field-modify qs k f (λ r. r.sister) (λ r. refl)
