-- ===== src/Pstree/Make/Build.antt =====
-- `MakeTree` (hw3/part2.c) ends, and leaves every process linked to its children in table order.
use native.Mathlib.Decide.{dec_lt}
use nsysu_system_programming.Prelude.{
  ℕ, zero, suc, ◌+◌, ◌≤◌, ◌≡◌, refl, ◌⊎◌, inl, inr, some, List, arith, length,
}
use mathlib.Core.Path.{subst}
use nsysu_system_programming.Pstree.Table.{Proc, proc}
use nsysu_system_programming.Pstree.Make.{parent_of, make_loop, make_tree}
use nsysu_system_programming.Pstree.Make.Ids.{SameIds}
use nsysu_system_programming.Pstree.Make.Kids.{kids, Chain}
use nsysu_system_programming.Pstree.Make.Half.{IsUnlinked, Built, Built-zero}
use nsysu_system_programming.Pstree.Make.Step.{make_step_lem}

make_loop_lem :
    (ps : List Proc) (n k : ℕ) (qs : List Proc)
    → k + n ≡ length ps
    → Built ps k qs
    → (rs : List Proc) × (make_loop n k qs ≡ some rs) × Built ps (length ps) rs
unfolding make_loop
make_loop_lem ps zero k qs e b =
    let here : k ≡ length ps = omega arith in (qs, refl, subst (λ m. Built ps m qs) here b)
make_loop_lem ps (suc n) k qs e b =
    let (rs, step, built) = make_step_lem ps k (omega arith) b in
    let (ts, rest, done) = make_loop_lem ps n (suc k) rs (omega arith) built in
    (ts, rw (step, make_loop) rest, done)

-- On a table without links `MakeTree` ends, changes no pid, and for every process the walk from its
-- first child along the sisters visits exactly the processes whose valid parent it is, in table
-- order; every process has its valid parent as its parent.
pub make_tree_lem :
    (ps : List Proc)
    → IsUnlinked ps
    → (qs : List Proc) × (make_tree ps ≡ some qs)
      × SameIds ps qs
      × ((p : ℕ) → Chain qs (proc qs p).child (kids ps p (length ps)))
      × ((i : ℕ) → (length ps ≤ i) ⊎ ((proc qs i).parent ≡ parent_of ps i))
unfolding make_tree
make_tree_lem ps u =
    let (qs, e, b) = make_loop_lem ps (length ps) 0 ps (omega arith) (Built-zero ps u) in
    (
      qs,
      e,
      b.ids,
      b.chains,
      λ i. elim (dec_lt i (length ps)) [
        | yes lt ↦ inr (b.parents i lt)
        | no out ↦ inl (omega arith)
      ],
    )
