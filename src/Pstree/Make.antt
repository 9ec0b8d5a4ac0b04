-- ===== src/Pstree/Make.antt =====
-- `MakeTree` of hw3/part2.c: every process marks itself as the first child of its parent, or as the
-- sister of the last child so far. A walk along the sisters takes fuel, and `none` is a walk that
-- does not end.
pub mod Ids
pub mod Kids
pub mod Half
pub mod Step
pub mod Build
use nsysu_system_programming.Prelude.{
  ℕ, zero, suc, Option, none, some, List, ◌==◌, if◌then◌else◌, length,
}
use nsysu_system_programming.Pstree.Table.{Proc, proc, modify}
use nsysu_system_programming.Pstree.Root.{get_pid_index}

-- `for (sister = i; EXIST(P[sister].sister); sister = P[sister].sister);`
pub last_sister : ℕ → List Proc → ℕ → Option ℕ
last_sister zero ps i = none
last_sister (suc fuel) ps i = elim (proc ps i).sister [
  | none ↦ some i
  | some j ↦ last_sister fuel ps j
]

-- `parent != me && parent != -1`: the valid parent of `me`, if there is one.
pub parent_of : List Proc → ℕ → Option ℕ
unfolding get_pid_index
parent_of ps me = elim (get_pid_index ps (proc ps me).ppid) [
  | none ↦ none
  | some p ↦ if p == me then none else some p
]

-- `me` becomes the first child of `p`, or the sister of the last child.
pub link_child : List Proc → ℕ → ℕ → Option (List Proc)
unfolding last_sister modify
link_child ps me p = elim (proc ps p).child [
  | none ↦ some (modify ps p (λ r. record r { child = some me }))
  | some c ↦ elim (last_sister (length ps) ps c) [
    | none ↦ none
    | some s ↦ some (modify ps s (λ r. record r { sister = some me }))
  ]
]

-- The body of the loop for a process `me` with a valid parent.
pub adopt : List Proc → ℕ → ℕ → Option (List Proc)
unfolding link_child
adopt ps me p = link_child (modify ps me (λ r. record r { parent = some p })) me p

pub make_step : List Proc → ℕ → Option (List Proc)
unfolding parent_of adopt
make_step ps me = elim (parent_of ps me) [ none ↦ some ps | some p ↦ adopt ps me p ]

-- The loop, with `n` rounds left from `me` on.
pub make_loop : ℕ → ℕ → List Proc → Option (List Proc)
unfolding make_step
make_loop zero me ps = some ps
make_loop (suc n) me ps = elim (make_step ps me) [ none ↦ none | some qs ↦ make_loop n (suc me) qs ]

unfoldable pub make_tree : List Proc → Option (List Proc)
unfolding make_loop
make_tree ps = make_loop (length ps) 0 ps
