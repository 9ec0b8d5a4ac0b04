-- ===== src/Pstree/Drop.antt =====
-- `DropProcs` of hw3/part2.c: the links pass over the processes that will not be printed.
pub mod Links
pub mod Prune
use nsysu_system_programming.Prelude.{
  ℕ, zero, suc, Bool, true, false, ◌&&◌, Option, none, some, List, if◌then◌else◌, length, pos,
  int_eq,
}
use nsysu_system_programming.Pstree.Table.{Proc, proc, modify}

-- `while (EXIST(link) && !P[link].print) link = P[link].sister;`. The outer option is the fuel's.
pub skip : ℕ → List Proc → Option ℕ → Option (Option ℕ)
skip zero ps link = none
skip (suc fuel) ps none = some none
skip (suc fuel) ps (some c) = elim (proc ps c).print [
  | true ↦ some (some c)
  | false ↦ skip fuel ps (proc ps c).sister
]

-- The loop's body for a process `me` that prints. The sister loop reads the table that already has
-- the new child of `me`.
pub drop_links : ℕ → List Proc → ℕ → Option (List Proc)
drop_links fuel ps me = elim (skip fuel ps (proc ps me).child) [
  | none ↦ none
  | some c ↦
      let qs = modify ps me (λ r. record r { child = c }) in
      elim (skip fuel qs (proc qs me).sister) [
        | none ↦ none
        | some s ↦ some (modify qs me (λ r. record r { sister = s }))
      ]
]

-- `if (roption && P[me].pid == 1) P[me].hidden = TRUE;`
pub hide_root : Bool → List Proc → ℕ → List Proc
hide_root roption ps me =
    if roption && int_eq (proc ps me).pid (pos 1)
    then modify ps me (λ r. record r { hidden = true })
    else ps

pub drop_one : ℕ → Bool → List Proc → ℕ → Option (List Proc)
drop_one fuel roption ps me =
    if (proc ps me).print
    then (elim (drop_links fuel ps me) [ none ↦ none | some qs ↦ some (hide_root roption qs me) ])
    else some ps

-- The loop, with `n` rounds left from `me` on.
pub drop_loop : ℕ → Bool → ℕ → ℕ → List Proc → Option (List Proc)
drop_loop fuel roption zero me ps = some ps
drop_loop fuel roption (suc n) me ps = elim (drop_one fuel roption ps me) [
  | none ↦ none
  | some qs ↦ drop_loop fuel roption n (suc me) qs
]

pub drop_procs : ℕ → Bool → List Proc → Option (List Proc)
drop_procs fuel roption ps = drop_loop fuel roption (length ps) 0 ps
