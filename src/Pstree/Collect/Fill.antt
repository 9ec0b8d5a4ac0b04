-- ===== src/Pstree/Collect/Fill.antt =====
-- The table that `GetProcessesDirect` (hw3/part2.c) fills.
use nsysu_system_programming.Prelude.{
  ℕ, ◌≡◌, ◌≢◌, ◌⊎◌, false, Option, none, some, List, [], ◌∷◌, map, ◌==◌, if◌then◌else◌, take, Str,
  ℤ,
}
use nsysu_system_programming.Pstree.Table.{Proc}
use nsysu_system_programming.Pstree.Collect.{Stat, Entry, ask_user}

-- The directories whose two files could be read, with what they hold.
abbrev pub readable : List Entry → List (Stat × List ℕ)
readable [] = []
readable (e ∷ es) = elim e.stat [
  | none ↦ readable es
  | some s ↦ elim e.cmdline [ none ↦ readable es | some bytes ↦ (s, bytes) ∷ readable es ]
]

-- A process as its files tell: its numbers, its user, the command line with a space for each NUL, or the
-- name of `stat` where the command line is empty; and neither linked nor marked.
pub record Tells (getpwuid : ℤ → Option Str) (s : Stat) (bytes : List ℕ) (r : Proc) : Type 0 where
  pub pid : r.pid ≡ s.pid
  pub ppid : r.ppid ≡ s.ppid
  pub pgid : r.pgid ≡ s.pgid
  pub uid : r.uid ≡ s.uid
  pub name :
      (r.name ≡ take 31 (ask_user getpwuid s.uid))
      ⊎ (r.name ≡ take 31 (take 8 (ask_user getpwuid s.uid)))
  pub without_line : bytes ≡ [] → r.cmd ≡ s.comm
  pub with_line : bytes ≢ [] → r.cmd ≡ map (λ b. if b == 0 then 32 else b) (take 8191 bytes)
  pub one_thread : r.thcount ≡ 1
  pub parent : r.parent ≡ none
  pub child : r.child ≡ none
  pub sister : r.sister ≡ none
  pub print : r.print ≡ false

-- One process for each of these directories, in their order.
abbrev pub Filled : (ℤ → Option Str) → List (Stat × List ℕ) → List Proc → Type 0
Filled getpwuid [] [] = Unit
Filled getpwuid [] (r ∷ rs) = ⊥
Filled getpwuid (d ∷ ds) [] = ⊥
Filled getpwuid (d ∷ ds) (r ∷ rs) = Tells getpwuid d.0 d.1 r × Filled getpwuid ds rs
