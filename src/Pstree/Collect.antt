-- ===== src/Pstree/Collect.antt =====
-- `uid2user`, `GetProcessesDirect` and `GetProcesses` of hw3/part2.c: how the table is filled. What
-- the system answers is an argument: `getpwuid`, the files of `/proc`, the lines of the input.
pub mod Names
pub mod Fill
use mathlib.Core.List.{reverse}
use nsysu_system_programming.Prelude.{
  decimal_ℤ, [], ℕ, ◌-◌, Bool, true, false, not, ◌&&◌, Option, none, some, List, ◌∷◌, ◌++◌, map,
  ltb, ◌==◌, if◌then◌else◌, length, take, Str, codes, ℤ, int_eq,
}
use nsysu_system_programming.Pstree.Table.{Proc, blank}
use nsysu_system_programming.Pstree.Print.{fit}

-- `NUMUN`
abbrev pub num_un : ℕ
num_un = 128

-- `un[0 .. n)`, the last entry first, so that the search from the end begins at the head.
abbrev pub Cache : Type 0
Cache = List (ℤ × Str)

pub find_user : Cache → ℤ → Option Str
find_user [] uid = none
find_user ((u, name) ∷ un) uid = if int_eq u uid then some name else find_user un uid

module _ (getpwuid : ℤ → Option Str) where
  -- The name of a user that is not in the cache: 31 bytes of "#uid" fit in `uid_name`.
  unfoldable pub ask_user : ℤ → Str
  unfolding decimal_ℤ fit
  ask_user uid = elim (getpwuid uid) [
    | none ↦ fit 32 (codes "#" ++ decimal_ℤ uid)
    | some name ↦ name
  ]

  -- The name that is found, and the cache afterwards; what the cache keeps of a name is 8 bytes.
  unfoldable pub lookup_user : Cache → ℤ → Str × Cache
  unfolding find_user ask_user
  lookup_user un uid = elim (find_user un uid) [
    | some name ↦ (name, un)
    | none ↦
        (ask_user uid, (if ltb (length un) num_un then (uid, take 8 (ask_user uid)) ∷ un else un))
  ]

  -- With the copy into the caller's `len` bytes.
  unfoldable pub uid2user : Cache → ℤ → ℕ → Str × Cache
  unfolding lookup_user
  uid2user un uid len = let (found, un') = lookup_user un uid in (take (len - 1) found, un')

-- One directory of `/proc`: its `stat` file, if it still opens, and its `cmdline` file.
pub record Stat : Type 0 where
  pub pid : ℤ
  pub comm : Str
  pub ppid : ℤ
  pub pgid : ℤ
  pub uid : ℤ

pub record Entry : Type 0 where
  pub stat : Option Stat
  pub cmdline : Option (List ℕ)

-- The bytes of `cmdline`, a NUL as a space, or the name that `stat` gave if there are none.
unfoldable pub command : Str → List ℕ → Str
command comm [] = comm
command comm (c ∷ cs) = map (λ b. if b == 0 then b' ' else b) (take 8191 (c ∷ cs))

-- An entry of the block that `calloc` gives: its links are 0.
abbrev pub zeroed : Proc
zeroed = record blank { parent = some 0; child = some 0; sister = some 0 }

unfoldable pub direct_proc : Stat → List ℕ → Str → Proc
unfolding command
direct_proc s bytes name = record zeroed {
  uid = s.uid;
  pid = s.pid;
  ppid = s.ppid;
  pgid = s.pgid;
  name = name;
  cmd = command s.comm bytes;
  thcount = 1;
  parent = none;
  child = none;
  sister = none;
  print = false;
}

module _ (getpwuid : ℤ → Option Str) where
  -- The loop, over the directories from the last one of `glob` to the first.
  pub direct_loop : Cache → List Entry → List Proc
  unfolding uid2user direct_proc
  direct_loop un [] = []
  direct_loop un (e ∷ es) = elim e.stat [
    | none ↦ direct_loop un es
    | some s ↦ elim e.cmdline [
      | none ↦ direct_loop un es
      | some bytes ↦
          let (name, un') = uid2user getpwuid un s.uid 32 in
          direct_proc s bytes name ∷ direct_loop un' es
    ]
  ]

  pub get_processes_direct : List Entry → List Proc
  unfolding direct_loop
  get_processes_direct globbed = direct_loop [] (reverse globbed)

-- How `GetProcesses` ends: by `exit(1)`, by an access through the null pointer, by a read of `tn` that
-- is not set, or with the table.
pub data Outcome : Type 0 where
  exited : Outcome
  faulted : Outcome
  undefined : Outcome
  table : List Proc → Outcome

-- The loop that drops the rest of a long line: whether a shorter piece comes before the end of the
-- input, where `strlen` is called with the null pointer of `fgets`.
unfoldable pub skip_line : List Str → Bool
skip_line [] = false
skip_line (l ∷ ls) = let rest = skip_line ls in if length l == 8191 then rest else true

-- A round of the loop up to its guard on the block that `realloc` gives, which no round passes.
abbrev pub on_line : (ℕ → Bool) → Str → List Str → Outcome
on_line realloc l ls =
    if length l == 8191 && not (skip_line ls)
    then faulted
    else if realloc 1
    then exited
    else faulted

-- `GetProcesses` over what `fgets` gives; only for the input "-" is `tn` set.
unfoldable pub get_processes : (is_dash : Bool) → (ℕ → Bool) → List Str → Outcome
unfolding skip_line
get_processes false realloc ls = undefined
get_processes true realloc [] = table []
get_processes true realloc (l ∷ ls) = on_line realloc l ls
