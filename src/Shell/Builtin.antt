-- ===== src/Shell/Builtin.antt =====
-- The commands of hw4/part2/builtin.c that the shell runs itself. The host is what the system calls
-- tell; a call that gives NULL where the code reads on is `undefined`.
pub mod Lookup
use nsysu_system_programming.Prelude.{
  ℕ, zero, suc, ◌+◌, ◌&&◌, Option, none, some, List, [], ◌∷◌, ◌++◌, leb, ◌==◌, if◌then◌else◌,
  length, get_elem?, get_or, drop, Str, codes, str_eq, ℤ, pos, negsuc, decimal, decimal, atoi,
}
use nsysu_system_programming.Shell.Args.{arg_list}

-- What a command of the shell itself does.
pub data Effect : Type 0 where
  printed : Str → Effect
  change_dir : Str → Effect
  exits : Effect
  undefined : Effect

-- What the system calls of the commands give.
pub record Host : Type 0 where
  pub cwd : Str
  pub host_name : Str
  pub uid : ℕ
  pub gid : ℕ
  pub user_name : Str
  pub group_name : Str

pub data Inbuilt : Type 0 where
  builtin : Inbuilt
  echo : Inbuilt
  quit : Inbuilt
  exit : Inbuilt
  bye : Inbuilt
  logout : Inbuilt
  cd : Inbuilt
  pwd : Inbuilt
  hostname : Inbuilt
  id : Inbuilt

-- The table without the pair of NULLs at its end.
abbrev pub inbuilts : List (Str × Inbuilt)
inbuilts =
    (codes "builtin", builtin)
    ∷ (codes "echo", echo)
    ∷ (codes "quit", quit)
    ∷ (codes "exit", exit)
    ∷ (codes "bye", bye)
    ∷ (codes "logout", logout)
    ∷ (codes "cd", cd)
    ∷ (codes "pwd", pwd)
    ∷ (codes "hostname", hostname)
    ∷ (codes "id", id)
    ∷ []

-- The loop over the table up to the first keyword that is this text.
abbrev pub find_keyword {ℓ} : {A : Type ℓ} → List (Str × A) → Str → Option A
find_keyword [] word = none
find_keyword ((keyword, do_it) ∷ toc) word =
    let further = find_keyword toc word in if str_eq keyword word then some do_it else further

-- The entry that `this` is left at, if there is one. A list of commands is never empty here, and Turn
-- comes here only with a first command whose arguments fit the block of `getArgs`.
unfoldable pub is_builtin : (blank : Str) → List Str → Option Inbuilt
is_builtin blank cmd = find_keyword inbuilts (get_or (arg_list blank (get_or cmd 0 [])) 0 [])

abbrev pub bi_builtin : (blank : Str) → List Str → Effect
bi_builtin blank argv = elim (get_elem? argv 1) [
  | none ↦ undefined
  | some word ↦ elim (is_builtin blank (drop 1 argv)) [
    | none ↦ printed (word ++ codes " is NOT a builtin feature.\n")
    | some entry ↦ printed (word ++ codes " is a builtin feature.\n")
  ]
]

-- The argument behind the name of the directory is joined to a copy that nothing reads, of 4096 bytes.
abbrev pub bi_cd : Host → List Str → Effect
bi_cd host argv = elim (get_elem? argv 1) [
  | none ↦ undefined
  | some arg ↦
      if (get_or arg 0 0 == b'.') && leb 4096 (length host.cwd + length arg)
      then undefined
      else change_dir arg
]

abbrev pub lines : List Str → Str
lines [] = []
lines (a ∷ argv) = a ++ (10 ∷ lines argv)

-- `puts(argv[i])`
abbrev pub puts_arg : List Str → ℕ → Effect
puts_arg argv i = elim (get_elem? argv i) [ none ↦ undefined | some a ↦ printed (a ++ (10 ∷ [])) ]

-- `puts(argv[2 + n_value])`
abbrev pub puts_nth : List Str → ℤ → Effect
puts_nth argv (pos n) = puts_arg argv (2 + n)
puts_nth argv (negsuc zero) = puts_arg argv 1
puts_nth argv (negsuc (suc zero)) = puts_arg argv 0
puts_nth argv (negsuc (suc (suc n))) = undefined

-- The arguments behind `-n`.
unfoldable pub echo_nth : List Str → Effect
unfolding atoi
echo_nth argv = elim (get_elem? argv 2) [ none ↦ undefined | some n ↦ puts_nth argv (atoi n) ]

unfoldable pub bi_echo : List Str → Effect
unfolding echo_nth
bi_echo argv = elim (get_elem? argv 1) [
  | none ↦ printed []
  | some a ↦ if str_eq a (codes "-n") then echo_nth argv else printed (lines (drop 1 argv))
]

abbrev pub bi_hostname : Host → Effect
bi_hostname host = printed (codes "hostname: " ++ host.host_name ++ codes "\n")

abbrev pub bi_id : Host → Effect
unfolding decimal
bi_id host = printed (
    codes "UserID = "
    ++ decimal host.uid
    ++ codes "("
    ++ host.user_name
    ++ codes "), GroupID = "
    ++ decimal host.gid
    ++ codes "("
    ++ host.group_name
    ++ codes ")\n")

abbrev pub bi_pwd : Host → Effect
bi_pwd host = printed (host.cwd ++ codes "\n")

-- `this->do_it`
unfoldable pub do_it : (blank : Str) → Host → Inbuilt → List Str → Effect
unfolding bi_echo bi_id
do_it blank host builtin argv = bi_builtin blank argv
do_it blank host echo argv = bi_echo argv
do_it blank host quit argv = exits
do_it blank host exit argv = exits
do_it blank host bye argv = exits
do_it blank host logout argv = exits
do_it blank host cd argv = bi_cd host argv
do_it blank host pwd argv = bi_pwd host
do_it blank host hostname argv = bi_hostname host
do_it blank host id argv = bi_id host

unfoldable pub do_builtin : (blank : Str) → Host → Inbuilt → List Str → Effect
unfolding do_it
do_builtin blank host this argv = do_it blank host this (arg_list blank (get_or argv 0 []))
