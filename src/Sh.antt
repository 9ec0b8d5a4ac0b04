-- ===== src/Sh.antt =====
-- The first shell, of hw2. `parse` is not in the repository and is a parameter; so is what the system
-- makes of `fork` and `waitpid`.
pub mod Background
mod Tests
use nsysu_system_programming.Prelude.{
  ℕ, zero, suc, ◌+◌, Bool, true, false, ◌&&◌, Option, none, some, List, [], ◌∷◌, ◌++◌, leb, ◌==◌,
  if◌then◌else◌, length, get_elem?, get_or, drop, Str, codes, str_eq, ℤ, pos, negsuc, decimal,
  decimal, atoi, fgets,
}
use nsysu_system_programming.Shell.Builtin.{
  Effect, printed, change_dir, exits, undefined, find_keyword,
}

pub data Inbuilt : Type 0 where
  bye : Inbuilt
  logout : Inbuilt
  exit : Inbuilt
  quit : Inbuilt
  echo : Inbuilt
  cd : Inbuilt

-- The table without the pair of NULLs at its end.
abbrev pub inbuilts : List (Str × Inbuilt)
inbuilts =
    (codes "bye", bye)
    ∷ (codes "logout", logout)
    ∷ (codes "exit", exit)
    ∷ (codes "quit", quit)
    ∷ (codes "echo", echo)
    ∷ (codes "cd", cd)
    ∷ []

-- The entry that `this` is left at.
unfoldable pub is_builtin : Str → Option Inbuilt
is_builtin cmd = find_keyword inbuilts cmd

abbrev pub lines : List Str → Str
lines [] = []
lines (a ∷ argv) = a ++ (10 ∷ lines argv)

-- `puts(argv[i])`
abbrev pub puts_arg : List Str → ℕ → Effect
puts_arg argv i = elim (get_elem? argv i) [ none ↦ undefined | some a ↦ printed (a ++ (10 ∷ [])) ]

-- `puts(argv[2 + n_value])`
abbrev pub puts_nth : List Str → ℤ → Effect
puts_nth argv (pos n) = puts_arg argv (2 + n)
puts_nth argv (negsuc zero) = puts_arg argv 1
puts_nth argv (negsuc (suc zero)) = puts_arg argv 0
puts_nth argv (negsuc (suc (suc n))) = undefined

-- The arguments behind `-n`.
unfoldable pub echo_nth : List Str → Effect
unfolding atoi
echo_nth argv = elim (get_elem? argv 2) [ none ↦ undefined | some n ↦ puts_nth argv (atoi n) ]

unfoldable pub bi_echo : List Str → Effect
unfolding echo_nth
bi_echo argv = elim (get_elem? argv 1) [
  | none ↦ printed []
  | some a ↦ if str_eq a (codes "-n") then echo_nth argv else printed (lines (drop 1 argv))
]

-- The name is joined to a copy of the working directory that nothing reads, of 4096 bytes.
abbrev pub bi_chdir : (cwd : Str) → List Str → Effect
bi_chdir cwd argv = elim (get_elem? argv 1) [
  | none ↦ undefined
  | some arg ↦
      if (get_or arg 0 0 == b'.') && leb 4096 (length cwd + length arg)
      then undefined
      else change_dir arg
]

-- `this->do_it(argv)`
unfoldable pub do_builtin : (cwd : Str) → Inbuilt → List Str → Effect
unfolding bi_echo
do_builtin cwd bye argv = exits
do_builtin cwd logout argv = exits
do_builtin cwd exit argv = exits
do_builtin cwd quit argv = exits
do_builtin cwd echo argv = bi_echo argv
do_builtin cwd cd argv = bi_chdir cwd argv

-- Whether the loop stops before the NULL.
unfoldable pub is_background : List Str → Bool
is_background [] = false
is_background (a ∷ argv) =
    let later = is_background argv in if str_eq a (codes "&") then true else later

-- What a `waitpid` tells.
pub data Report : Type 0 where
  failed : Report
  exited : Report
  signaled : ℕ → Report
  stopped : ℕ → Report
  continued : Report

-- The loop of `_parent_wait` is over: with what it printed, or with the exit of the shell.
pub record Waited : Type 0 where
  pub text : Str
  pub shell_exits : Bool

abbrev pub behind : Str → Option Waited → Option Waited
behind s none = none
behind s (some w) = some (record w { text = s ++ w.text })

-- On the reports to come; `none` while the loop waits for another one.
unfoldable pub parent_wait : List Report → Option Waited
unfolding decimal
parent_wait [] = none
parent_wait (failed ∷ reports) = some (record { text = []; shell_exits = true })
parent_wait (exited ∷ reports) = some (record { text = []; shell_exits = false })
parent_wait (signaled n ∷ reports) =
    some
      (record { text = codes "killed by signal " ++ decimal n ++ codes "\n"; shell_exits = false })
parent_wait (stopped n ∷ reports) =
    behind (codes "stopped by signal " ++ decimal n ++ codes "\n") (parent_wait reports)
parent_wait (continued ∷ reports) = behind (codes "continued\n") (parent_wait reports)

-- The arguments without the last one.
abbrev pub drop_last : List Str → List Str
drop_last [] = []
drop_last (a ∷ []) = []
drop_last (a ∷ b ∷ argv) = a ∷ drop_last (b ∷ argv)

pub data Run : Type 0 where
  no_fork : Run
  in_background : (argv : List Str) → Run
  in_foreground : (argv : List Str) → Option Waited → Run

-- From whether the arguments ask for the background.
abbrev pub start : Bool → List Str → List Report → Run
start true argv reports = in_background (drop_last argv)
start false argv reports = in_foreground argv (parent_wait reports)

-- `forked` is `none` if `fork` fails, and otherwise the reports on the child.
unfoldable pub run_command : (forked : Option (List Report)) → List Str → Run
unfolding is_background parent_wait
run_command none argv = no_fork
run_command (some reports) argv = start (is_background argv) argv reports

-- What the shell does with one line.
pub data Turn : Type 0 where
  end_of_input : Turn
  nothing : Turn
  no_command : Turn
  inbuilt : Effect → Turn
  ran : Run → Turn

abbrev pub command_turn : (cwd : Str) → Option (List Report) → List Str → Option Inbuilt → Turn
command_turn cwd forked argv none = ran (run_command forked argv)
command_turn cwd forked argv (some this) = inbuilt (do_builtin cwd this argv)

abbrev pub argv_turn : (cwd : Str) → Option (List Report) → Option (List Str) → Turn
argv_turn cwd forked none = nothing
argv_turn cwd forked (some []) = no_command
argv_turn cwd forked (some (name ∷ argv)) = command_turn cwd forked (name ∷ argv) (is_builtin name)

-- The condition and the body of the loop of `main`, and the input that is left.
unfoldable pub turn :
    (parse : Str → Option (List Str)) (cwd : Str) → Option (List Report) → Str → Turn × Str
unfolding fgets
turn parse cwd forked [] = (end_of_input, [])
turn parse cwd forked (c ∷ input) =
    let (line, rest) = fgets 254 (c ∷ input) in (argv_turn cwd forked (parse line), rest)
