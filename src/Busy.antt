-- ===== src/Busy.antt =====
-- The multi-call program of hw4/part1: what main.c runs by the name that it was called by, and the
-- commands of lib.c as what they print or hand to the shell.
pub mod Dispatch
mod Tests
use nsysu_system_programming.Prelude.{
  ◌+◌, Option, none, some, List, [], ◌∷◌, ◌++◌, ◌==◌, if◌then◌else◌, length, take, Str, codes,
}
use nsysu_system_programming.Shell.Builtin.{find_keyword}

-- What a command does: it prints, hands a command line to `system`, or copies the bytes of a child's
-- output.
pub data Effect : Type 0 where
  prints : Str → Effect
  runs : (printed command : Str) → Effect
  copies : (child : List Str) → Effect
  fails : Effect

pub data Command : Type 0 where
  hostinfo : Command
  mydate : Command
  printdir : Command
  pipe_ls : Command
  mycat : Command
  busybox : Command

-- `busybox`
abbrev pub table : List (Str × Command)
table =
    (codes "hostinfo", hostinfo)
    ∷ (codes "mydate", mydate)
    ∷ (codes "printdir", printdir)
    ∷ (codes "pipe_ls", pipe_ls)
    ∷ (codes "mycat", mycat)
    ∷ (codes "busybox", busybox)
    ∷ []

-- The part of a path behind its last slash, behind the bytes `cur` since the last one.
abbrev pub last_part : (cur : Str) → Str → Str
last_part cur [] = cur
last_part cur (c ∷ path) =
    let fresh = last_part [] path in
    let longer = last_part (cur ++ (c ∷ [])) path in if c == b'/' then fresh else longer

-- `basename`, of a path that does not end in a slash.
unfoldable pub basename : Str → Str
basename path = last_part [] path

abbrev pub do_it : (cwd : Str) → Command → Effect
do_it cwd hostinfo =
    runs (codes "hostname: ") (codes "hostname;uname -r; echo -n \"hostid: \"; hostid")
do_it cwd mydate = runs [] (codes "date \"+%b %d(%a), %Y %l:%M %p\"")
do_it cwd printdir = prints (cwd ++ codes "\n")
do_it cwd pipe_ls = copies (codes "ls" ∷ codes "-al" ∷ [])
do_it cwd mycat = fails
do_it cwd busybox = prints (codes "This is a busybox.\n")

abbrev pub run_found : (cwd : Str) → Option Command → Option Effect
run_found cwd none = none
run_found cwd (some command) = some (do_it cwd command)

-- The loop stops at the first name that is the base name; `none` is nothing done.
unfoldable pub do_busybox : (cwd : Str) → Str → Option Effect
unfolding basename
do_busybox cwd name = run_found cwd (find_keyword table (basename name))

-- `mycat` of lib.c: the block holds the command and its NUL, so `snprintf` cuts nothing.
abbrev pub cat_file : Str → Effect
cat_file arg = runs [] (take (length arg + 4) (codes "cat " ++ arg))

-- `main`
unfoldable pub main : (cwd : Str) → List Str → Option Effect
unfolding do_busybox
main cwd [] = some fails
main cwd (name ∷ []) = do_busybox cwd name
main cwd (name ∷ arg ∷ []) = some (cat_file arg)
main cwd (name ∷ arg ∷ more ∷ argv) = some fails

-- The loop of `pipe_ls`, one byte at a time.
unfoldable pub copy_loop : (output input : Str) → Str
copy_loop output [] = output
copy_loop output (c ∷ input) = copy_loop (output ++ (c ∷ [])) input
