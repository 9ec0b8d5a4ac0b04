-- ===== src/Pstree/Root.antt =====
-- `GetRootPid` and `get_pid_index` of hw3/part2.c: the searches of the process table.
pub mod Search
use nsysu_system_programming.Prelude.{
  [], ℕ, zero, suc, Bool, Option, none, some, List, ◌∷◌, ℤ, pos, negsuc, int_eq, length,
  if◌then◌else◌,
}
use nsysu_system_programming.Pstree.Table.{Proc, proc}

-- One of the loops of `GetRootPid`: the pid of the first process that passes the test.
pub first_pid : (Proc → Bool) → List Proc → Option ℤ
first_pid test [] = none
first_pid test (p ∷ ps) = if test p then some p.pid else first_pid test ps

-- The answer of a loop, or what the loops after it answer.
abbrev pub or_else : Option ℤ → ℤ → ℤ
or_else none d = d
or_else (some a) d = a

pub get_root_pid : List Proc → ℤ
unfolding first_pid
get_root_pid ps = or_else (first_pid (λ p. int_eq p.pid (pos 1)) ps) (
    or_else (first_pid (λ p. int_eq p.ppid (pos 0)) ps) (
      or_else (first_pid (λ p. int_eq p.ppid (pos 1)) ps)
        (or_else (first_pid (λ p. int_eq p.pid p.ppid) ps) (negsuc 0))))

-- The loop of `get_pid_index` with `me` entries still to be looked at, from the top one down.
pub search_down : List Proc → ℕ → ℤ → Option ℕ
search_down ps zero pid = none
search_down ps (suc me) pid = if int_eq (proc ps me).pid pid then some me else search_down ps me pid

-- `none` is the result -1.
unfoldable pub get_pid_index : List Proc → ℤ → Option ℕ
unfolding search_down
get_pid_index ps pid = search_down ps (length ps) pid
