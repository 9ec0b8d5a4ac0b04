-- ===== src/Popen.antt =====
-- hw5/2/popen.c: `my_popen` and `my_pclose`, over the descriptors and the streams of a process. `pipe`,
-- `fdopen` and `execl` are taken to succeed.
pub mod Table
pub mod Streams
pub mod Calls
pub mod Dropped
pub mod Child
pub mod Runs
pub mod Pages
pub mod Command
mod Tests
use nsysu_system_programming.Popen.Table.{lookup, erase, insert}
use nsysu_system_programming.Prelude.{
  ℕ, zero, suc, Bool, true, false, not, Option, none, some, List, [], ◌∷◌, ◌++◌, ◌==◌,
  if◌then◌else◌, Str, codes,
}

-- What a descriptor stands for.
pub data End : Type 0 where
  other_file : (id : ℕ) → End
  reads_pipe : (id : ℕ) → End
  writes_pipe : (id : ℕ) → End

-- A `FILE`: its descriptor, and what is written to it and not flushed.
pub record Stream : Type 0 where
  pub fd : ℕ
  pub pending : Str

-- A `pid_t` that `fork` gives to the parent.
pub data Pid : Type 0 where
  minus_one : Pid
  pid : (n : ℕ) → Pid

-- The open descriptors and streams of a process, `dict`, and what `fclose` has flushed to where.
pub record Process : Type 0 where
  pub fds : List (ℕ × End)
  pub streams : List (ℕ × Stream)
  pub dict : List (ℕ × Pid)
  pub flushed : List (End × Str)

abbrev pub flush : Option End → Str → List (End × Str)
flush none d = []
flush (some f) [] = []
flush (some f) (c ∷ d) = (f, c ∷ d) ∷ []

abbrev pub closing : ℕ → Process → Option Stream → Option Process
closing fp p none = none
closing fp p (some s) = some (record p {
  fds = erase s.fd p.fds;
  streams = erase fp p.streams;
  flushed = p.flushed ++ flush (lookup s.fd p.fds) s.pending;
})

-- `fclose`; `none` if the stream is not open, where the behaviour is undefined.
unfoldable pub fclose : ℕ → Process → Option Process
fclose fp p = closing fp p (lookup fp p.streams)

abbrev pub and_then : (Process → Option Process) → Option Process → Option Process
and_then f none = none
and_then f (some p) = f p

-- The loop of `drop` over the entries.
unfoldable pub close_all : List (ℕ × Pid) → Process → Option Process
close_all [] p = some p
close_all ((fp, n) ∷ t) p = and_then (close_all t) (fclose fp p)

-- `drop`
unfoldable pub drop : Process → Option Process
drop p = and_then (λ q. some (record q { dict = [] })) (close_all p.dict p)

-- `fd[b]`
abbrev pub end_at : ℕ × ℕ → Bool → ℕ
end_at fd false = fd.0
end_at fd true = fd.1

-- A test as a number.
abbrev pub bit : Bool → ℕ
bit false = 0
bit true = 1

abbrev pub copy_to : ℕ → Option End → List (ℕ × End) → List (ℕ × End)
copy_to b none t = t
copy_to b (some f) t = (b, f) ∷ erase b t

-- `dup2(a, b)`, which does nothing where `a` is not open.
unfoldable pub dup2 : ℕ → ℕ → List (ℕ × End) → List (ℕ × End)
dup2 a b t = copy_to b (lookup a t) t

-- The descriptors of the child after `close(fd[is_write])` and the `if`.
unfoldable pub hook_up : Bool → ℕ × ℕ → List (ℕ × End) → List (ℕ × End)
unfolding dup2
hook_up is_write fd t =
    let mine = end_at fd (not is_write) in
    let rest = erase (end_at fd is_write) t in
    if mine == bit (not is_write) then rest else erase mine (dup2 mine (bit (not is_write)) rest)

-- `pipe(fd)`
abbrev pub with_pipe : (id : ℕ) → ℕ × ℕ → Process → Process
with_pipe id fd p = record p { fds = (fd.0, reads_pipe id) ∷ (fd.1, writes_pipe id) ∷ p.fds }

-- What `fork` gives.
pub data Forked : Type 0 where
  in_child : Forked
  in_parent : Pid → Forked

-- What becomes of the process: another program, the behaviour is undefined, or `my_popen` returns.
pub data Popened : Type 0 where
  executes : (argv : List Str) → Process → Popened
  undefined : Popened
  returns : (fp : ℕ) → Process → Popened

abbrev pub child : Str → Bool → ℕ × ℕ → Option Process → Popened
child command is_write fd none = undefined
child command is_write fd (some p) =
    executes (codes "sh" ∷ codes "-c" ∷ command ∷ []) (record p { fds = hook_up is_write fd p.fds })

-- `my_popen`, where `type` is the first character of the type, and `pipe` gives `fd` and `fdopen`
-- gives `fp`.
unfoldable pub my_popen : Str → (type id : ℕ) → ℕ × ℕ → (fp : ℕ) → Forked → Process → Popened
unfolding hook_up drop
my_popen command type id fd fp in_child p =
    child command (not (type == 114)) fd (drop (with_pipe id fd p))
my_popen command type id fd fp (in_parent n) p =
    let is_write = not (type == 114) in
    returns fp (record p {
      fds = erase (end_at fd (not is_write)) (with_pipe id fd p).fds;
      streams = (fp, record { fd = end_at fd is_write; pending = [] }) ∷ p.streams;
      dict = insert fp n p.dict;
    })

-- The children that are not waited for and their exit statuses, in the order in which they end.
abbrev pub Children : Type 0
Children = List (ℕ × ℕ)

abbrev pub that_child : ℕ → Children → Option ℕ → ℕ × Children
that_child n cs none = (0, cs)
that_child n cs (some status) = (status, erase n cs)

-- A call of `waitpid` that is not interrupted: `pstat`, which stays 0 where there is no such child,
-- and the children that are left. For -1 it takes the child that ends first.
unfoldable pub waitpid : Pid → Children → ℕ × Children
waitpid minus_one [] = (0, [])
waitpid minus_one ((n, status) ∷ cs) = (status, cs)
waitpid (pid n) cs = that_child n cs (lookup n cs)

-- The `do` loop, where a signal interrupts the first `interrupts` calls: these return -1.
unfoldable pub wait_loop : (interrupts : ℕ) → Pid → Children → ℕ × Children
unfolding waitpid
wait_loop zero n cs = waitpid n cs
wait_loop (suc interrupts) n cs = wait_loop interrupts minus_one cs

pub record Closed : Type 0 where
  pub pstat : ℕ
  pub children : Children
  pub process : Process

abbrev pub closed_with : ℕ → ℕ × Children → Option Process → Option Closed
closed_with fp w none = none
closed_with fp w (some p) =
    some (record { pstat = w.0; children = w.1; process = record p { dict = erase fp p.dict } })

abbrev pub pclose_of : ℕ → ℕ → Children → Process → Option Pid → Option Closed
pclose_of fp interrupts cs p none = none
pclose_of fp interrupts cs p (some n) = closed_with fp (wait_loop interrupts n cs) (fclose fp p)

-- `my_pclose`; `none` where the behaviour is undefined: `get_pid` of a stream that `my_popen` did not
-- give, or a stream that is closed.
unfoldable pub my_pclose : (fp interrupts : ℕ) → Children → Process → Option Closed
unfolding wait_loop fclose
my_pclose fp interrupts cs p = pclose_of fp interrupts cs p (lookup fp p.dict)
