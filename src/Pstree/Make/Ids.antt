-- ===== src/Pstree/Make/Ids.antt =====
-- `MakeTree` leaves the pids alone, so the parent that it finds for a process is that of the table
-- at the start.
use nsysu_system_programming.Prelude.{ℕ, ◌<◌, ◌≡◌, ◌∙◌, ◌≢◌, some, List, arith, length}
use nsysu_system_programming.Pstree.Table.{Proc, proc, modify, length-modify, field-modify}
use nsysu_system_programming.Pstree.Root.Search.{get_pid_index-cong, get_pid_index-found}
use nsysu_system_programming.Pstree.Make.{parent_of}

-- The same processes: `qs` differs from `ps` in the links and marks alone.
pub record SameIds (ps qs : List Proc) : Type 0 where
  pub size : length qs ≡ length ps
  pub pid : (i : ℕ) → (proc qs i).pid ≡ (proc ps i).pid
  pub ppid : (i : ℕ) → (proc qs i).ppid ≡ (proc ps i).ppid

pub parent_of-SameIds :
    {ps qs : List Proc} → SameIds ps qs → (i : ℕ) → parent_of qs i ≡ parent_of ps i
unfolding parent_of
parent_of-SameIds {ps} {qs} s i =
    rw (get_pid_index-cong ps qs (proc qs i).ppid s.size s.pid, s.ppid i, parent_of)

-- A valid parent is an index of the table, and another process.
pub parent_of-some :
    (ps : List Proc) (i p : ℕ)
    → parent_of ps i ≡ some p
    → (p < length ps) × (p ≢ i) × ((proc ps p).pid ≡ (proc ps i).ppid)
unfolding parent_of
parent_of-some ps i p h = ground (arith, get_pid_index-found ps (proc ps i).ppid p 0)

pub SameIds-modify :
    {ps qs : List Proc} (i : ℕ) (f : Proc → Proc)
    → ((r : Proc) → ((f r).pid ≡ r.pid) × ((f r).ppid ≡ r.ppid))
    → SameIds ps qs
    → SameIds ps (modify qs i f)
SameIds-modify {ps} {qs} i f keep s = record {
  size = rw length-modify s.size;
  pid = λ j. field-modify qs i f (λ r. r.pid) (λ r. (keep r).0) j ∙ s.pid j;
  ppid = λ j. field-modify qs i f (λ r. r.ppid) (λ r. (keep r).1) j ∙ s.ppid j;
}
