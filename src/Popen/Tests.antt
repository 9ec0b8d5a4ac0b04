-- ===== src/Popen/Tests.antt =====
-- Runs of hw5/2, and the theorems about it at concrete inputs.
use nsysu_system_programming.Prelude.{
  none, ◌≤◌, ℕ, ◌*◌, ◌<◌, ◌≡◌, refl, true, false, some, [], ◌∷◌, ◌++◌, arith, length, replicate,
  length-replicate, Str, codes, none_ne_some,
}
use nsysu_system_programming.Popen.Table.{lookup, erase, insert, Distinct}
use nsysu_system_programming.Popen.Streams.{Named, IsValid}
use nsysu_system_programming.Popen.Calls.{Fresh, opened, opened-IsValid}
use nsysu_system_programming.Popen.Child.{HookedUp, my_popen-in_child}
use nsysu_system_programming.Popen.Runs.{start, popen, Reach-IsValid, my_pclose-my_popen}
use nsysu_system_programming.Popen.Command.{page_size, spaced, read_command, read_command_lem}
use nsysu_system_programming.Popen.{
  other_file, Process, minus_one, pid, in_child, executes, my_popen, my_pclose, wait_loop, waitpid,
  fclose,
}

abbrev begins : Process
begins = record {
  fds = (0, other_file 0) ∷ (1, other_file 1) ∷ (2, other_file 2) ∷ [];
  streams = [];
  dict = [];
  flushed = [];
}

begins-IsValid : IsValid begins
unfolding lookup Distinct
begins-IsValid = record {
  streams_ok = record {
    open_fd = λ k s e. absurd (none_ne_some e);
    apart = λ k j s t e f same. absurd (none_ne_some e);
  };
  once = tt;
  known = λ k n e. absurd (none_ne_some e);
}

-- One stream that a command writes to is open.
abbrev one_open : Process
one_open = opened true 7 (3, 4) 100 (pid 50) begins

begins-Fresh : Fresh (3, 4) 100 begins
unfolding lookup
begins-Fresh = record { two = ground arith; read_free = refl; write_free = refl; fp_free = refl }

one_open-Fresh : Fresh (5, 6) 200 one_open
unfolding lookup erase
one_open-Fresh = record { two = ground arith; read_free = refl; write_free = refl; fp_free = refl }

one_open-IsValid : IsValid one_open
one_open-IsValid = opened-IsValid true 7 (3, 4) 100 (pid 50) begins begins-Fresh begins-IsValid

begins-Named : Named begins
unfolding lookup
begins-Named k s e = absurd (none_ne_some e)

Reach-IsValid_example : IsValid one_open × Named one_open
unfolding my_popen
Reach-IsValid_example =
    Reach-IsValid begins one_open
      (popen (codes "cat") 119 7 (3, 4) 100 (pid 50) start begins-Fresh refl) begins-IsValid
      begins-Named

my_popen-in_child_example :
    (q : Process) × (my_popen (codes "ls") 114 8 (5, 6) 200 in_child one_open
      ≡ executes (codes "sh" ∷ codes "-c" ∷ codes "ls" ∷ []) q)
    × HookedUp false 8 (5, 6) one_open q
my_popen-in_child_example =
    my_popen-in_child (codes "ls") 114 8 (5, 6) 200 one_open one_open-Fresh one_open-IsValid

-- Child 50 ends before child 60, and the waiting for child 60 is interrupted.
my_pclose-my_popen_example :
    (my_pclose 200 0 ((50, 1) ∷ (60, 0) ∷ []) (opened false 8 (5, 6) 200 (pid 60) one_open)
      ≡ some (record { pstat = 0; children = (50, 1) ∷ []; process = one_open }))
    × (my_pclose 200 1 ((50, 1) ∷ (60, 0) ∷ []) (opened false 8 (5, 6) 200 (pid 60) one_open)
        ≡ some (record { pstat = 1; children = (60, 0) ∷ []; process = one_open }))
unfolding my_popen lookup erase
my_pclose-my_popen_example =
    my_pclose-my_popen (codes "ls") 114 8 (5, 6) 200 60 0 0 (50, 1) ((60, 0) ∷ []) one_open
      (opened false 8 (5, 6) 200 (pid 60) one_open) one_open-Fresh one_open-IsValid refl refl

read_command_lem_example :
    (length (codes "ls" ++ spaced (codes "-l" ∷ [])) < page_size
      → (filling : Str) × (pages : ℕ) × (next : Str) × (read_command
            (codes "ls")
            (codes "-l" ∷ [])
            (codes "total 0")
            (replicate 4096 0)
          ≡ some (codes "ls" ++ spaced (codes "-l" ∷ []), some (codes "total 0" ++ filling, next)))
        × (length filling < page_size)
        × (length (codes "total 0" ++ filling) ≡ pages * page_size)
        × (length next ≡ page_size))
    × (page_size ≤ length (codes "ls" ++ spaced (codes "-l" ∷ []))
        → read_command (codes "ls") (codes "-l" ∷ []) (codes "total 0") (replicate 4096 0) ≡ none)
    × (read_command (codes "ls") [] (codes "total 0") (replicate 4096 0) ≡ none)
read_command_lem_example =
    read_command_lem (codes "ls") (codes "-l") [] (codes "total 0") (replicate 4096 0) (omega arith)
      (length-replicate {A = ℕ} 4096 0)

-- After a `fork` that failed, `my_pclose` waits for a child that is not its own.
failed_fork-waits :
    my_pclose 100 0 ((50, 1) ∷ []) (opened true 7 (3, 4) 100 minus_one begins)
    ≡ some (record { pstat = 1; children = []; process = begins })
unfolding my_pclose wait_loop waitpid fclose lookup erase insert
failed_fork-waits = refl
