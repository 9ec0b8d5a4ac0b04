-- ===== src/Sysv/Tests.antt =====
-- The theorems on the signals of hw7/22-4 for a process that blocks signals 2 and 10.
use nsysu_system_programming.Prelude.{
  ℕ, Bool, ◌≡◌, refl, ◌⊎◌, true, false, ◌||◌, ◌==◌, if◌then◌else◌,
}
use nsysu_system_programming.Sysv.{
  sig_dfl, sig_ign, sig_hold, handler, Process, is_hold, my_sigset, my_sighold, my_sigrelse,
  my_sigignore, my_sigpause,
}
use nsysu_system_programming.Sysv.Main.{got_it, killed, waits, set_up, run_child, run_child-set_up}
use nsysu_system_programming.Sysv.Masks.{my_sigset_lem, my_sighold_lem}

abbrev blocking : Process
blocking = record {
  blocked = λ s. (s == 2) || (s == 10);
  action = λ s. sig_dfl;
  sa_handler = sig_dfl;
}

my_sigset_lem_example :
    ((my_sigset 2 sig_ign blocking).0 ≡ sig_hold)
    × (((is_hold sig_ign ≡ true)
          × ((s : ℕ)
              → ((my_sigset 2 sig_ign blocking).1.blocked s ≡ (blocking.blocked s || (s == 2)))
                × ((my_sigset 2 sig_ign blocking).1.action s ≡ sig_dfl)))
        ⊎ ((is_hold sig_ign ≡ false)
            × ((s : ℕ)
                → ((my_sigset 2 sig_ign blocking).1.blocked s ≡ false)
                  × ((my_sigset 2 sig_ign blocking).1.action s
                      ≡ (if s == 2 then sig_ign else sig_dfl)))))
my_sigset_lem_example = my_sigset_lem 2 sig_ign blocking

my_sighold_lem_run :
    ((my_sighold 3 blocking).blocked 3 ≡ true)
    × ((my_sigrelse 3 blocking).blocked 3 ≡ false)
    × ((blocking.blocked 3 ≡ true) ⊎ ((my_sigrelse 3 (my_sighold 3 blocking)).blocked 3 ≡ false))
    × (my_sigpause 3 blocking 3 ≡ (my_sigrelse 3 blocking).blocked 3)
my_sighold_lem_run = my_sighold_lem 3 3 blocking

-- `my_sigignore` sets the default action.
ignores_nothing : (my_sigignore 2 (record blocking { action = λ s. handler 7 })).action 2 ≡ sig_dfl
unfolding my_sigignore
ignores_nothing = refl

run_child-set_up_run :
    (run_child true (set_up false 7 blocking) ≡ got_it)
    × (run_child false (set_up false 7 blocking) ≡ waits)
    × ((paused : Bool) → run_child paused (set_up true 7 blocking) ≡ killed)
run_child-set_up_run = run_child-set_up 7 blocking refl
