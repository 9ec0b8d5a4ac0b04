-- ===== src/Sh/Tests.antt =====
-- The theorems on the first shell at small commands.
use nsysu_system_programming.Prelude.{
  ◌≡◌, ◌≢◌, ◌⊎◌, false, none, some, [], ◌∷◌, All, codes, decimal, decimal,
}
use nsysu_system_programming.Sh.{
  exited, signaled, continued, parent_wait, in_background, in_foreground, run_command,
}
use nsysu_system_programming.Sh.Background.{ampersand, Asks, run_command_lem, parent_wait_lem}

run_command_lem_example :
    (All (λ w. w ≢ ampersand) (codes "ls" ∷ codes "&" ∷ codes "-l" ∷ [])
      × (run_command (some []) (codes "ls" ∷ codes "&" ∷ codes "-l" ∷ [])
          ≡ in_foreground (codes "ls" ∷ codes "&" ∷ codes "-l" ∷ []) (parent_wait [])))
    ⊎ (Asks (codes "ls" ∷ codes "&" ∷ codes "-l" ∷ [])
        × (run_command (some []) (codes "ls" ∷ codes "&" ∷ codes "-l" ∷ [])
            ≡ in_background (codes "ls" ∷ codes "&" ∷ [])))
run_command_lem_example = run_command_lem [] (codes "ls" ∷ codes "&" ∷ []) (codes "-l")

parent_wait_lem_example :
    (parent_wait (continued ∷ []) ≡ none)
    × (parent_wait (continued ∷ signaled 9 ∷ exited ∷ [])
        ≡ some (record { text = codes "continued\nkilled by signal 9\n"; shell_exits = false }))
unfolding decimal
parent_wait_lem_example =
    parent_wait_lem (continued ∷ []) (exited ∷ []) (signaled 9) (tt, tt) (λ q. q)
