-- ===== src/Speed/Tests.antt =====
-- The theorems on the two processes of hw7/22-3 for one round.
use nsysu_system_programming.Prelude.{◌<◌, ◌≡◌, refl, ◌⊎◌, false}
use nsysu_system_programming.Speed.{
  killing, suspended, exited, sys, the_child, the_parent, step, Reach, start, next,
}
use nsysu_system_programming.Speed.Run.{steps, Moves, rounds_lem, any_pending, signals_kept}

half_way : Reach 1 (sys (suspended 0) (killing 0) false false)
unfolding step
half_way = next the_parent (next the_child start refl) refl

rounds_lem_example :
    ((sys (suspended 0) (killing 0) false false ≡ sys exited exited false false)
      × (steps 1 half_way ≡ 4))
    ⊎ ((steps 1 half_way < 4) × Moves 1 (sys (suspended 0) (killing 0) false false))
rounds_lem_example = rounds_lem 1 (sys (suspended 0) (killing 0) false false) half_way

signals_kept_example : any_pending 1 (sys (suspended 0) (killing 0) false false) ≡ false
signals_kept_example =
    signals_kept 1 (sys (suspended 0) (killing 0) false false) the_parent half_way refl
