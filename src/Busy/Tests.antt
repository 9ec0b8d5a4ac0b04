-- ===== src/Busy/Tests.antt =====
-- The theorem on the multi-call program of hw4/part1 for one path.
use nsysu_system_programming.Prelude.{◌≡◌, some, [], ◌∷◌, codes}
use nsysu_system_programming.Busy.{prints, busybox, main}
use nsysu_system_programming.Busy.Dispatch.{main_lem}

main_lem_example :
    main [] (codes "/bin/busybox" ∷ []) ≡ some (prints (codes "This is a busybox.\n"))
main_lem_example = main_lem [] (codes "/bin") busybox
