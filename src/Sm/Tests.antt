-- ===== src/Sm/Tests.antt =====
-- The theorem on the copy of hw9/49-1 for one file of two bytes.
use nsysu_system_programming.Prelude.{◌≡◌, refl, none, some, [], Str, codes}
use nsysu_system_programming.Sm.{Files, put, copy_main}
use nsysu_system_programming.Sm.Copied.{copy_main_lem}

abbrev one_file : Files
one_file = put (λ name. none) (codes "a") (codes "hi")

copy_main_lem_example :
    (after : Files) × (copy_main one_file (codes "a") (codes "b") ≡ some (after, []))
    × ((other : Str) → after other ≡ put one_file (codes "b") (codes "hi") other)
copy_main_lem_example = copy_main_lem (codes "a") (codes "b") (codes "hi") one_file refl
