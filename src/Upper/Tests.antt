-- ===== src/Upper/Tests.antt =====
-- The theorems on the coprocess of hw5 for an input of two bytes and a page of one.
use nsysu_system_programming.Prelude.{
  ◌+◌, ◌*◌, ◌≤◌, ◌≡◌, refl, ◌⊎◌, true, some, [], ◌++◌, arith, length, Str, codes,
}
use nsysu_system_programming.Upper.{
  upper, reading, parent_done, child_reading, System, sys, Mover, the_parent, the_child, step,
  Reach, start, next,
}
use nsysu_system_programming.Upper.Progress.{
  output_of, is_over, measure, output_prefix, output_complete, step_exists, steps, steps_bound,
}

abbrev two_bytes : Str
two_bytes = codes "ab"

first_printed : Reach 1 two_bytes (sys (codes "b") reading child_reading [] [] (codes "A"))
unfolding step
first_printed =
    next the_parent 0
      (next the_child 0
        (next the_child 0 (next the_parent 0 (next the_parent 0 start refl) refl) refl) refl)
      refl

both_printed : Reach 1 two_bytes (sys [] parent_done child_reading [] [] (codes "AB"))
unfolding step
both_printed =
    next the_parent 0
      (next the_parent 0
        (next the_child 0
          (next the_child 0 (next the_parent 0 (next the_parent 5 first_printed refl) refl) refl)
          refl)
        refl)
      refl

output_prefix_run : (way : Str) × (codes "A" ++ way ≡ upper two_bytes)
output_prefix_run =
    output_prefix 1 two_bytes (omega arith)
      (sys (codes "b") reading child_reading [] [] (codes "A")) first_printed

output_complete_example :
    output_of (sys [] parent_done child_reading [] [] (codes "AB")) ≡ upper two_bytes
output_complete_example =
    output_complete 1 two_bytes (omega arith) (sys [] parent_done child_reading [] [] (codes "AB"))
      both_printed refl

step_exists_run :
    (is_over (sys [] parent_done child_reading [] [] (codes "AB")) ≡ true)
    ⊎ ((m : Mover) × (t : System) × (step 1 m 0
            (sys [] parent_done child_reading [] [] (codes "AB"))
          ≡ some t))
step_exists_run =
    step_exists 1 two_bytes (omega arith) (sys [] parent_done child_reading [] [] (codes "AB")) 0
      both_printed

steps_bound_run :
    steps 1 two_bytes (omega arith) both_printed
      + measure (sys [] parent_done child_reading [] [] (codes "AB"))
    ≤ 5 * length two_bytes + 2
steps_bound_run =
    steps_bound 1 two_bytes (omega arith) (sys [] parent_done child_reading [] [] (codes "AB"))
      both_printed
