-- ===== src/Xfr/Tests.antt =====
-- The theorems on the transfer of hw9/54-1 at an input of two bytes, in one block and then the end.
use mathlib.Core.List.{Memᴰ}
use nsysu_system_programming.Prelude.{
  ℕ, ◌-◌, ◌^◌, ◌≡◌, refl, ◌≢◌, ◌⊎◌, true, false, some, [], ◌∷◌, ◌++◌, arith, Str, negsuc,
}
use nsysu_system_programming.Xfr.Signals.{writer_interrupted, here, reader_stuck}
use nsysu_system_programming.Xfr.{
  taking, finished, failed, checking, writing, complete, stopped, System, goes_on, Step,
  writer_reserves, writer_reads, writer_releases, writer_tests, writer_ends, reader_reserves,
  reader_leaves, reader_counts, reader_writes, reader_releases, reader_ends, init, Reach, start,
  later,
}
use nsysu_system_programming.Xfr.Sems.{done, interrupted, refused, reserve_sem, reserve_sem_lem}
use nsysu_system_programming.Xfr.Safety.{turns_exclusive, output_lem, writer-finished, no_deadlock}

reserve_sem_lem_run :
    (reserve_sem true (interrupted ∷ interrupted ∷ done ∷ []) ≡ reserve_sem true (done ∷ []))
    × (reserve_sem false (interrupted ∷ interrupted ∷ interrupted ∷ done ∷ []) ≡ some (negsuc 0))
    × ((reserve_sem true (done ∷ []) ≢ some (negsuc 0))
        ⊎ ((errno : ℕ) × Memᴰ (refused errno) (done ∷ [])))
reserve_sem_lem_run = reserve_sem_lem 2 (done ∷ [])

abbrev two_bytes : Str
two_bytes = 7 ∷ 8 ∷ []

abbrev Run : Type 0
Run = (s : System) × Reach two_bytes s

abbrev turn_of_writer : Run
turn_of_writer = (_, later start (writer_reserves refl (omega arith)))

-- The block is in the buffer, and the reader has its turn.
abbrev one_block : Run
one_block = (
  _,
  later
      (later
        (later
          (later
            (later turn_of_writer.1 (
              writer_reads 2 refl (omega arith)
                (λ e. absurd (omega arith), λ e. absurd (ground arith))))
            (writer_releases refl))
          (writer_tests refl))
        (reader_reserves refl (omega arith)))
      (reader_counts refl (omega arith)),
)

abbrev returned : Run
returned = (_, later (later one_block.1 (reader_writes refl)) (reader_releases refl))

abbrev at_end : Run
at_end = (
  _,
  later
      (later
        (later
          (later
            (later
              (later
                (later (later returned.1 (writer_reserves refl (omega arith)))
                  (writer_reads 0 refl (omega arith) (λ e. refl, λ e. refl)))
                (writer_releases refl))
              (writer_tests refl))
            (reader_reserves refl (omega arith)))
          (reader_leaves refl refl))
        (reader_ends refl))
      (writer_ends refl (omega arith)),
)

turns_exclusive_run : (turn_of_writer.0.reader ≢ checking) × (turn_of_writer.0.reader ≢ writing)
turns_exclusive_run = turns_exclusive (omega arith) turn_of_writer.1 refl

output_lem_example :
    ((rest : Str) × (at_end.0.output ++ rest ≡ two_bytes))
    × ((at_end.0.reader ≢ complete) ⊎ (at_end.0.output ≡ two_bytes))
output_lem_example = output_lem (omega arith) at_end.1

writer-finished_example :
    (at_end.0.reader ≡ complete) × (at_end.0.output ≡ two_bytes) × (at_end.0.sent ≡ 2)
writer-finished_example = writer-finished (omega arith) at_end.1 refl

no_deadlock_example :
    ((returned.0.writer ≡ finished) × (returned.0.reader ≡ complete))
    ⊎ ((returned.0.writer ≡ failed)
        ⊎ (((n : ℕ) × (returned.0.reader ≡ stopped n)) ⊎ ((t : System) × Step returned.0 t)))
no_deadlock_example = no_deadlock (omega arith) returned.1

-- A block of 1024 bytes behind 2^32 - 1024 ends the writer's loop, although it is not empty.
wraps : goes_on (record (init []) { sent = 2 ^ 32 - 1024; cnt = 1024 }) ≡ false
wraps = refl

reader_stuck_example :
    (writer_interrupted turn_of_writer.0 ≡ writer_interrupted turn_of_writer.0)
    × (turn_of_writer.0.reader ≡ taking)
    × (turn_of_writer.0.read_sem ≡ 0)
reader_stuck_example =
    reader_stuck two_bytes turn_of_writer.0 (writer_interrupted turn_of_writer.0) (omega arith)
      turn_of_writer.1 refl here
