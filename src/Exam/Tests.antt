-- ===== src/Exam/Tests.antt =====
-- Runs of the threads of test/3 and of the alarm of test/1, and the theorems about them at concrete
-- inputs.
use nsysu_system_programming.Prelude.{
  ℕ, zero, suc, ◌≤◌, ◌≡◌, refl, ◌⊎◌, true, false, Option, none, some, List, [], ◌∷◌, arith, length,
  Str, codes,
}
use nsysu_system_programming.Exam.Alarm.{my_alarm}
use nsysu_system_programming.Exam.Rounds.{turns, turns_lem}
use nsysu_system_programming.Exam.Progress.{asked_for, bounds_lem, Moves, Deadlock, stops_lem}
use nsysu_system_programming.Exam.{
  a_block, Reader, reading, testing, tested, finished, Writer, asking, asked, gone, System, Thread,
  the_reader, the_writer, reader_step, writer_step, step, init, run, Reach, start, next,
}

abbrev two_blocks : List Str
two_blocks = codes "ab" ∷ codes "c" ∷ []

turns_lem_example :
    (t : System) × (run (turns two_blocks) (init two_blocks) ≡ some t)
    × (t.output ≡ codes "abc")
    × (t.reader ≡ finished)
    × (t.writer ≡ gone)
turns_lem_example = turns_lem two_blocks (omega arith, (omega arith, tt))

read_one : System
read_one = record (init two_blocks) {
  reader = testing (a_block (codes "ab"));
  input = codes "c" ∷ [];
}

read_one-Reach : Reach two_blocks read_one
unfolding init step reader_step read_one
read_one-Reach = next the_reader start refl

bounds_lem_example :
    (read_one.sem ≤ 1)
    × (length read_one.buf ≡ 4096)
    × (asked_for read_one.writer ≤ length read_one.buf)
bounds_lem_example = bounds_lem two_blocks read_one (omega arith, (omega arith, tt)) read_one-Reach

stops_lem_example :
    Moves read_one
    ⊎ (((read_one.reader ≡ finished) × (read_one.writer ≡ gone))
        ⊎ (Deadlock read_one
            × (step the_reader read_one ≡ none)
            × (step the_writer read_one ≡ none)))
stops_lem_example = stops_lem two_blocks read_one (omega arith, (omega arith, tt)) read_one-Reach

abbrev outcome : Option System → Option (Reader × Writer × Str)
outcome none = none
outcome (some s) = some (s.reader, s.writer, s.output)

abbrev times : ℕ → Thread → List Thread → List Thread
times zero t ts = ts
times (suc n) t ts = t ∷ times n t ts

-- The reader takes the semaphore back and stores the second block over the first one, which is lost.
lost_block :
    outcome (
      run
        (times 12 the_reader (times 6 the_writer (times 5 the_reader (times 6 the_writer []))))
        (init two_blocks))
    ≡ some (finished, gone, codes "c")
unfolding run step reader_step writer_step init
lost_block = refl

-- The writer finds the semaphore ready, does not take it, and writes the same block again.
written_twice :
    outcome (run (times 6 the_reader (times 12 the_writer [])) (init two_blocks))
    ≡ some (reading, asking, codes "abab")
unfolding run step reader_step writer_step init
written_twice = refl

-- Both wait for the semaphore.
deadlock_run :
    outcome (run (the_writer ∷ times 8 the_reader (times 6 the_writer [])) (init two_blocks))
    ≡ some (tested (a_block (codes "c")) true, asked false, codes "ab")
unfolding run step reader_step writer_step init
deadlock_run = refl

-- Four seconds are asked for while two are left.
alarm_run :
    my_alarm 4 (record { interval_sec = 0; interval_usec = 0; value_sec = 2; value_usec = 0 })
    ≡ (0, record { interval_sec = 0; interval_usec = 0; value_sec = 6; value_usec = 0 })
unfolding my_alarm
alarm_run = refl
