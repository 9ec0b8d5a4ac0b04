-- ===== src/Exam/Invariant/Kept.antt =====
-- What holds of the semaphore and the buffer in every state that the threads of test/3 reach.
use mathlib.Core.Path.{subst}
use nsysu_system_programming.Prelude.{ℕ, ◌≤◌, List, arith, length, All, length-replicate, Str}
use nsysu_system_programming.Exam.{
  System, Thread, the_reader, the_writer, step, init, Reach, start, next,
}
use nsysu_system_programming.Exam.Invariant.{Holds, Keeps}
use nsysu_system_programming.Exam.Invariant.Reads.{reader_step-Holds}
use nsysu_system_programming.Exam.Invariant.Writes.{writer_step-Holds}

step-Holds : (m : Thread) (s : System) → Holds s.reader s.writer s → Keeps (step m s)
unfolding step
step-Holds the_reader s v = reader_step-Holds s.reader s v
step-Holds the_writer s v = writer_step-Holds s.writer s v

pub Reach-Holds :
    (ds : List Str) (s : System)
    → All (λ d. length d ≤ 4096) ds
    → Reach ds s
    → Holds s.reader s.writer s
unfolding init
Reach-Holds ds s fits start = record {
  one = omega arith;
  sized = λ h. absurd (omega arith);
  by_reader = tt;
  by_writer = tt;
  blocks = fits;
  whole = length-replicate {A = ℕ} 4096 0;
}
Reach-Holds ds s fits (next {s = before} m r e) =
    subst Keeps e (step-Holds m before (Reach-Holds ds before fits r))
