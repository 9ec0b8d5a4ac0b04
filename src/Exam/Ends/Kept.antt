-- ===== src/Exam/Ends/Kept.antt =====
-- What holds of the ends in every state that the threads of test/3 reach.
use mathlib.Core.Path.{subst}
use nsysu_system_programming.Prelude.{◌<◌, List, arith, length, All, Str}
use nsysu_system_programming.Exam.{
  System, Thread, the_reader, the_writer, step, init, Reach, start, next,
}
use nsysu_system_programming.Exam.Ends.{Ends, Keeps}
use nsysu_system_programming.Exam.Ends.Reads.{reader_step-Ends}
use nsysu_system_programming.Exam.Ends.Writes.{writer_step-Ends}

step-Ends : (m : Thread) (s : System) → Ends s.reader s.writer s → Keeps (step m s)
unfolding step
step-Ends the_reader s v = reader_step-Ends s.reader s v
step-Ends the_writer s v = writer_step-Ends s.writer s v

pub Reach-Ends :
    (ds : List Str) (s : System)
    → All (λ d. 0 < length d) ds
    → Reach ds s
    → Ends s.reader s.writer s
unfolding init
Reach-Ends ds s bytes start = record {
  len_ok = omega arith;
  gone_ok = tt;
  last_post = tt;
  some_bytes = bytes;
}
Reach-Ends ds s bytes (next {s = before} m r e) =
    subst Keeps e (step-Ends m before (Reach-Ends ds before bytes r))
