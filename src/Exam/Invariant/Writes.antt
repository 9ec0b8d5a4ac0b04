-- ===== src/Exam/Invariant/Writes.antt =====
-- The steps of the writer of test/3 on the semaphore and the buffer.
use mathlib.Core.Path.{subst}
use nsysu_system_programming.Prelude.{
  ℕ, zero, suc, ◌≤◌, ◌<◌, ◌≡◌, true, false, arith, ltb, ◌==◌, if_keeps,
}
use nsysu_system_programming.Exam.{
  Reader, reading, testing, tested, storing, sizing, posting, finished, Writer, asking, asked,
  loading, copying, writing, looping, gone, System, writer_step,
}
use nsysu_system_programming.Exam.Invariant.{Holds, ReaderOk, WriterOk, Keeps, sem_wait-Keeps}

-- The writer takes the semaphore only while the reader does not pass on a job.
ReaderOk-taken : (r : Reader) (n len : ℕ) → ReaderOk r (suc n) len → ReaderOk r n len
ReaderOk-taken reading n len h = tt
ReaderOk-taken (testing j) n len h = h
ReaderOk-taken (tested j true) n len h = h
ReaderOk-taken (tested j false) n len h = absurd (omega (arith, h.1))
ReaderOk-taken (storing d) n len h = absurd (omega (arith, h.1))
ReaderOk-taken (sizing j) n len h = absurd (omega (arith, h.1))
ReaderOk-taken (posting j) n len h = absurd (omega (arith, h.1))
ReaderOk-taken finished n len h = tt

asked-WriterOk : (sem len : ℕ) → (0 < sem → len ≤ 4096) → WriterOk (asked (ltb 0 sem)) len
asked-WriterOk zero len h = tt
asked-WriterOk (suc sem) len h =
    let ready : true ≡ ltb 0 (suc sem) = ground arith in
    subst (λ b. WriterOk (asked b) len) ready (h (omega arith))

pub writer_step-Holds : (w : Writer) (s : System) → Holds s.reader w s → Keeps (writer_step w s)
unfolding writer_step
writer_step-Holds asking s v = record {
  one = v.one;
  sized = v.sized;
  by_reader = v.by_reader;
  by_writer = asked-WriterOk s.sem s.len v.sized;
  blocks = v.blocks;
  whole = v.whole;
}
writer_step-Holds (asked true) s v = record {
  one = v.one;
  sized = v.sized;
  by_reader = v.by_reader;
  by_writer = v.by_writer;
  blocks = v.blocks;
  whole = v.whole;
}
writer_step-Holds (asked false) s v =
    sem_wait-Keeps s.sem (record s { writer = loading })
      (λ k e. record {
        one = omega (arith, v.one);
        sized = λ h. v.sized (omega arith);
        by_reader =
            ReaderOk-taken s.reader k s.len (subst (λ n. ReaderOk s.reader n s.len) e v.by_reader);
        by_writer = v.sized (omega arith);
        blocks = v.blocks;
        whole = v.whole;
      })
writer_step-Holds loading s v = record {
  one = v.one;
  sized = v.sized;
  by_reader = v.by_reader;
  by_writer = v.by_writer;
  blocks = v.blocks;
  whole = v.whole;
}
writer_step-Holds (copying n) s v = record {
  one = v.one;
  sized = v.sized;
  by_reader = v.by_reader;
  by_writer = tt;
  blocks = v.blocks;
  whole = v.whole;
}
writer_step-Holds (writing d) s v = record {
  one = v.one;
  sized = v.sized;
  by_reader = v.by_reader;
  by_writer = tt;
  blocks = v.blocks;
  whole = v.whole;
}
writer_step-Holds looping s v = record {
  one = v.one;
  sized = v.sized;
  by_reader = v.by_reader;
  by_writer = if_keeps (λ w. WriterOk w s.len) (s.len == 0) tt tt;
  blocks = v.blocks;
  whole = v.whole;
}
writer_step-Holds gone s v = tt
