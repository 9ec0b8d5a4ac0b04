-- ===== src/Exam/Invariant/Reads.antt =====
-- The steps of the reader of test/3 on the semaphore and the buffer.
use mathlib.Core.Path.{subst}
use nsysu_system_programming.Prelude.{
  ℕ, zero, suc, ◌≤◌, ◌≡◌, refl, sym, true, false, some, List, [], ◌∷◌, arith, ltb, length, drop,
  All, length-append, length-drop, Str,
}
use nsysu_system_programming.Exam.{
  Job, a_block, the_end, Reader, reading, testing, tested, storing, sizing, posting, finished,
  Writer, asking, asked, loading, copying, writing, looping, gone, System, job_size, passes_on,
  after_post, read_step, reader_step,
}
use nsysu_system_programming.Exam.Invariant.{Holds, ReaderOk, WriterOk, Keeps, sem_wait-Keeps}

-- Another length that fits suits the writer too.
WriterOk-sized : (w : Writer) (len other : ℕ) → WriterOk w len → other ≤ 4096 → WriterOk w other
WriterOk-sized asking len other h k = tt
WriterOk-sized (asked true) len other h k = k
WriterOk-sized (asked false) len other h k = tt
WriterOk-sized loading len other h k = k
WriterOk-sized (copying n) len other h k = h
WriterOk-sized (writing d) len other h k = tt
WriterOk-sized looping len other h k = tt
WriterOk-sized gone len other h k = tt

ReaderOk-passes_on :
    (j : Job) (sem len : ℕ) → job_size j ≤ 4096 → sem ≡ 0 → ReaderOk (passes_on j) sem len
ReaderOk-passes_on (a_block d) sem len h k = (h, k)
ReaderOk-passes_on the_end sem len h k = (h, k)

ReaderOk-after_post : (j : Job) (sem len : ℕ) → ReaderOk (after_post j) sem len
ReaderOk-after_post (a_block d) sem len = tt
ReaderOk-after_post the_end sem len = tt

read_step-Holds :
    (ds : List Str) (s : System)
    → ds ≡ s.input
    → Holds reading s.writer s
    → Keeps (some (read_step ds s))
read_step-Holds [] s e v = record {
  one = v.one;
  sized = v.sized;
  by_reader = omega arith;
  by_writer = v.by_writer;
  blocks = v.blocks;
  whole = v.whole;
}
read_step-Holds (d ∷ ds) s e v =
    let fits = subst (All (λ d. length d ≤ 4096)) (sym e) v.blocks in
    record {
      one = v.one;
      sized = v.sized;
      by_reader = fits.0;
      by_writer = v.by_writer;
      blocks = fits.1;
      whole = v.whole;
    }

tested-ReaderOk :
    (j : Job) (sem len : ℕ) → job_size j ≤ 4096 → ReaderOk (tested j (ltb 0 sem)) sem len
tested-ReaderOk j zero len h = (h, refl)
tested-ReaderOk j (suc sem) len h =
    let busy : true ≡ ltb 0 (suc sem) = ground arith in
    subst (λ b. ReaderOk (tested j b) (suc sem) len) busy h

pub reader_step-Holds : (r : Reader) (s : System) → Holds r s.writer s → Keeps (reader_step r s)
unfolding reader_step
reader_step-Holds reading s v = read_step-Holds s.input s refl v
reader_step-Holds (testing j) s v = record {
  one = v.one;
  sized = v.sized;
  by_reader = tested-ReaderOk j s.sem s.len v.by_reader;
  by_writer = v.by_writer;
  blocks = v.blocks;
  whole = v.whole;
}
reader_step-Holds (tested j true) s v =
    sem_wait-Keeps s.sem (record s { reader = passes_on j })
      (λ k e. record {
        one = omega (arith, v.one);
        sized = λ h. v.sized (omega arith);
        by_reader = ReaderOk-passes_on j k s.len v.by_reader (omega (arith, v.one));
        by_writer = v.by_writer;
        blocks = v.blocks;
        whole = v.whole;
      })
reader_step-Holds (tested j false) s v = record {
  one = v.one;
  sized = v.sized;
  by_reader = ReaderOk-passes_on j s.sem s.len v.by_reader.0 v.by_reader.1;
  by_writer = v.by_writer;
  blocks = v.blocks;
  whole = v.whole;
}
reader_step-Holds (storing d) s v = record {
  one = v.one;
  sized = v.sized;
  by_reader = v.by_reader;
  by_writer = v.by_writer;
  blocks = v.blocks;
  whole = omega (
    arith,
    length-append d (drop (length d) s.buf),
    length-drop (length d) s.buf,
    v.whole,
    v.by_reader.0,
  );
}
reader_step-Holds (sizing j) s v = record {
  one = v.one;
  sized = λ h. v.by_reader.0;
  by_reader = v.by_reader;
  by_writer = WriterOk-sized s.writer s.len (job_size j) v.by_writer v.by_reader.0;
  blocks = v.blocks;
  whole = v.whole;
}
reader_step-Holds (posting j) s v = record {
  one = omega (arith, v.by_reader.1);
  sized = λ h. v.by_reader.0;
  by_reader = ReaderOk-after_post j (suc s.sem) s.len;
  by_writer = v.by_writer;
  blocks = v.blocks;
  whole = v.whole;
}
reader_step-Holds finished s v = tt
