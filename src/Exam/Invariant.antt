-- ===== src/Exam/Invariant.antt =====
-- The semaphore and the buffer of test/3 in every order of the steps.
pub mod Reads
pub mod Writes
pub mod Kept
use mathlib.Core.Path.{subst}
use nsysu_system_programming.Prelude.{
  ℕ, zero, suc, ◌≤◌, ◌<◌, ◌≡◌, refl, true, false, Option, none, some, length, All,
}
use nsysu_system_programming.Exam.{
  Job, a_block, the_end, Reader, reading, testing, tested, storing, sizing, posting, finished,
  Writer, asking, asked, loading, copying, writing, looping, gone, System, Thread, the_reader,
  the_writer, job_size, passes_on, after_post, read_step, sem_wait, reader_step, writer_step, step,
  init, Reach, start, next,
}

-- While the reader passes on a job the semaphore is 0, and the length is set before it posts.
abbrev pub ReaderOk : Reader → (sem len : ℕ) → Type 0
ReaderOk reading sem len = Unit
ReaderOk (testing j) sem len = job_size j ≤ 4096
ReaderOk (tested j true) sem len = job_size j ≤ 4096
ReaderOk (tested j false) sem len = (job_size j ≤ 4096) × (sem ≡ 0)
ReaderOk (storing d) sem len = (length d ≤ 4096) × (sem ≡ 0)
ReaderOk (sizing j) sem len = (job_size j ≤ 4096) × (sem ≡ 0)
ReaderOk (posting j) sem len = (len ≤ 4096) × (sem ≡ 0)
ReaderOk finished sem len = Unit

-- The lengths that the writer uses.
abbrev pub WriterOk : Writer → (len : ℕ) → Type 0
WriterOk asking len = Unit
WriterOk (asked true) len = len ≤ 4096
WriterOk (asked false) len = Unit
WriterOk loading len = len ≤ 4096
WriterOk (copying n) len = n ≤ 4096
WriterOk (writing d) len = Unit
WriterOk looping len = Unit
WriterOk gone len = Unit

pub record Holds (r : Reader) (w : Writer) (s : System) : Type 0 where
  pub one : s.sem ≤ 1
  pub sized : 0 < s.sem → s.len ≤ 4096
  pub by_reader : ReaderOk r s.sem s.len
  pub by_writer : WriterOk w s.len
  pub blocks : All (λ d. length d ≤ 4096) s.input
  pub whole : length s.buf ≡ 4096

abbrev pub Keeps : Option System → Type 0
Keeps none = Unit
Keeps (some t) = Holds t.reader t.writer t

pub sem_wait-Keeps :
    (n : ℕ) (s : System)
    → ((k : ℕ) → n ≡ suc k → Holds s.reader s.writer (record s { sem = k }))
    → Keeps (sem_wait n s)
sem_wait-Keeps zero s h = tt
sem_wait-Keeps (suc n) s h =
    let v = h n refl in
    record {
      one = v.one;
      sized = v.sized;
      by_reader = v.by_reader;
      by_writer = v.by_writer;
      blocks = v.blocks;
      whole = v.whole;
    }
