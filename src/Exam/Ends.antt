-- ===== src/Exam/Ends.antt =====
-- How the threads of test/3 come to their ends.
pub mod Reads
pub mod Writes
pub mod Kept
use mathlib.Core.Path.{subst}
use native.Mathlib.Decide.{ℕ_discrete}
use nsysu_system_programming.Prelude.{
  ℕ, zero, suc, ◌<◌, ◌≡◌, refl, true, false, Option, none, some, length, All,
}
use nsysu_system_programming.Exam.{
  Job, a_block, the_end, Reader, reading, testing, tested, storing, sizing, posting, finished,
  Writer, asking, asked, loading, copying, writing, looping, gone, System, Thread, the_reader,
  the_writer, passes_on, read_step, sem_wait, reader_step, writer_step, step, init, Reach, start,
  next,
}

abbrev JobOk : Job → Type 0
JobOk (a_block d) = 0 < length d
JobOk the_end = Unit

-- The length is 0 from the end of the input on, and at no time before.
abbrev pub LenOk : Reader → (len : ℕ) → Type 0
LenOk reading len = 0 < len
LenOk (testing j) len = JobOk j × (0 < len)
LenOk (tested j b) len = JobOk j × (0 < len)
LenOk (storing d) len = (0 < length d) × (0 < len)
LenOk (sizing j) len = JobOk j × (0 < len)
LenOk (posting (a_block d)) len = 0 < len
LenOk (posting the_end) len = len ≡ 0
LenOk finished len = len ≡ 0

-- A writer that is over has seen that.
abbrev pub GoneOk : Writer → (len : ℕ) → Type 0
GoneOk asking len = Unit
GoneOk (asked b) len = Unit
GoneOk loading len = Unit
GoneOk (copying n) len = Unit
GoneOk (writing d) len = Unit
GoneOk looping len = Unit
GoneOk gone len = len ≡ 0

-- What a writer that asks finds once the reader is over.
abbrev pub Posted : Writer → (sem : ℕ) → Type 0
Posted asking sem = 0 < sem
Posted (asked true) sem = Unit
Posted (asked false) sem = 0 < sem
Posted loading sem = Unit
Posted (copying n) sem = Unit
Posted (writing d) sem = Unit
Posted looping sem = Unit
Posted gone sem = Unit

abbrev pub LastPost : Reader → Writer → (sem : ℕ) → Type 0
LastPost reading w sem = Unit
LastPost (testing j) w sem = Unit
LastPost (tested j b) w sem = Unit
LastPost (storing d) w sem = Unit
LastPost (sizing j) w sem = Unit
LastPost (posting j) w sem = Unit
LastPost finished w sem = Posted w sem

pub record Ends (r : Reader) (w : Writer) (s : System) : Type 0 where
  pub len_ok : LenOk r s.len
  pub gone_ok : GoneOk w s.len
  pub last_post : LastPost r w s.sem
  pub some_bytes : All (λ d. 0 < length d) s.input

abbrev pub Keeps : Option System → Type 0
Keeps none = Unit
Keeps (some t) = Ends t.reader t.writer t

pub sem_wait-Keeps :
    (n : ℕ) (s : System)
    → ((k : ℕ) → n ≡ suc k → Ends s.reader s.writer (record s { sem = k }))
    → Keeps (sem_wait n s)
sem_wait-Keeps zero s h = tt
sem_wait-Keeps (suc n) s h =
    let v = h n refl in
    record {
      len_ok = v.len_ok;
      gone_ok = v.gone_ok;
      last_post = v.last_post;
      some_bytes = v.some_bytes;
    }
