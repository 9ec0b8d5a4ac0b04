-- ===== src/Exam.antt =====
-- The threads of test/3 (`reader` of reader.c, `writer` of writer.c and `main`), which share a buffer
-- and a semaphore. A step is one call or one access; `read` and `write` do not fail.
pub mod Alarm
pub mod Invariant
pub mod Ends
pub mod Progress
pub mod Rounds
mod Tests
use nsysu_system_programming.Prelude.{
  ℕ, zero, suc, ◌-◌, ◌^◌, ◌≡◌, Bool, true, false, Option, none, some, List, [], ◌∷◌, ◌++◌, ltb,
  ◌==◌, if◌then◌else◌, length, take, drop, replicate, Str,
}

-- What the reader passes on: a block that it read, or the end of its input.
pub data Job : Type 0 where
  a_block : Str → Job
  the_end : Job

-- Before `read`; before `sem_getvalue`; after it; before `memcpy`; before `arg->len = `; before
-- `sem_post`; over.
pub data Reader : Type 0 where
  reading : Reader
  testing : Job → Reader
  tested : Job → (is_busy : Bool) → Reader
  storing : Str → Reader
  sizing : Job → Reader
  posting : Job → Reader
  finished : Reader

-- Before `sem_getvalue`; after it; before `len = arg->len`; before `memcpy`; before `write`; before the
-- test of the loop; over.
pub data Writer : Type 0 where
  asking : Writer
  asked : (is_ready : Bool) → Writer
  loading : Writer
  copying : (len : ℕ) → Writer
  writing : Str → Writer
  looping : Writer
  gone : Writer

-- The two threads, the value of the semaphore, `arg->buf` and `arg->len`, the blocks that `read` has
-- yet to give, and what is written.
pub record System : Type 0 where
  pub reader : Reader
  pub writer : Writer
  pub sem : ℕ
  pub buf : Str
  pub len : ℕ
  pub input : List Str
  pub output : Str

pub data Thread : Type 0 where
  the_reader : Thread
  the_writer : Thread

abbrev pub job_size : Job → ℕ
job_size (a_block d) = length d
job_size the_end = 0

-- Behind the `if (is_busy)`.
abbrev pub passes_on : Job → Reader
passes_on (a_block d) = storing d
passes_on the_end = sizing the_end

-- Behind `sem_post`.
abbrev pub after_post : Job → Reader
after_post (a_block d) = reading
after_post the_end = finished

abbrev pub read_step : List Str → System → System
read_step [] s = record s { reader = testing the_end }
read_step (d ∷ ds) s = record s { reader = testing (a_block d); input = ds }

-- `sem_wait`, which blocks while the value is 0.
abbrev pub sem_wait : ℕ → System → Option System
sem_wait zero s = none
sem_wait (suc n) s = some (record s { sem = n })

unfoldable pub reader_step : Reader → System → Option System
reader_step reading s = some (read_step s.input s)
reader_step (testing j) s = some (record s { reader = tested j (ltb 0 s.sem) })
reader_step (tested j true) s = sem_wait s.sem (record s { reader = passes_on j })
reader_step (tested j false) s = some (record s { reader = passes_on j })
reader_step (storing d) s =
    some (record s { reader = sizing (a_block d); buf = d ++ drop (length d) s.buf })
reader_step (sizing j) s = some (record s { reader = posting j; len = job_size j })
reader_step (posting j) s = some (record s { reader = after_post j; sem = suc s.sem })
reader_step finished s = none

unfoldable pub writer_step : Writer → System → Option System
writer_step asking s = some (record s { writer = asked (ltb 0 s.sem) })
writer_step (asked true) s = some (record s { writer = loading })
writer_step (asked false) s = sem_wait s.sem (record s { writer = loading })
writer_step loading s = some (record s { writer = copying s.len })
writer_step (copying n) s = some (record s { writer = writing (take n s.buf) })
writer_step (writing d) s = some (record s { writer = looping; output = s.output ++ d })
writer_step looping s = some (record s { writer = if s.len == 0 then gone else asking })
writer_step gone s = none

unfoldable pub step : Thread → System → Option System
unfolding reader_step writer_step
step the_reader s = reader_step s.reader s
step the_writer s = writer_step s.writer s

-- `main`: the length is -1 at first, and the semaphore 0.
unfoldable pub init : List Str → System
init ds = record {
  reader = reading;
  writer = asking;
  sem = 0;
  buf = replicate 4096 0;
  len = 2 ^ 32 - 1;
  input = ds;
  output = [];
}

abbrev pub run_on : (System → Option System) → Option System → Option System
run_on f none = none
run_on f (some s) = f s

-- The threads move in the order given; `none` if one is to move that cannot.
unfoldable pub run : List Thread → System → Option System
unfolding step
run [] s = some s
run (t ∷ ts) s = run_on (run ts) (step t s)

-- The states that the two can come to.
pub data Reach (ds : List Str) : System → Type 0 where
  start : Reach ds (init ds)
  next : {s t : System} (m : Thread) → Reach ds s → step m s ≡ some t → Reach ds t
