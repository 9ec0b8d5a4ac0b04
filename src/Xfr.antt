-- ===== src/Xfr.antt =====
-- The transfer of a stream through shared memory of hw9/54-1: svshm_xfr_writer.c and
-- svshm_xfr_reader.c, which take turns by the two semaphores of binary_sems.c.
pub mod Sems
pub mod Invariant
pub mod WriterMoves
pub mod ReaderMoves
pub mod Safety
pub mod Signals
mod Tests
use nsysu_system_programming.Prelude.{
  ℕ, ◌+◌, ◌-◌, ◌%◌, ◌^◌, ◌≤◌, ◌<◌, min, ◌≡◌, ◌≢◌, ◌↔◌, Bool, not, ◌&&◌, [], ◌++◌, ◌==◌,
  if◌then◌else◌, length, take, drop, replicate, Str,
}

abbrev pub buf_size : ℕ
buf_size = 1024

-- Where the writer is: before `reserveSem(WRITE_SEM)`, `read`, `releaseSem(READ_SEM)`, the loop's
-- condition, the last `reserveSem`, at its end, or stopped by `errExit` after a failed `read`.
pub data Writer : Type 0 where
  reserving : Writer
  reading : Writer
  releasing : Writer
  testing : Writer
  waiting : Writer
  finished : Writer
  failed : Writer

-- Where the reader is: before `reserveSem(READ_SEM)`, the test for the end, `write`,
-- `releaseSem(WRITE_SEM)` in the loop or behind it, at its end, or stopped by `fatal` after a
-- `write` of `n` bytes only.
pub data Reader : Type 0 where
  taking : Reader
  checking : Reader
  writing : Reader
  returning : Reader
  leaving : Reader
  complete : Reader
  stopped : (n : ℕ) → Reader

-- The semaphores, the segment `shmp` (`cnt` as a word), both programs, and what is left of the one's
-- standard input and has come out at the other's standard output. `sent` and `received` are the
-- words of the two variables `bytes`.
pub record System : Type 0 where
  pub write_sem : ℕ
  pub read_sem : ℕ
  pub cnt : ℕ
  pub buf : Str
  pub writer : Writer
  pub reader : Reader
  pub sent : ℕ
  pub received : ℕ
  pub input : Str
  pub output : Str

-- `bytes += shmp->cnt`
abbrev pub add_word : ℕ → ℕ → ℕ
add_word a b = (a + b) % 2 ^ 32

-- The condition of the writer's loop, `shmp->cnt && (++xfrs, bytes += shmp->cnt)`.
abbrev pub goes_on : System → Bool
goes_on s = not (s.cnt == 0) && not (add_word s.sent s.cnt == 0)

-- The state after the loop's condition: the addition is made only for a block that is not empty.
abbrev pub test : System → System
test s = if s.cnt == 0 then record s { writer = waiting } else record s {
  writer = if goes_on s then reserving else waiting;
  sent = add_word s.sent s.cnt;
}

-- What `read` of `n` bytes leaves: `n` is the count that it gives.
abbrev pub fill : ℕ → System → System
fill n s = record s {
  writer = releasing;
  cnt = n;
  buf = take n s.input ++ drop n s.buf;
  input = drop n s.input;
}

pub data Step (s : System) : System → Type 0 where
  writer_reserves :
      s.writer ≡ reserving
      → 0 < s.write_sem
      → Step s (record s { writer = reading; write_sem = s.write_sem - 1 })
  writer_reads :
      (n : ℕ)
      → s.writer ≡ reading
      → n ≤ min buf_size (length s.input)
      → (n ≡ 0) ↔ (s.input ≡ [])
      → Step s (fill n s)
  read_fails : s.writer ≡ reading → Step s (record s { writer = failed; cnt = 2 ^ 32 - 1 })
  writer_releases :
      s.writer ≡ releasing → Step s (record s { writer = testing; read_sem = s.read_sem + 1 })
  writer_tests : s.writer ≡ testing → Step s (test s)
  writer_ends :
      s.writer ≡ waiting
      → 0 < s.write_sem
      → Step s (record s { writer = finished; write_sem = s.write_sem - 1 })
  reader_reserves :
      s.reader ≡ taking
      → 0 < s.read_sem
      → Step s (record s { reader = checking; read_sem = s.read_sem - 1 })
  reader_leaves : s.reader ≡ checking → s.cnt ≡ 0 → Step s (record s { reader = leaving })
  reader_counts :
      s.reader ≡ checking
      → s.cnt ≢ 0
      → Step s (record s { reader = writing; received = add_word s.received s.cnt })
  reader_writes :
      s.reader ≡ writing
      → Step s (record s { reader = returning; output = s.output ++ take s.cnt s.buf })
  write_fails :
      (n : ℕ)
      → s.reader ≡ writing
      → n < s.cnt
      → Step s (record s { reader = stopped n; output = s.output ++ take n (take s.cnt s.buf) })
  reader_releases :
      s.reader ≡ returning → Step s (record s { reader = taking; write_sem = s.write_sem + 1 })
  reader_ends :
      s.reader ≡ leaving → Step s (record s { reader = complete; write_sem = s.write_sem + 1 })

-- The writer has made the semaphores, and both stand before their loops.
abbrev pub init : Str → System
init input = record {
  write_sem = 1;
  read_sem = 0;
  cnt = 0;
  buf = replicate 1024 0;
  writer = reserving;
  reader = taking;
  sent = 0;
  received = 0;
  input = input;
  output = [];
}

pub data Reach (input : Str) : System → Type 0 where
  start : Reach input (init input)
  later : {s t : System} → Reach input s → Step s t → Reach input t
