-- ===== src/Xfr/Invariant.antt =====
-- What holds at every turn of the transfer of hw9/54-1. One of the two semaphores and the two programs
-- has the turn, and the bytes are in the output, in the buffer, or still in the input.
use nsysu_system_programming.Prelude.{
  ℕ, zero, suc, ◌+◌, ◌≡◌, refl, ◌≢◌, ◌⊎◌, Bool, true, false, [], ◌++◌, arith, if◌then◌else◌, length,
  take, drop, Str,
}
use nsysu_system_programming.Xfr.{
  Writer, reserving, reading, releasing, testing, waiting, finished, failed, Reader, taking,
  checking, writing, returning, leaving, complete, stopped, System, init,
}

-- The turns that a program has.
abbrev pub writer_has : Writer → ℕ
writer_has reserving = 0
writer_has reading = 1
writer_has releasing = 1
writer_has testing = 0
writer_has waiting = 0
writer_has finished = 1
writer_has failed = 1

abbrev pub reader_has : Reader → ℕ
reader_has taking = 0
reader_has checking = 1
reader_has writing = 1
reader_has returning = 1
reader_has leaving = 1
reader_has complete = 0
reader_has (stopped n) = 1

-- The reader has seen the empty block.
abbrev pub reader_over : Reader → Bool
reader_over leaving = true
reader_over complete = true
reader_over _ = false

abbrev pub writer_late : Writer → Bool
writer_late testing = true
writer_late waiting = true
writer_late finished = true
writer_late _ = false

abbrev pub writer_over : Writer → Bool
writer_over waiting = true
writer_over finished = true
writer_over _ = false

-- The buffer has a block that the reader has not written out whole.
abbrev pub is_full : Writer → ℕ → Reader → Bool
is_full releasing r p = true
is_full w (suc r) p = true
is_full w zero checking = true
is_full w zero writing = true
is_full w zero (stopped n) = true
is_full w zero _ = false

-- The bytes of the block that have not come out.
abbrev pub in_flight : System → Str
in_flight s =
    if is_full s.writer s.read_sem s.reader
    then (elim s.reader [ stopped n ↦ drop n (take s.cnt s.buf) | _ ↦ take s.cnt s.buf ])
    else []

-- The bytes of the block that the writer has not counted.
abbrev pub uncounted : Writer → ℕ → ℕ
uncounted releasing n = n
uncounted testing n = n
uncounted _ n = 0

pub record Inv (whole : Str) (s : System) : Type 0 where
  pub turn : s.write_sem + s.read_sem + writer_has s.writer + reader_has s.reader ≡ 1
  pub data_kept : s.output ++ (in_flight s ++ s.input) ≡ whole
  pub counted :
      s.writer ≢ failed → s.sent + uncounted s.writer s.cnt + length s.input ≡ length whole
  pub block : s.reader ≡ writing → s.cnt ≢ 0
  pub last_block : is_full s.writer s.read_sem s.reader ≡ true → s.cnt ≡ 0 → s.input ≡ []
  pub over :
      reader_over s.reader ≡ true
      → (writer_late s.writer ≡ true) × (s.read_sem ≡ 0) × (s.cnt ≡ 0) × (s.input ≡ [])
  pub again : s.writer ≡ reserving → is_full s.writer s.read_sem s.reader ≡ true → s.cnt ≢ 0
  pub late :
      writer_late s.writer ≡ true
      → (is_full s.writer s.read_sem s.reader ≡ true)
        ⊎ ((reader_over s.reader ≡ true) ⊎ (s.cnt ≢ 0))
  pub ended : writer_over s.writer ≡ true → s.cnt ≡ 0

pub init-Inv : (whole : Str) → Inv whole (init whole)
init-Inv whole = record {
  turn = omega arith;
  data_kept = refl;
  counted = λ no_fail. omega arith;
  block = λ e. absurd (ground arith);
  last_block = λ e. absurd (ground arith);
  over = λ e. absurd (ground arith);
  again = λ e f. absurd (ground arith);
  late = λ e. absurd (ground arith);
  ended = λ e. absurd (ground arith);
}
