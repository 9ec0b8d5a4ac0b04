-- ===== src/Xfr/Signals.antt =====
-- The handlers of SIGINT and SIGSEGV in hw9/54-1, and what is left for the other program.
use mathlib.Core.Path.{subst}
use nsysu_system_programming.Prelude.{
  ◌+◌, ◌^◌, ◌<◌, ◌≡◌, refl, sym, ap, ◌∙◌, inl, inr, true, false, arith, Bool-cases, length, Str,
}
use nsysu_system_programming.Xfr.{
  reading, waiting, finished, failed, Reader, taking, checking, writing, returning, leaving,
  complete, stopped, System, Step, writer_reserves, writer_reads, read_fails, writer_releases,
  writer_tests, writer_ends, reader_reserves, reader_leaves, reader_counts, reader_writes,
  write_fails, reader_releases, reader_ends, Reach,
}
use nsysu_system_programming.Xfr.Invariant.{writer_has, reader_has, reader_over, writer_late, Inv}
use nsysu_system_programming.Xfr.Safety.{Reach-Inv}

-- `__clean_shmid` of the writer: it gives WRITE_SEM back, whether it has it or not, and is over.
abbrev pub writer_interrupted : System → System
writer_interrupted s = record s { writer = failed; write_sem = s.write_sem + 1 }

-- `__clean_shmid` of the reader, which gives WRITE_SEM too.
abbrev pub reader_interrupted : System → System
reader_interrupted s = record s { reader = stopped 0; write_sem = s.write_sem + 1 }

-- The states that follow on one.
pub data Later (s : System) : System → Type 0 where
  here : Later s s
  after : {t u : System} → Later s t → Step t u → Later s u

-- The reader waits for READ_SEM, and the writer is over.
record Waits (out : Str) (t : System) : Type 0 where
  writer_over : t.writer ≡ failed
  reader_waits : t.reader ≡ taking
  no_turn : t.read_sem ≡ 0
  output : t.output ≡ out

no_step : {out : Str} {t u : System} → Waits out t → Step t u → ⊥
no_step w (writer_reserves at free) = ground (arith, w.writer_over, at)
no_step w (writer_reads n at fits eof) = ground (arith, w.writer_over, at)
no_step w (read_fails at) = ground (arith, w.writer_over, at)
no_step w (writer_releases at) = ground (arith, w.writer_over, at)
no_step w (writer_tests at) = ground (arith, w.writer_over, at)
no_step w (writer_ends at free) = ground (arith, w.writer_over, at)
no_step w (reader_reserves at free) = omega (arith, w.no_turn, free)
no_step w (reader_leaves at none_left) = ground (arith, w.reader_waits, at)
no_step w (reader_counts at some_left) = ground (arith, w.reader_waits, at)
no_step w (reader_writes at) = ground (arith, w.reader_waits, at)
no_step w (write_fails n at short) = ground (arith, w.reader_waits, at)
no_step w (reader_releases at) = ground (arith, w.reader_waits, at)
no_step w (reader_ends at) = ground (arith, w.reader_waits, at)

-- A reader that has no turn and is not over waits for one.
waits_for_turn : (r : Reader) → reader_has r ≡ 0 → reader_over r ≡ false → r ≡ taking
waits_for_turn taking h k = refl
waits_for_turn checking h k = absurd (omega arith)
waits_for_turn writing h k = absurd (omega arith)
waits_for_turn returning h k = absurd (omega arith)
waits_for_turn leaving h k = absurd (omega arith)
waits_for_turn complete h k = absurd (ground arith)
waits_for_turn (stopped n) h k = absurd (omega arith)

interrupted-Waits :
    {whole : Str} {s : System}
    → Inv whole s
    → s.writer ≡ reading
    → Waits s.output (writer_interrupted s)
interrupted-Waits {s = s} inv at =
    let has_turn : writer_has s.writer ≡ 1 = ap writer_has at in
    let on : reader_over s.reader ≡ false = elim (Bool-cases (reader_over s.reader)) [
      | inl over ↦
          let late : writer_late reading ≡ true = sym (ap writer_late at) ∙ (inv.over over).0 in
          absurd (ground arith)
      | inr e ↦ e
    ] in
    record {
      writer_over = refl;
      reader_waits = waits_for_turn s.reader (omega (arith, inv.turn, has_turn)) on;
      no_turn = omega (arith, inv.turn, has_turn);
      output = refl;
    }

-- For an input of fewer than 2^32 bytes: a signal that ends the writer while it reads its input leaves
-- the reader waiting for ever. No step of either follows, for the handler gives WRITE_SEM back, and the
-- reader waits for READ_SEM. What was written so far is all the output.
pub reader_stuck :
    (whole : Str) (s t : System)
    → length whole < 2 ^ 32
    → Reach whole s
    → s.writer ≡ reading
    → Later (writer_interrupted s) t
    → (t ≡ writer_interrupted s) × (t.reader ≡ taking) × (t.read_sem ≡ 0)
reader_stuck whole s t small r at here =
    let w = interrupted-Waits (Reach-Inv small r) at in (refl, w.reader_waits, w.no_turn)
reader_stuck whole s t small r at (after {t = before} l st) =
    let w = interrupted-Waits (Reach-Inv small r) at in
    let same = reader_stuck whole s before small r at l in
    absurd (no_step (subst (Waits s.output) (sym same.0) w) st)

-- A signal that ends the reader lets a writer that waits for its last turn come to its end.
pub writer_cleans_up :
    (s : System)
    → s.writer ≡ waiting
    → (t : System) × Step (reader_interrupted s) t × (t.writer ≡ finished)
writer_cleans_up s at = (_, writer_ends at (omega arith), refl)
