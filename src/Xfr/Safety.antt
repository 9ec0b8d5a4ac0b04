-- ===== src/Xfr/Safety.antt =====
-- What the transfer of hw9/54-1 guarantees in every state that the two programs can reach. An input
-- of 2^32 bytes or more lets the writer's `int` count come back to 0 and end its loop early.
use native.Mathlib.Decide.{dec_lt, ℕ_discrete}
use nsysu_system_programming.Prelude.{
  ℕ, ◌^◌, ◌<◌, ◌≡◌, refl, sym, ap, ◌∙◌, ◌≢◌, ◌⊎◌, inl, inr, [], ◌++◌, append-nil, arith, List-cases,
  length, Str,
}
use nsysu_system_programming.Xfr.{
  Writer, reserving, reading, releasing, testing, waiting, finished, failed, Reader, taking,
  checking, writing, returning, leaving, complete, stopped, System, Step, writer_reserves,
  writer_reads, read_fails, writer_releases, writer_tests, writer_ends, reader_reserves,
  reader_leaves, reader_counts, reader_writes, write_fails, reader_releases, reader_ends, Reach,
  start, later,
}
use nsysu_system_programming.Xfr.Invariant.{writer_has, in_flight, Inv, init-Inv}
use nsysu_system_programming.Xfr.WriterMoves.{
  writer_reserves-Inv, writer_reads-Inv, read_fails-Inv, writer_releases-Inv, writer_tests-Inv,
  writer_ends-Inv,
}
use nsysu_system_programming.Xfr.ReaderMoves.{
  reader_reserves-Inv, reader_leaves-Inv, reader_counts-Inv, reader_writes-Inv, write_fails-Inv,
  reader_releases-Inv, reader_ends-Inv,
}

Step-Inv :
    {whole : Str} {s t : System} → length whole < 2 ^ 32 → Inv whole s → Step s t → Inv whole t
Step-Inv small inv (writer_reserves at free) = writer_reserves-Inv inv at free
Step-Inv small inv (writer_reads n at fits eof) = writer_reads-Inv inv n at fits eof
Step-Inv small inv (read_fails at) = read_fails-Inv inv at
Step-Inv small inv (writer_releases at) = writer_releases-Inv inv at
Step-Inv small inv (writer_tests at) = writer_tests-Inv inv small at
Step-Inv small inv (writer_ends at free) = writer_ends-Inv inv at free
Step-Inv small inv (reader_reserves at free) = reader_reserves-Inv inv at free
Step-Inv small inv (reader_leaves at none_left) = reader_leaves-Inv inv at none_left
Step-Inv small inv (reader_counts at some_left) = reader_counts-Inv inv at some_left
Step-Inv small inv (reader_writes at) = reader_writes-Inv inv at
Step-Inv small inv (write_fails n at short) = write_fails-Inv inv n at short
Step-Inv small inv (reader_releases at) = reader_releases-Inv inv at
Step-Inv small inv (reader_ends at) = reader_ends-Inv inv at

pub Reach-Inv : {whole : Str} {s : System} → length whole < 2 ^ 32 → Reach whole s → Inv whole s
Reach-Inv {whole} small start = init-Inv whole
Reach-Inv small (later r st) = Step-Inv small (Reach-Inv small r) st

-- For an input of fewer than 2^32 bytes: the writer does not fill the segment while the reader
-- tests it or writes it out.
pub turns_exclusive :
    {whole : Str} {s : System}
    → length whole < 2 ^ 32
    → Reach whole s
    → s.writer ≡ reading
    → (s.reader ≢ checking) × (s.reader ≢ writing)
turns_exclusive small r at =
    let turn = (Reach-Inv small r).turn in (λ e. ground arith, λ e. ground arith)

complete-cases : (p : Reader) → (p ≢ complete) ⊎ (p ≡ complete)
complete-cases complete = inr refl
complete-cases taking = inl (λ e. ground arith)
complete-cases checking = inl (λ e. ground arith)
complete-cases writing = inl (λ e. ground arith)
complete-cases returning = inl (λ e. ground arith)
complete-cases leaving = inl (λ e. ground arith)
complete-cases (stopped n) = inl (λ e. ground arith)

complete-output : {whole : Str} {s : System} → Inv whole s → s.reader ≡ complete → s.output ≡ whole
complete-output {whole} {s} inv here =
    let (late, nothing, empty, all_read) = inv.over (ground arith) in
    let none_left : in_flight s ≡ [] = ground arith in
    sym (append-nil s.output)
    ∙ (ap (λ zs. s.output ++ zs) (sym all_read)
        ∙ (ap (λ zs. s.output ++ (zs ++ s.input)) (sym none_left) ∙ inv.data_kept))

-- For an input of fewer than 2^32 bytes: what has come out is at every moment a front part of the
-- input, also after a `read` or a `write` that failed, and is the whole input once the reader is at
-- its end.
pub output_lem :
    {whole : Str} {s : System}
    → length whole < 2 ^ 32
    → Reach whole s
    → ((rest : Str) × (s.output ++ rest ≡ whole)) × ((s.reader ≢ complete) ⊎ (s.output ≡ whole))
output_lem {s} small r =
    let inv = Reach-Inv small r in
    (
      (_, inv.data_kept),
      elim (complete-cases s.reader) [
        | inl other ↦ inl other
        | inr here ↦ inr (complete-output inv here)
      ],
    )

finished-complete :
    {whole : Str} {s : System} → Inv whole s → s.writer ≡ finished → s.reader ≡ complete
finished-complete inv at = ground (arith, inv.late, inv.ended, inv.over, inv.turn)

-- For an input of fewer than 2^32 bytes: when the writer removes the semaphores and the segment, the
-- reader is at its end, all bytes have come out, and the writer has counted them.
pub writer-finished :
    {whole : Str} {s : System}
    → length whole < 2 ^ 32
    → Reach whole s
    → s.writer ≡ finished
    → (s.reader ≡ complete) × (s.output ≡ whole) × (s.sent ≡ length whole)
writer-finished {whole} {s} small r at =
    let inv = Reach-Inv small r in
    let over = finished-complete inv at in
    (over, complete-output inv over, ground (arith, inv.ended, inv.counted, inv.over))

module _ {whole : Str} {s : System} (inv : Inv whole s) where
  open inv use {turn, over}

  reader_goes_on :
      s.write_sem ≡ 0
      → writer_has s.writer ≡ 0
      → (p : Reader) → s.reader ≡ p
      → ((n : ℕ) × (s.reader ≡ stopped n)) ⊎ ((t : System) × Step s t)
  reader_goes_on none_free idle taking at = inr (_, reader_reserves at (ground arith))
  reader_goes_on none_free idle checking at = elim (ℕ_discrete s.cnt 0) [
    | yes zero_now ↦ inr (_, reader_leaves at zero_now)
    | no some_left ↦ inr (_, reader_counts at some_left)
  ]
  reader_goes_on none_free idle writing at = inr (_, reader_writes at)
  reader_goes_on none_free idle returning at = inr (_, reader_releases at)
  reader_goes_on none_free idle leaving at = inr (_, reader_ends at)
  reader_goes_on none_free idle complete at = absurd (ground (arith, over))
  reader_goes_on none_free idle (stopped n) at = inl (n, at)

  writer_goes_on :
      (w : Writer)
      → s.writer ≡ w
      → ((s.writer ≡ finished) × (s.reader ≡ complete))
        ⊎ ((s.writer ≡ failed) ⊎ (((n : ℕ) × (s.reader ≡ stopped n)) ⊎ ((t : System) × Step s t)))
  writer_goes_on reserving at = elim (dec_lt 0 s.write_sem) [
    | yes free ↦ inr (inr (inr (_, writer_reserves at free)))
    | no taken ↦ inr (inr (reader_goes_on (omega arith) (ground arith) s.reader refl))
  ]
  writer_goes_on reading at = elim (List-cases s.input) [
    | inl empty ↦ inr (inr (inr (_, writer_reads 0 at (omega arith) (λ e. empty, λ e. refl))))
    | inr (c, cs, more) ↦ inr (
        inr (
          inr (
            _,
            writer_reads 1 at (ground arith)
                (λ e. absurd (omega arith), λ e. absurd (ground arith)),
          )))
  ]
  writer_goes_on releasing at = inr (inr (inr (_, writer_releases at)))
  writer_goes_on testing at = inr (inr (inr (_, writer_tests at)))
  writer_goes_on waiting at = elim (dec_lt 0 s.write_sem) [
    | yes free ↦ inr (inr (inr (_, writer_ends at free)))
    | no taken ↦ inr (inr (reader_goes_on (omega arith) (ground arith) s.reader refl))
  ]
  writer_goes_on finished at = inl (at, finished-complete inv at)
  writer_goes_on failed at = inr (inl at)

-- For an input of fewer than 2^32 bytes: unless one of the programs has stopped at an error, both are
-- at their ends or one of them can go on.
pub no_deadlock :
    {whole : Str} {s : System}
    → length whole < 2 ^ 32
    → Reach whole s
    → ((s.writer ≡ finished) × (s.reader ≡ complete))
      ⊎ ((s.writer ≡ failed) ⊎ (((n : ℕ) × (s.reader ≡ stopped n)) ⊎ ((t : System) × Step s t)))
no_deadlock {whole} {s} small r = writer_goes_on (Reach-Inv small r) s.writer refl
