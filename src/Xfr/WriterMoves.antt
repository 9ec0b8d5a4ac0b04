-- ===== src/Xfr/WriterMoves.antt =====
-- Each step of the writer of hw9/54-1 keeps the invariant.
use mathlib.Core.Path.{subst}
use nsysu_system_programming.Prelude.{
  ℕ, ◌+◌, ◌-◌, ◌^◌, ◌≤◌, ◌<◌, min, ◌≡◌, refl, sym, ap, ◌∙◌, ◌↔◌, [], ◌++◌, arith, length, take,
  drop, length-take, length-drop, take-append-drop, Str, take-append,
}
use nsysu_system_programming.Xfr.{
  reserving, reading, releasing, testing, waiting, finished, failed, System, test, fill, buf_size,
}
use nsysu_system_programming.Xfr.Invariant.{in_flight, Inv}

-- A block that was read, with what is left of the input.
block_and_rest :
    (n : ℕ) (xs rest : Str) → n ≤ length xs → take n (take n xs ++ rest) ++ drop n xs ≡ xs
block_and_rest n xs rest h =
    let count : length (take n xs) ≡ n = ground (arith, length-take n xs) in
    let front : take n (take n xs ++ rest) ≡ take n xs =
      subst (λ k. take k (take n xs ++ rest) ≡ take n xs) count (take-append (take n xs) rest) in
    ap (λ zs. zs ++ drop n xs) front ∙ take-append-drop n xs

module _ {whole : Str} {s : System} (inv : Inv whole s) where
  open inv use {turn, data_kept, counted, block, last_block, over, again, late, ended}

  pub writer_reserves-Inv :
      s.writer ≡ reserving
      → 0 < s.write_sem
      → Inv whole (record s { writer = reading; write_sem = s.write_sem - 1 })
  writer_reserves-Inv at free = record {
    turn = ground arith;
    data_kept = ground (arith, data_kept);
    counted = λ no_fail. ground (arith, counted (ground arith));
    block = λ e. ground (arith, block e);
    last_block = λ e z. ground (arith, last_block);
    over = λ e. ground (arith, over e);
    again = λ e f. ground arith;
    late = λ e. ground arith;
    ended = λ e. ground arith;
  }

  pub writer_reads-Inv :
      (n : ℕ)
      → s.writer ≡ reading
      → n ≤ min buf_size (length s.input)
      → (n ≡ 0) ↔ (s.input ≡ [])
      → Inv whole (fill n s)
  writer_reads-Inv n at small eof = record {
    turn = ground arith;
    data_kept =
        let before : in_flight s ≡ [] = ground arith in
        let after : in_flight (fill n s) ≡ take n (take n s.input ++ drop n s.buf) = ground arith in
        ap (λ zs. s.output ++ (zs ++ drop n s.input)) after
        ∙ (ap (λ zs. s.output ++ zs)
              (block_and_rest n s.input (drop n s.buf) (omega (arith, small)))
            ∙ (ap (λ zs. s.output ++ (zs ++ s.input)) (sym before) ∙ data_kept));
    counted = λ no_fail. ground (arith, length-drop n s.input, counted (ground arith));
    block = λ e. ground (arith, block);
    last_block = λ e z. ground (arith, last_block);
    over = λ e. ground (arith, over);
    again = λ e f. ground (arith, again);
    late = λ e. ground (arith, late);
    ended = λ e. ground (arith, ended);
  }

  pub read_fails-Inv :
      s.writer ≡ reading → Inv whole (record s { writer = failed; cnt = 2 ^ 32 - 1 })
  read_fails-Inv at = record {
    turn = ground arith;
    data_kept = ground (arith, data_kept);
    counted = λ no_fail. absurd (no_fail refl);
    block = λ e. ground (arith, block);
    last_block = λ e z. ground (arith, last_block);
    over = λ e. ground (arith, over);
    again = λ e f. ground (arith, again);
    late = λ e. ground (arith, late);
    ended = λ e. ground (arith, ended);
  }

  pub writer_releases-Inv :
      s.writer ≡ releasing → Inv whole (record s { writer = testing; read_sem = s.read_sem + 1 })
  writer_releases-Inv at = record {
    turn = ground arith;
    data_kept = ground (arith, data_kept);
    counted = λ no_fail. ground (arith, counted (ground arith));
    block = λ e. ground (arith, block);
    last_block = λ e z. ground (arith, last_block);
    over = λ e. ground (arith, over);
    again = λ e f. ground (arith, again);
    late = λ e. ground (arith, late);
    ended = λ e. ground (arith, ended);
  }

  pub writer_tests-Inv : length whole < 2 ^ 32 → s.writer ≡ testing → Inv whole (test s)
  writer_tests-Inv small at = record {
    turn = ground arith;
    data_kept = ground (arith, data_kept);
    counted = λ no_fail. ground (arith, counted (ground arith));
    block = λ e. ground (arith, block);
    last_block = λ e z. ground (arith, last_block);
    over = λ e. ground (arith, over);
    again = λ e f. ground (arith, again);
    late = λ e. ground (arith, late);
    ended = λ e. ground (arith, ended);
  }

  pub writer_ends-Inv :
      s.writer ≡ waiting
      → 0 < s.write_sem
      → Inv whole (record s { writer = finished; write_sem = s.write_sem - 1 })
  writer_ends-Inv at free = record {
    turn = ground arith;
    data_kept = ground (arith, data_kept);
    counted = λ no_fail. ground (arith, counted (ground arith));
    block = λ e. ground (arith, block);
    last_block = λ e z. ground (arith, last_block);
    over = λ e. ground (arith, over);
    again = λ e f. ground (arith, again);
    late = λ e. ground (arith, late);
    ended = λ e. ground (arith, ended);
  }
