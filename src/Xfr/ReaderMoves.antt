-- ===== src/Xfr/ReaderMoves.antt =====
-- Each step of the reader of hw9/54-1 keeps the invariant.
use nsysu_system_programming.Prelude.{
  ℕ, ◌+◌, ◌-◌, ◌<◌, ◌≡◌, sym, ap, ◌∙◌, ◌≢◌, [], ◌++◌, append_assoc, arith, take, drop,
  take-append-drop, Str,
}
use nsysu_system_programming.Xfr.{
  taking, checking, writing, returning, leaving, complete, stopped, System, add_word,
}
use nsysu_system_programming.Xfr.Invariant.{in_flight, Inv}

module _ {whole : Str} {s : System} (inv : Inv whole s) where
  open inv use {turn, data_kept, counted, block, last_block, over, again, late, ended}

  pub reader_reserves-Inv :
      s.reader ≡ taking
      → 0 < s.read_sem
      → Inv whole (record s { reader = checking; read_sem = s.read_sem - 1 })
  reader_reserves-Inv at free = record {
    turn = ground arith;
    data_kept = ground (arith, data_kept);
    counted = λ no_fail. ground (arith, counted (ground arith));
    block = λ e. ground (arith, block);
    last_block = λ e z. ground (arith, last_block);
    over = λ e. ground (arith, over);
    again = λ e f. ground (arith, again);
    late = λ e. ground (arith, late);
    ended = λ e. ground (arith, ended);
  }

  pub reader_leaves-Inv :
      s.reader ≡ checking → s.cnt ≡ 0 → Inv whole (record s { reader = leaving })
  reader_leaves-Inv at none_left = record {
    turn = ground arith;
    data_kept = ground (arith, data_kept);
    counted = λ no_fail. ground (arith, counted (ground arith));
    block = λ e. ground (arith, block);
    last_block = λ e z. ground (arith, last_block);
    over = λ e. ground (arith, over);
    again = λ e f. ground (arith, again);
    late = λ e. ground (arith, late);
    ended = λ e. ground (arith, ended);
  }

  pub reader_counts-Inv :
      s.reader ≡ checking
      → s.cnt ≢ 0
      → Inv whole (record s { reader = writing; received = add_word s.received s.cnt })
  reader_counts-Inv at some_left = record {
    turn = ground arith;
    data_kept = ground (arith, data_kept);
    counted = λ no_fail. ground (arith, counted (ground arith));
    block = λ e. ground (arith, block);
    last_block = λ e z. ground (arith, last_block);
    over = λ e. ground (arith, over);
    again = λ e f. ground (arith, again);
    late = λ e. ground (arith, late);
    ended = λ e. ground (arith, ended);
  }

  pub reader_writes-Inv :
      s.reader ≡ writing
      → Inv whole (record s { reader = returning; output = s.output ++ take s.cnt s.buf })
  reader_writes-Inv at = record {
    turn = ground arith;
    data_kept =
        let before : in_flight s ≡ take s.cnt s.buf = ground arith in
        let after : in_flight
              (record s { reader = returning; output = s.output ++ take s.cnt s.buf })
            ≡ [] =
          ground arith in
        ap (λ zs. (s.output ++ take s.cnt s.buf) ++ (zs ++ s.input)) after
        ∙ (append_assoc s.output (take s.cnt s.buf) s.input
            ∙ (ap (λ zs. s.output ++ (zs ++ s.input)) (sym before) ∙ data_kept));
    counted = λ no_fail. ground (arith, counted (ground arith));
    block = λ e. ground (arith, block);
    last_block = λ e z. ground (arith, last_block);
    over = λ e. ground (arith, over);
    again = λ e f. ground (arith, again);
    late = λ e. ground (arith, late);
    ended = λ e. ground (arith, ended);
  }

  pub write_fails-Inv :
      (n : ℕ)
      → s.reader ≡ writing
      → n < s.cnt
      → Inv whole (record s { reader = stopped n; output = s.output ++ take n (take s.cnt s.buf) })
  write_fails-Inv n at short = record {
    turn = ground arith;
    data_kept =
        let blk = take s.cnt s.buf in
        let before : in_flight s ≡ blk = ground arith in
        let after : in_flight (record s { reader = stopped n; output = s.output ++ take n blk })
            ≡ drop n blk =
          ground arith in
        ap (λ zs. (s.output ++ take n blk) ++ (zs ++ s.input)) after
        ∙ (append_assoc s.output (take n blk) (drop n blk ++ s.input)
            ∙ (ap (λ zs. s.output ++ zs) (sym (append_assoc (take n blk) (drop n blk) s.input))
                ∙ (ap (λ zs. s.output ++ (zs ++ s.input)) (take-append-drop n blk ∙ sym before)
                    ∙ data_kept)));
    counted = λ no_fail. ground (arith, counted (ground arith));
    block = λ e. ground (arith, block);
    last_block = λ e z. ground (arith, last_block);
    over = λ e. ground (arith, over);
    again = λ e f. ground (arith, again);
    late = λ e. ground (arith, late);
    ended = λ e. ground (arith, ended);
  }

  pub reader_releases-Inv :
      s.reader ≡ returning → Inv whole (record s { reader = taking; write_sem = s.write_sem + 1 })
  reader_releases-Inv at = record {
    turn = ground arith;
    data_kept = ground (arith, data_kept);
    counted = λ no_fail. ground (arith, counted (ground arith));
    block = λ e. ground (arith, block);
    last_block = λ e z. ground (arith, last_block);
    over = λ e. ground (arith, over);
    again = λ e f. ground (arith, again);
    late = λ e. ground (arith, late);
    ended = λ e. ground (arith, ended);
  }

  pub reader_ends-Inv :
      s.reader ≡ leaving → Inv whole (record s { reader = complete; write_sem = s.write_sem + 1 })
  reader_ends-Inv at = record {
    turn = ground arith;
    data_kept = ground (arith, data_kept);
    counted = λ no_fail. ground (arith, counted (ground arith));
    block = λ e. ground (arith, block);
    last_block = λ e z. ground (arith, last_block);
    over = λ e. ground (arith, over);
    again = λ e f. ground (arith, again);
    late = λ e. ground (arith, late);
    ended = λ e. ground (arith, ended);
  }
