-- ===== src/Nonblock/Printed.antt =====
-- What the programs of hw8/44-7 print.
use nsysu_system_programming.Prelude.{
  ℕ, ◌-◌, ◌<◌, ◌≡◌, ap, ◌∙◌, true, false, none, some, ◌++◌, arith, ltb, length, take, replicate,
  length-append, length-take, length-replicate, if_true, if_false, Str, if_true, if_false,
}
use nsysu_system_programming.Nonblock.{Fifo, buf_len, opens, read_now, print_buf, nbio, nbopen}

-- The bytes in the FIFO, up to 4096 of them, and NULs up to 4096.
abbrev pub shown : Str → Str
shown bytes = take 4096 bytes ++ replicate (4096 - length bytes) 0

print_buf-read_now : (f : Fifo) → print_buf (read_now f) ≡ shown f.bytes
unfolding print_buf read_now
print_buf-read_now f =
    let size : 4096 - length (take buf_len f.bytes) ≡ 4096 - length f.bytes =
      omega (arith, length-take buf_len f.bytes) in
    ap (λ n. take buf_len f.bytes ++ replicate n 0) size

-- nbopen.c comes back at once, with or without a writer, and nbio.c exactly if there is one: it still
-- waits in `open`. What they print is the same, and always 4096 bytes.
pub nbio-nbopen :
    (f : Fifo)
    → (nbopen f ≡ some (shown f.bytes))
      × (f.writers ≡ 0 → nbio f ≡ none)
      × (0 < f.writers → nbio f ≡ some (shown f.bytes))
      × (length (shown f.bytes) ≡ 4096)
unfolding nbio nbopen opens
nbio-nbopen f =
    let same = ap some (print_buf-read_now f) in
    (
      same,
      λ no_writer.
          let waits : ltb 0 f.writers ≡ false = ground arith in
          if_false (some (print_buf (read_now f))) waits,
      λ writer. let comes : ltb 0 f.writers ≡ true = ground arith in if_true none comes ∙ same,
      omega (
        arith,
        length-append (take 4096 f.bytes) (replicate (4096 - length f.bytes) 0),
        length-take 4096 f.bytes,
        length-replicate {A = ℕ} (4096 - length f.bytes) 0,
      ),
    )
