-- ===== src/Nonblock.antt =====
-- The two programs of hw8/44-7 that read a FIFO without waiting for data: nbio.c sets O_NONBLOCK after
-- `open`, nbopen.c gives it to `open`.
pub mod Printed
mod Tests
use nsysu_system_programming.Prelude.{
  ℕ, ◌-◌, Bool, true, false, Option, none, some, ◌++◌, ltb, if◌then◌else◌, length, take, replicate,
  Str,
}

-- The FIFO: how many processes have it open for writing, and the bytes in it.
pub record Fifo : Type 0 where
  pub writers : ℕ
  pub bytes : Str

abbrev pub buf_len : ℕ
buf_len = 4096

-- `open(FILENAME, O_RDONLY)` of a FIFO, which waits for a writer unless it is told not to: whether it
-- comes back.
unfoldable pub opens : (nonblock : Bool) → Fifo → Bool
opens true f = true
opens false f = ltb 0 f.writers

-- A `read` with O_NONBLOCK: the bytes that it gives, none at the end of the file or where it fails
-- because there are none yet.
unfoldable pub read_now : Fifo → Str
read_now f = take buf_len f.bytes

-- The loop over `buf`, which was zero before the `read`.
unfoldable pub print_buf : Str → Str
print_buf bytes = bytes ++ replicate (buf_len - length bytes) 0

-- `main` of nbio.c: what it prints, or `none` while it waits in `open`.
unfoldable pub nbio : Fifo → Option Str
unfolding opens read_now print_buf
nbio f = if opens false f then some (print_buf (read_now f)) else none

-- `main` of nbopen.c
unfoldable pub nbopen : Fifo → Option Str
unfolding opens read_now print_buf
nbopen f = if opens true f then some (print_buf (read_now f)) else none
