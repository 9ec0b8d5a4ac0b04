-- ===== src/Seqnum.antt =====
-- The server of hw8/44-6/fifo_seqnum_server.c: it hands out ranges of sequence numbers.
pub mod Ranges
pub mod Clients
pub mod Rounds
pub mod Visits
mod Tests
use nsysu_system_programming.Prelude.{
  ℕ, ◌+◌, ◌%◌, ◌^◌, Bool, not, List, [], ◌∷◌, ◌++◌, if◌then◌else◌,
}

-- What a round of the loop meets: a `read` that does not give a whole request, or a request, with
-- whether the client's FIFO opens, whether its descriptor is still good at the second look, and
-- whether the response is written whole. `seq_len` is a word.
pub data Event : Type 0 where
  partial : Event
  request : (pid seq_len : ℕ) (opens good written : Bool) → Event

-- A range that was handed out, and whether the client has got its response.
pub record Grant : Type 0 where
  pub pid : ℕ
  pub start : ℕ
  pub seq_len : ℕ
  pub delivered : Bool

-- One round, from the word of `seqNum`: the ranges, and `seqNum` afterwards.
unfoldable pub serve_one : ℕ → Event → List Grant × ℕ
serve_one seq_num partial = ([], seq_num)
serve_one seq_num (request pid seq_len opens good written) =
    if not opens then ([], seq_num) else if not good then ([], seq_num) else (
      record { pid = pid; start = seq_num; seq_len = seq_len; delivered = written } ∷ [],
      (seq_num + seq_len) % 2 ^ 32,
    )

unfoldable pub serve : ℕ → List Event → List Grant × ℕ
unfolding serve_one
serve seq_num [] = ([], seq_num)
serve seq_num (e ∷ es) =
    let (now, next) = serve_one seq_num e in
    let (later, last) = serve next es in (now ++ later, last)
