-- ===== src/Svmsg.antt =====
-- The file server of hw8/46-2 over System V message queues: `serveRequest` of svmsg_file_server.c and
-- the receiving loop of svmsg_file_client.c.
--
-- `struct responseMsg` begins with an `int`, but `msgsnd` and `msgrcv` read and write a `long` there:
-- the type of a message on the queue has `mtype` in its low word and the first four bytes of `data` in
-- its high one, and the text of the message begins at the fifth byte of `data`. Of a text only its size is
-- modelled: the last four bytes of a whole block lie behind the structure, in the server and in the client,
-- and are taken to be memory that can be used.
pub mod Transfer
pub mod Server
pub mod Client
mod Tests
use nsysu_system_programming.Prelude.{
  ℕ, zero, suc, ◌+◌, ◌-◌, ◌*◌, ◌%◌, ◌^◌, Bool, Option, none, some, List, [], ◌∷◌, ◌++◌, ◌==◌,
  if◌then◌else◌, length, get_or, drop, replicate, Str, codes, ℤ, pos, negsuc,
}

abbrev pub msg_size : ℕ
msg_size = 8192

-- The words of `MT_FAILURE`, `MT_DATA` and `MT_END`.
abbrev pub mt_failure : ℕ
mt_failure = 2 ^ 32 - 1

abbrev pub mt_data : ℕ
mt_data = 1

abbrev pub mt_end : ℕ
mt_end = 0

-- The word of the first four bytes.
abbrev pub high_word : Str → ℕ
high_word d = get_or d 0 0 + 256 * get_or d 1 0 + 65536 * get_or d 2 0 + 16777216 * get_or d 3 0

-- The `long` that `msgsnd` finds at a message, as a double word.
unfoldable pub long_type : ℕ → Str → ℕ
long_type mtype d = mtype + 2 ^ 32 * high_word d

-- A message on the client's queue: its type and the size of its text.
pub record Msg : Type 0 where
  pub kind : ℕ
  pub size : ℕ

-- `read(fd, resp.data, MSG_SIZE)` of a block.
unfoldable pub read_into : Str → Str → Str
read_into chunk d = chunk ++ drop (length chunk) d

abbrev pub zero_data : Str
zero_data = replicate 8192 0

abbrev pub cannot_open : Str → Str
cannot_open path = codes "Couldn't open " ++ path

module _ (msgsnd : ℕ → Bool) where
  -- One `msgsnd` to the client's queue, and whether it came back with 0.
  unfoldable pub send : ℕ → Str → ℕ → List Msg
  send mtype d n =
      if msgsnd (long_type mtype d) then record { kind = long_type mtype d; size = n } ∷ [] else []

  -- The loop over the blocks that `read` gives, up to the first `msgsnd` that fails: the messages, and
  -- what the buffer has at the end.
  pub send_blocks : Str → List Str → List Msg × Str
  send_blocks d [] = ([], d)
  send_blocks d (c ∷ cs) =
      let d' = read_into c d in
      let (more, last) = send_blocks d' cs in
      if msgsnd (long_type mt_data d')
      then (record { kind = long_type mt_data d'; size = length c } ∷ more, last)
      else ([], d')

  -- The blocks of the file, or `none` if it cannot be opened.
  pub serve_request : Option (List Str) → Str → List Msg
  unfolding send send_blocks
  serve_request none path =
      send mt_failure (read_into (cannot_open path) zero_data) (length (cannot_open path) + 1)
  serve_request (some cs) path =
      let (sent, last) = send_blocks zero_data cs in sent ++ send mt_end last 0

-- How the client ends: with the counts that it prints, with the failure's text, or it still waits.
pub data Outcome : Type 0 where
  received : (tot_bytes : ℕ) (num_msgs : ℤ) → Outcome
  failed : Outcome
  waits : Outcome

-- `++numMsgs`
abbrev pub inc : ℤ → ℤ
inc (pos n) = pos (suc n)
inc (negsuc zero) = pos 0
inc (negsuc (suc n)) = negsuc n

-- The loop of the client: `resp.mtype` is the low word of the type.
pub receive : ℕ → ℤ → List Msg → Outcome
receive tot num [] = waits
receive tot num (q ∷ qs) =
    let mtype = q.kind % 2 ^ 32 in
    let tot' = tot + q.size * mtype in
    let rest = receive tot' (inc num) qs in
    if mtype == mt_failure then failed else if mtype == 0 then received tot' (inc num) else rest

unfoldable pub client : List Msg → Outcome
unfolding receive
client qs = receive 0 (negsuc 0) qs
