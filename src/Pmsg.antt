-- ===== src/Pmsg.antt =====
-- The file server of hw9/52-3 over POSIX message queues: `serveRequest` of pmsg_file_server.c and
-- `proc_resp` of pmsg_file_client.c. `mq_send` and `mq_receive` are taken to succeed, and keep the
-- order of the messages, which all have one priority.
pub mod Transfer
pub mod Server
pub mod Client
mod Tests
use nsysu_system_programming.Prelude.{
  ℕ, ◌-◌, ◌^◌, Option, none, some, List, [], ◌∷◌, ◌++◌, ◌==◌, if◌then◌else◌, length, drop,
  replicate, Str, codes,
}

abbrev pub msg_size : ℕ
msg_size = 8188

-- `struct responseMsg`: the word of the type, and all bytes of the data.
pub record ResponseMsg : Type 0 where
  pub mtype : ℕ
  pub body : Str

-- The words of `MT_FAILURE`, `MT_DATA` and `MT_END`.
abbrev pub mt_failure : ℕ
mt_failure = 2 ^ 32 - 1

abbrev pub mt_data : ℕ
mt_data = 1

abbrev pub mt_end : ℕ
mt_end = 0

abbrev pub zero_data : Str
zero_data = replicate 8188 0

-- `read(fd, resp.data, MSG_SIZE)` of a block.
unfoldable pub fill_data : Str → Str → Str
fill_data chunk d = chunk ++ drop (length chunk) d

-- The messages for the blocks that `read` gives, and the one for the end, from the data so far on.
unfoldable pub send_file : Str → List Str → List ResponseMsg
unfolding fill_data
send_file d [] = record { mtype = mt_end; body = d } ∷ []
send_file d (c ∷ cs) =
    record { mtype = mt_data; body = fill_data c d } ∷ send_file (fill_data c d) cs

-- The blocks of the file, or `none` if it cannot be opened.
unfoldable pub serve_request : Option (List Str) → Str → List ResponseMsg
unfolding send_file
serve_request none path =
    record { mtype = mt_failure; body = fill_data (codes "Couldn't open " ++ path) zero_data } ∷ []
serve_request (some cs) path = send_file zero_data cs

-- How the client ends: after all that it has written, at a failure, or it still waits for a message.
pub data Outcome : Type 0 where
  wrote : (output : Str) → Outcome
  failed : Outcome
  waits : Outcome

abbrev pub behind : Str → Outcome → Outcome
behind d (wrote out) = wrote (d ++ out)
behind d failed = failed
behind d waits = waits

-- `proc_resp`, with `d` in `resp.data`: the data is written before the next message is received.
unfoldable pub proc_resp : Str → List ResponseMsg → Outcome
proc_resp d [] = waits
proc_resp d (q ∷ qs) =
    let rest = proc_resp q.body qs in
    if q.mtype == mt_failure then failed else if q.mtype == 0 then wrote d else behind d rest
