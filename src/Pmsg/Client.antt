-- ===== src/Pmsg/Client.antt =====
-- `main` of hw9/52-3/pmsg_file_client.c, with connect_server.
use nsysu_system_programming.Prelude.{
  ◌≤◌, ◌≡◌, refl, ap, ◌∙◌, ◌≢◌, inl, inr, Bool, true, false, not, none, some, List, [], ◌∷◌, ◌++◌,
  arith, ltb, if◌then◌else◌, Bool-cases, length, drop, All, if_false, Str, codes, str_eq,
  str_eq_iff, if_false,
}
use nsysu_system_programming.Pmsg.{
  zero_data, ResponseMsg, Outcome, wrote, failed, waits, serve_request, proc_resp, msg_size,
}
use nsysu_system_programming.Pmsg.Server.{RequestMsg}
use nsysu_system_programming.Pmsg.Transfer.{flat, last_block, serve_request-proc_resp}

abbrev pub foo_path : Str
foo_path = codes "/foo_"

-- `mq_open` of the client's queue: it is made, was there, or is not made.
pub data Queue : Type 0 where
  made : Queue
  was_there : Queue
  refused : Queue

-- What the calls give.
pub record Calls : Type 0 where
  pub finds_server : Bool
  pub queue : Queue
  pub sends : Bool

pub data End : Type 0 where
  usage : End
  too_long : End
  no_server : End
  no_queue : End
  not_sent : End
  answered : Outcome → End

-- The requests that were sent, how the client ended, and whether the queue `/foo_` is there afterwards.
pub record Ran : Type 0 where
  pub sent : List RequestMsg
  pub end : End
  pub queue_left : Bool

-- Before the client opens its queue.
abbrev pub is_there : Queue → Bool
is_there made = false
is_there was_there = true
is_there refused = false

abbrev pub stops : Bool → End → Ran
stops left e = record { sent = []; end = e; queue_left = left }

-- The queue is removed only behind `proc_resp`, which does not come back from a failure.
abbrev pub leaves : Outcome → Bool
leaves (wrote out) = false
leaves failed = true
leaves waits = true

abbrev pub ask_server : Str → Calls → List ResponseMsg → Ran
ask_server path c answers = if not c.sends then stops true not_sent else record {
  sent = record { client_path = foo_path; pathname = path } ∷ [];
  end = answered (proc_resp zero_data answers);
  queue_left = leaves (proc_resp zero_data answers);
}

abbrev pub with_queue : Str → Calls → List ResponseMsg → Queue → Ran
with_queue path c answers made = ask_server path c answers
with_queue path c answers was_there = ask_server path c answers
with_queue path c answers refused = stops false no_queue

-- `main` with one argument.
abbrev pub with_path : Str → Calls → List ResponseMsg → Ran
with_path path c answers =
    if str_eq path (codes "--help")
    then stops (is_there c.queue) usage
    else if ltb 4095 (length path)
    then stops (is_there c.queue) too_long
    else if not c.finds_server
    then stops (is_there c.queue) no_server
    else with_queue path c answers c.queue

-- `main`, where the messages `answers` come to its queue.
unfoldable pub client_main : (args : List Str) → Calls → List ResponseMsg → Ran
client_main [] c answers = stops (is_there c.queue) usage
client_main (path ∷ []) c answers = with_path path c answers
client_main (path ∷ x ∷ xs) c answers = stops (is_there c.queue) usage

with_queue-made :
    (path : Str) (c : Calls) (answers : List ResponseMsg) (q : Queue)
    → q ≢ refused
    → with_queue path c answers q ≡ ask_server path c answers
with_queue-made path c answers made h = refl
with_queue-made path c answers was_there h = refl
with_queue-made path c answers refused h = absurd (h refl)

str_ne : (s t : Str) → s ≢ t → str_eq s t ≡ false
str_ne s t h = elim (Bool-cases (str_eq s t)) [
  | inl e ↦ absurd (h ((str_eq_iff s t).0 e))
  | inr e ↦ e
]

-- A client whose calls succeed, whether its queue was there or not.
client_main-asks :
    (path : Str) (c : Calls) (answers : List ResponseMsg)
    → path ≢ codes "--help"
    → length path ≤ 4095
    → c.finds_server ≡ true
    → c.queue ≢ refused
    → c.sends ≡ true
    → client_main (path ∷ []) c answers ≡ record {
      sent = record { client_path = foo_path; pathname = path } ∷ [];
      end = answered (proc_resp zero_data answers);
      queue_left = leaves (proc_resp zero_data answers);
    }
unfolding client_main
client_main-asks path c answers no_help short finds opens sends =
    let is_path : str_eq path (codes "--help") ≡ false = str_ne path (codes "--help") no_help in
    let fits : ltb 4095 (length path) ≡ false = ground arith in
    if_false (stops (is_there c.queue) usage) is_path
    ∙ if_false (stops (is_there c.queue) too_long) fits
    ∙ if_false (stops (is_there c.queue) no_server) (ap not finds)
    ∙ with_queue-made path c answers c.queue opens
    ∙ if_false (stops true not_sent) (ap not sends)

refused_file : (path : Str) → proc_resp zero_data (serve_request none path) ≡ failed
unfolding proc_resp serve_request
refused_file path = refl

-- With a path of at most 4095 bytes that is not `--help`, and calls that succeed, the client sends one
-- request, for that path. If the file opens, and its blocks are whole but for the last one, it writes
-- the file as the server sends it and removes its queue; if the file does not open, it fails, and the
-- queue is left.
pub client_main_lem :
    (path last : Str) (cs : List Str) (c : Calls)
    → path ≢ codes "--help"
    → length path ≤ 4095
    → c.finds_server ≡ true
    → c.queue ≢ refused
    → c.sends ≡ true
    → All (λ (b : Str). length b ≡ msg_size) cs
    → (client_main (path ∷ []) c (serve_request (some (cs ++ (last ∷ []))) path) ≡ record {
      sent = record { client_path = foo_path; pathname = path } ∷ [];
      end = answered (
          wrote (zero_data ++ (flat cs ++ (last ++ drop (length last) (last_block zero_data cs)))));
      queue_left = false;
    })
      × (client_main (path ∷ []) c (serve_request none path) ≡ record {
        sent = record { client_path = foo_path; pathname = path } ∷ [];
        end = answered failed;
        queue_left = true;
      })
client_main_lem path last cs c no_help short finds opens sends whole =
    let asks = client_main-asks path c in
    let done : Outcome → Ran = λ o. record {
      sent = record { client_path = foo_path; pathname = path } ∷ [];
      end = answered o;
      queue_left = leaves o;
    } in
    (
      asks (serve_request (some (cs ++ (last ∷ []))) path) no_help short finds opens sends
          ∙ ap done (serve_request-proc_resp cs last path whole),
      asks (serve_request none path) no_help short finds opens sends ∙ ap done (refused_file path),
    )
