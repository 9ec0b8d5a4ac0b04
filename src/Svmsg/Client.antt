-- ===== src/Svmsg/Client.antt =====
-- `main` of hw8/46-2/svmsg_file_client.c up to its loop, with the queues that it uses.
use nsysu_system_programming.Prelude.{
  ℕ, ◌≡◌, refl, ◌⊎◌, inl, inr, Bool, true, false, not, Option, none, some, List, [], ◌∷◌, ltb,
  if◌then◌else◌, length, Str, codes, str_eq, if_keeps,
}
use nsysu_system_programming.Svmsg.{Msg, Outcome, received, failed, waits, client}
use nsysu_system_programming.Svmsg.Server.{Request}

-- What the calls give; `own` is the number of the client's queue.
pub record Calls : Type 0 where
  pub finds_server : Bool
  pub own : Option ℕ
  pub has_handler : Bool
  pub sends : Bool

pub data End : Type 0 where
  usage : End
  too_long : End
  no_server : End
  no_queue : End
  no_handler : End
  not_sent : End
  answered : Outcome → End

-- The request that was sent, how the client ended, and whether its queue is left.
pub record Ran : Type 0 where
  pub sent : List Request
  pub end : End
  pub queue_left : Bool

abbrev pub stops : Bool → End → Ran
stops left e = record { sent = []; end = e; queue_left = left }

-- `__removeQueue` runs at every exit, but a client that waits has none.
abbrev pub leaves : Outcome → Bool
leaves (received tot num) = false
leaves failed = false
leaves waits = true

abbrev pub ask_server : Str → Calls → List Msg → ℕ → Ran
ask_server path c answers id =
    if not c.has_handler
    then stops true no_handler
    else if not c.sends
    then stops false not_sent
    else record {
      sent = record { client_id = id; pathname = path } ∷ [];
      end = answered (client answers);
      queue_left = leaves (client answers);
    }

abbrev pub with_queue : Str → Calls → List Msg → Option ℕ → Ran
with_queue path c answers none = stops false no_queue
with_queue path c answers (some id) = ask_server path c answers id

abbrev pub with_path : Str → Calls → List Msg → Ran
with_path path c answers =
    if str_eq path (codes "--help")
    then stops false usage
    else if ltb 4095 (length path)
    then stops false too_long
    else if not c.finds_server
    then stops false no_server
    else with_queue path c answers c.own

-- `main`, where the messages `answers` come to its queue.
unfoldable pub client_main : (args : List Str) → Calls → List Msg → Ran
client_main [] c answers = stops false usage
client_main (path ∷ []) c answers = with_path path c answers
client_main (path ∷ x ∷ xs) c answers = stops false usage

-- An end with the queue left: the handler could not be installed, or the client waits.
abbrev pub Leaves : Ran → Type 0
Leaves r = (r.queue_left ≡ false) ⊎ ((r.end ≡ no_handler) ⊎ (r.end ≡ answered waits))

-- At most one request is sent.
abbrev pub AsksOnce : Str → Ran → Type 0
AsksOnce path r =
    (r.sent ≡ []) ⊎ ((id : ℕ) × (r.sent ≡ record { client_id = id; pathname = path } ∷ []))

-- Both, for a client that is asked for `path`.
abbrev Fine : Str → Ran → Type 0
Fine path r = Leaves r × AsksOnce path r

asked_Fine :
    (path : Str) (id : ℕ) (o : Outcome)
    → Fine path (record {
      sent = record { client_id = id; pathname = path } ∷ [];
      end = answered o;
      queue_left = leaves o;
    })
asked_Fine path id (received tot num) = (inl refl, inr (id, refl))
asked_Fine path id failed = (inl refl, inr (id, refl))
asked_Fine path id waits = (inr (inr refl), inr (id, refl))

with_queue-Fine :
    (path : Str) (c : Calls) (answers : List Msg) (own : Option ℕ)
    → Fine path (with_queue path c answers own)
with_queue-Fine path c answers none = (inl refl, inl refl)
with_queue-Fine path c answers (some id) =
    if_keeps (Fine path) (not c.has_handler) (inr (inl refl), inl refl)
      (if_keeps (Fine path) (not c.sends) (inl refl, inl refl)
        (asked_Fine path id (client answers)))

-- Whatever the calls give, the client sends at most one request, for its argument, and its queue is
-- left only where the handler could not be installed or the client waits for ever.
pub client_main-Leaves :
    (path : Str) (c : Calls) (answers : List Msg)
    → Leaves (client_main (path ∷ []) c answers) × AsksOnce path (client_main (path ∷ []) c answers)
unfolding client_main
client_main-Leaves path c answers =
    if_keeps (Fine path) (str_eq path (codes "--help")) (inl refl, inl refl)
      (if_keeps (Fine path) (ltb 4095 (length path)) (inl refl, inl refl)
        (if_keeps (Fine path) (not c.finds_server) (inl refl, inl refl)
          (with_queue-Fine path c answers c.own)))
