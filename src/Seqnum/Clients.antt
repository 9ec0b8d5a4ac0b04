-- ===== src/Seqnum/Clients.antt =====
-- The clients of hw8/44-6: fifo_seqnum_client.c, and dos_client.c, which ends before it reads. What
-- `getInt` makes of the argument, `none` where it ends the program, and what the calls give are
-- parameters.
use nsysu_system_programming.Prelude.{
  ℕ, ◌≡◌, ◌≢◌, ◌↔◌, Bool, true, false, not, Option, none, some, arith, if◌then◌else◌,
}

-- `mkfifo`: the FIFO is made, was there, or is not made.
pub data Mkfifo : Type 0 where
  made : Mkfifo
  was_there : Mkfifo
  refused : Mkfifo

pub record Calls : Type 0 where
  pub mkfifo : Mkfifo
  pub has_handler : Bool
  pub seq_len : Option ℕ
  pub opens_server : Bool
  pub written : Bool
  pub opens_own : Bool
  pub response : Option ℕ

pub data Exit : Type 0 where
  usage : Exit
  failure : Exit
  success : Exit

-- What a client has sent and printed, whether it opened its FIFO, whether that is still there after its
-- end, and how it ended.
pub record Ended : Type 0 where
  pub sent : Option ℕ
  pub has_opened : Bool
  pub printed : Option ℕ
  pub fifo_left : Bool
  pub exit : Exit

-- `main` up to the request: a client that ends there, or the length that it has asked for. `removeFifo`
-- runs at every end once it is installed.
pub data Asked : Type 0 where
  ends : Ended → Asked
  asks : (seq_len : ℕ) → Asked

abbrev pub gives_up : (fifo_left : Bool) → Exit → Asked
gives_up left e =
    ends (record { sent = none; has_opened = false; printed = none; fifo_left = left; exit = e })

abbrev pub with_length : Calls → Option ℕ → Asked
with_length c none = gives_up false failure
with_length c (some n) =
    if not c.opens_server
    then gives_up false failure
    else if not c.written
    then gives_up false failure
    else asks n

abbrev pub with_fifo : Calls → Mkfifo → Asked
with_fifo c made = if not c.has_handler then gives_up true failure else with_length c c.seq_len
with_fifo c was_there = if not c.has_handler then gives_up true failure else with_length c c.seq_len
with_fifo c refused = gives_up false failure

-- With `--help` nothing is made or removed.
abbrev pub stays : Mkfifo → Bool
stays made = false
stays was_there = true
stays refused = false

unfoldable pub ask : (is_help : Bool) → Calls → Asked
ask true c = gives_up (stays c.mkfifo) usage
ask false c = with_fifo c c.mkfifo

abbrev pub answered : ℕ → Option ℕ → Ended
answered n none = record {
  sent = some n;
  has_opened = true;
  printed = none;
  fifo_left = false;
  exit = failure;
}
answered n (some number) = record {
  sent = some n;
  has_opened = true;
  printed = some number;
  fifo_left = false;
  exit = success;
}

abbrev pub unopened : Exit → ℕ → Ended
unopened e n = record {
  sent = some n;
  has_opened = false;
  printed = none;
  fifo_left = false;
  exit = e;
}

abbrev pub after_request : Calls → Asked → Ended
after_request c (ends e) = e
after_request c (asks n) = if not c.opens_own then unopened failure n else answered n c.response

-- `main` of fifo_seqnum_client.c
unfoldable pub client : (is_help : Bool) → Calls → Ended
unfolding ask
client is_help c = after_request c (ask is_help c)

abbrev pub ends_at_once : Asked → Ended
ends_at_once (ends e) = e
ends_at_once (asks n) = unopened success n

-- `main` of dos_client.c
unfoldable pub dos_client : (is_help : Bool) → Calls → Ended
unfolding ask
dos_client is_help c = ends_at_once (ask is_help c)

-- What a whole exchange takes.
abbrev pub Succeeds : Calls → ℕ → ℕ → Type 0
Succeeds c n number =
    (c.mkfifo ≢ refused)
    × (c.has_handler ≡ true)
    × (c.seq_len ≡ some n)
    × (c.opens_server ≡ true)
    × (c.written ≡ true)
    × (c.opens_own ≡ true)
    × (c.response ≡ some number)

client_fails : (c : Calls) → (client false c).exit ≢ success → (client false c).printed ≡ none
unfolding client ask
client_fails c h = ground arith

client-Succeeds :
    (c : Calls)
    → (client false c).exit ≡ success
    → (n : ℕ) × (number : ℕ) × Succeeds c n number
      × ((client false c).sent ≡ some n)
      × ((client false c).printed ≡ some number)
unfolding client ask
client-Succeeds c h = ground arith

Succeeds-client : (c : Calls) (n number : ℕ) → Succeeds c n number → (client false c).exit ≡ success
unfolding client ask
Succeeds-client c n number h = ground arith

client_left :
    (c : Calls)
    → ((client false c).fifo_left ≡ true) ↔ ((c.mkfifo ≢ refused) × (c.has_handler ≡ false))
unfolding client ask
client_left c = ground arith

-- A client succeeds if every call does, and not otherwise; it has then asked for the length of its
-- argument, and prints the number of the response. Where it does not succeed it prints no number. Its
-- FIFO is left behind only where the handler that removes it could not be installed.
pub client_lem :
    (c : Calls)
    → ((n number : ℕ) → Succeeds c n number → (client false c).exit ≡ success)
      × ((client false c).exit ≡ success
          → (n : ℕ) × (number : ℕ) × Succeeds c n number
            × ((client false c).sent ≡ some n)
            × ((client false c).printed ≡ some number))
      × ((client false c).exit ≢ success → (client false c).printed ≡ none)
      × (((client false c).fifo_left ≡ true) ↔ ((c.mkfifo ≢ refused) × (c.has_handler ≡ false)))
client_lem c = (Succeeds-client c, client-Succeeds c, client_fails c, client_left c)

-- It asks as a client does, but opens nothing, whatever comes of its request.
pub dos_client_closed : (c : Calls) → (dos_client false c).has_opened ≡ false
unfolding dos_client ask
dos_client_closed c = ground arith
