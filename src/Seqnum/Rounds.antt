-- ===== src/Seqnum/Rounds.antt =====
-- The loop of fifo_seqnum_server.c over the clients of hw8/44-6: it opens the FIFO of a client before it
-- looks at the next request, and where the FIFO is there `open` waits until the client has opened it too.
use nsysu_system_programming.Prelude.{
  ℕ, Bool, false, not, ◌&&◌, Option, none, some, List, [], ◌∷◌, if◌then◌else◌,
}
use nsysu_system_programming.Seqnum.{Event, partial, request, Grant, serve_one}
use nsysu_system_programming.Seqnum.Clients.{Calls, Ended, client, dos_client}

-- A client with its calls, whose response is what the server gives, and what the server meets at it:
-- whether its request is read whole, whether the FIFO is found when the server opens it, whether the
-- descriptor is still good at the second look, and whether the response is written whole.
pub record Visit : Type 0 where
  pub pid : ℕ
  pub is_dos : Bool
  pub calls : Calls
  pub whole : Bool
  pub finds : Bool
  pub good : Bool
  pub written : Bool

-- How the client ends when its response is this one.
unfoldable pub visitor : Visit → Option ℕ → Ended
visitor v answer =
    let c = record (v.calls) { response = answer } in
    if v.is_dos then dos_client false c else client false c

-- The response that is written, if it is written whole.
abbrev pub starts : List Grant → Option ℕ
starts [] = none
starts (g ∷ gs) = if g.delivered then some g.start else none

-- A client as the server meets it: what it has asked for, and whether it opens its FIFO.
pub record Arrival : Type 0 where
  pub pid : ℕ
  pub asked : Option ℕ
  pub opens : Bool
  pub whole : Bool
  pub finds : Bool
  pub good : Bool
  pub written : Bool

-- A client does not see its response before it has asked and opened its FIFO.
unfoldable pub arrival : Visit → Arrival
unfolding visitor
arrival v = record {
  pid = v.pid;
  asked = (visitor v none).sent;
  opens = (visitor v none).has_opened;
  whole = v.whole;
  finds = v.finds;
  good = v.good;
  written = v.written;
}

-- The round of the loop for a request.
unfoldable pub event : Arrival → ℕ → Event
event a n = if a.whole then request a.pid n a.finds a.good a.written else partial

-- The response to a request for `n` numbers, and `seqNum` after it.
unfoldable pub respond : ℕ → Arrival → ℕ → Option ℕ × ℕ
unfolding serve_one event
respond seq_num a n = let r = serve_one seq_num (event a n) in (starts r.0, r.1)

-- Whether `open` waits for ever: it finds the FIFO of a client that has asked and does not open it.
-- Where the client has removed its FIFO before, `open` fails.
abbrev pub waits : Option ℕ → Arrival → Bool
waits none a = false
waits (some n) a = a.whole && (a.finds && not a.opens)

abbrev pub blocks : Arrival → Bool
blocks a = waits a.asked a

abbrev pub after_round : ℕ → Arrival → Option ℕ → ℕ
after_round seq_num a none = seq_num
after_round seq_num a (some n) = (respond seq_num a n).1

abbrev pub round_response : ℕ → Arrival → Option ℕ → Option ℕ
round_response seq_num a none = none
round_response seq_num a (some n) = (respond seq_num a n).0

abbrev pub after_asking : ℕ → Arrival → ℕ
after_asking seq_num a = if blocks a then seq_num else after_round seq_num a a.asked

abbrev pub response_to : ℕ → Arrival → Option ℕ
response_to seq_num a = if blocks a then none else round_response seq_num a a.asked

abbrev pub silent : List Arrival → List (Option ℕ)
silent [] = []
silent (a ∷ more) = none ∷ silent more

-- The responses, one for each client: none where it has not asked, where its request is not read whole,
-- where its FIFO does not open, where the descriptor is not good, and where the response is not written
-- whole. Behind a client at which `open` waits for ever there are none.
unfoldable pub responses : ℕ → List Arrival → List (Option ℕ)
unfolding respond
responses seq_num [] = []
responses seq_num (a ∷ more) =
    let rest = responses (after_asking seq_num a) more in
    response_to seq_num a ∷ (if blocks a then silent more else rest)
