-- ===== src/Seqnum/Tests.antt =====
-- The theorems on the server of hw8/44-6 at three requests, the second of a client that is gone.
use nsysu_system_programming.Seqnum.Clients.{
  made, refused, Calls, success, Succeeds, ask, client, dos_client, client_lem,
}
use nsysu_system_programming.Seqnum.Rounds.{Visit, visitor, arrival, event, respond, responses}
use nsysu_system_programming.Seqnum.Visits.{dos_lem, responses_apart}
use nsysu_system_programming.Prelude.{
  Bool, some, none, map, replicate, take, drop, ◌++◌, ◌≤◌, ◌≢◌, ◌↔◌, false, ℕ, ◌+◌, ◌-◌, ◌^◌, ◌≡◌,
  refl, true, false, List, [], ◌∷◌, arith,
}
use nsysu_system_programming.Seqnum.{Event, partial, request, Grant, serve_one, serve}
use nsysu_system_programming.Seqnum.Ranges.{total, IsConsecutive, serve-IsConsecutive, serve_unique}

abbrev three : List Event
three =
    request 7 3 true true true
    ∷ request 8 5 false true true
    ∷ partial
    ∷ request 9 2 true true false
    ∷ []

abbrev first_grant : Grant
first_grant = record { pid = 7; start = 0; seq_len = 3; delivered = true }

serve-IsConsecutive_run :
    IsConsecutive 0 (serve 0 three).0 × ((serve 0 three).1 ≡ 0 + total (serve 0 three).0)
serve-IsConsecutive_run = serve-IsConsecutive three 0 (omega arith)

serve_unique_run : ◌≡◌ {A = ℕ} 0 0
unfolding serve
serve_unique_run =
    serve_unique three 0 0 2 first_grant first_grant (omega arith) refl refl
      (omega arith, omega arith) (omega arith, omega arith)

-- A length of -1 is not refused, and takes back a number that was handed out.
taken_back :
    (serve 0 (request 7 3 true true true ∷ request 8 (2 ^ 32 - 1) true true true ∷ [])).1 ≡ 2
unfolding serve
taken_back = refl

abbrev good_calls : Calls
good_calls = record {
  mkfifo = made;
  has_handler = true;
  seq_len = some 3;
  opens_server = true;
  written = true;
  opens_own = true;
  response = some 10;
}

client_lem_run :
    ((n number : ℕ) → Succeeds good_calls n number → (client false good_calls).exit ≡ success)
    × ((client false good_calls).exit ≡ success
        → (n : ℕ) × (number : ℕ) × Succeeds good_calls n number
          × ((client false good_calls).sent ≡ some n)
          × ((client false good_calls).printed ≡ some number))
    × ((client false good_calls).exit ≢ success → (client false good_calls).printed ≡ none)
    × (((client false good_calls).fifo_left ≡ true)
        ↔ ((good_calls.mkfifo ≢ refused) × (good_calls.has_handler ≡ false)))
client_lem_run = client_lem good_calls

abbrev visit_of : ℕ → Bool → Visit
visit_of pid is_dos = record {
  pid = pid;
  is_dos = is_dos;
  calls = good_calls;
  whole = true;
  finds = true;
  good = true;
  written = true;
}

-- Another dos_client has removed its FIFO in time.
abbrev gone : Visit
gone = record (visit_of 6 true) { finds = false }

dos_lem_example :
    ((visit_of 8 true).finds ≡ true
      → responses 0 (
          map arrival (gone ∷ visit_of 7 false ∷ [])
          ++ (arrival (visit_of 8 true) ∷ map arrival (visit_of 9 false ∷ [])))
        ≡ responses 0 (map arrival (gone ∷ visit_of 7 false ∷ [])) ++ replicate 2 none)
    × ((visit_of 8 true).finds ≡ false
        → let without =
            responses 0
              (map arrival (gone ∷ visit_of 7 false ∷ []) ++ map arrival (visit_of 9 false ∷ [])) in
          responses 0 (
            map arrival (gone ∷ visit_of 7 false ∷ [])
            ++ (arrival (visit_of 8 true) ∷ map arrival (visit_of 9 false ∷ [])))
          ≡ take 2 without ++ (none ∷ drop 2 without))
unfolding arrival visitor client dos_client ask
dos_lem_example =
    dos_lem (gone ∷ visit_of 7 false ∷ []) (visit_of 9 false ∷ []) (visit_of 8 true) 3 0
      (refl, (refl, tt)) refl refl refl

-- Between the two clients there is a dos_client whose FIFO is gone.
responses_apart_example : 0 + 3 ≤ 3
unfolding responses respond event serve_one arrival visitor client dos_client ask
responses_apart_example =
    responses_apart (map arrival (visit_of 7 false ∷ gone ∷ visit_of 9 false ∷ [])) 0 0 2 3 0 3
      (arrival (visit_of 7 false)) (omega arith) (omega arith) refl refl refl refl
