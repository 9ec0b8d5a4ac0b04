-- ===== src/Dict/Remote/Servers.antt =====
-- `main` of the stream server hw11/part1/usock_server.c, where each connection is served by a child,
-- which maps the dictionary for itself, and of the datagram server hw11/part3/udp_server.c. `fork` is
-- taken to succeed.
use nsysu_system_programming.Prelude.{
  replicate, ℕ, zero, suc, ◌≡◌, refl, ap, ◌∙◌, Bool, true, false, Option, none, some, List, [], ◌∷◌,
  ◌++◌, map, length, take, All, Str,
}
use nsysu_system_programming.Dict.{Dictrec, connect}
use nsysu_system_programming.Dict.Search.{mapped}
use nsysu_system_programming.Dict.Remote.{serve_all, serve_datagram, padded}
use nsysu_system_programming.Dict.Remote.Answers.{IsRecord, IsKey, meaning, datagram_answer}

-- What `accept` gives: a connection, with what the reads of it will give, or -1, as behind a signal,
-- whose handler closes the socket.
pub data Accept : Type 0 where
  connects : (reads : List (Option Str)) → Accept
  fails : Accept

-- What each child writes back (`none` if the table has no end), the children that nobody waits for, and
-- whether the server is over and its socket still there.
pub record Ran : Type 0 where
  pub answers : List (Option (List (Option Str)))
  pub not_waited : ℕ
  pub is_over : Bool
  pub socket_left : Bool

abbrev pub listening : Ran
listening = record { answers = []; not_waited = 0; is_over = false; socket_left = true }

abbrev pub when_connected : List Dictrec → List (Option Str) → Option ℕ → Option (List (Option Str))
when_connected table reads none = none
when_connected table reads (some dict_len) = some (serve_all dict_len table reads)

-- `serve_request` in the child.
unfoldable pub child : List Dictrec → List (Option Str) → Option (List (Option Str))
child table reads = when_connected table reads (connect 1 table)

-- The `while` loop and what follows it.
unfoldable pub accept_loop : List Dictrec → List Accept → Ran → Ran
unfolding child
accept_loop table [] r = r
accept_loop table (fails ∷ more) r = record r { is_over = true; socket_left = false }
accept_loop table (connects reads ∷ more) r =
    accept_loop table more
      (record r { answers = r.answers ++ (child table reads ∷ []); not_waited = suc r.not_waited })

-- The reads of a client that asks for these words and then closes: each gives nothing, until one gives
-- the error, or there is none.
abbrev pub asks : List Str → (n : ℕ) → List (Option Str)
asks [] zero = none ∷ []
asks [] (suc n) = some [] ∷ asks [] n
asks (w ∷ ws) n = some (w ++ (0 ∷ [])) ∷ asks ws n

abbrev pub client_of : List Str × ℕ → Accept
client_of (ws, n) = connects (asks ws n)

-- The answers that it gets.
abbrev pub told : List Dictrec → List Str → (n : ℕ) → List (Option Str)
told rs [] n = replicate n (some (0 ∷ []))
told rs (w ∷ ws) n = some (meaning rs w ++ (0 ∷ [])) ∷ told rs ws n

-- One round of the loop of udp_server.c: a message without a byte is passed over, but an error of
-- `recvfrom` is not, and is served as a message of NULs.
abbrev pub on_message : ℕ → List Dictrec → Option Str → List (Option Str) → List (Option Str)
on_message dict_len table none rest = serve_datagram dict_len table [] ∷ rest
on_message dict_len table (some []) rest = rest
on_message dict_len table (some (c ∷ msg)) rest = serve_datagram dict_len table (c ∷ msg) ∷ rest

-- The replies of udp_server.c, behind its `my_connect`.
unfoldable pub udp_loop : ℕ → List Dictrec → List (Option Str) → List (Option Str)
unfolding serve_datagram
udp_loop dict_len table [] = []
udp_loop dict_len table (m ∷ ms) = on_message dict_len table m (udp_loop dict_len table ms)

-- What lookup9.c sends for a word.
abbrev pub datagram : (behind word : Str) → Option Str
datagram behind word = some (take 32 (word ++ (0 ∷ behind)))

module _ (rs rest : List Dictrec) (h : All IsRecord rs) where
  -- Messages for words of 1 to 31 bytes are answered in order, each by one datagram of 480 bytes with the
  -- meaning of the word.
  pub udp_loop_lem :
      (behind : Str) (ws : List Str)
      → All IsKey ws
      → udp_loop (suc (length rs)) (mapped rs rest) (map (datagram behind) ws)
        ≡ map (λ w. some (padded 480 (meaning rs w))) ws
  unfolding udp_loop
  udp_loop_lem behind [] keys = refl
  udp_loop_lem behind ([] ∷ ws) keys = absurd (keys.0.0 refl)
  udp_loop_lem behind ((c ∷ w) ∷ ws) keys =
      ap (λ o. o ∷ udp_loop (suc (length rs)) (mapped rs rest) (map (datagram behind) ws))
        (datagram_answer rs rest h [] behind (c ∷ w) keys.0)
      ∙ ap (λ t. some (padded 480 (meaning rs (c ∷ w))) ∷ t) (udp_loop_lem behind ws keys.1)
