-- ===== src/Dict/Remote.antt =====
-- The dictionary asked over a socket: `serve_request` of usock_server.c (hw11/part1), which
-- isock_server.c (hw11/part2) has too, and of udp_server.c (hw11/part3); the `lookup` of lookup7.c,
-- lookup8.c and lookup9.c; and the loop of main.c that asks for words. A message comes whole in one
-- read.
pub mod Answers
pub mod Client
pub mod Servers
use nsysu_system_programming.Prelude.{
  ℕ, zero, suc, min, Option, none, some, List, [], ◌∷◌, ◌++◌, ltb, if◌then◌else◌, length, take,
  drop, replicate, Str, codes, before_nul, fgets,
}
use nsysu_system_programming.Dict.{Dictrec, Answer, found, notfound, faulted, lookup}

-- `try_it.text` before the search.
abbrev pub not_found : Str
not_found = codes "Not Found!\n"

-- `try_it.text` after the search; `none` if the search left the table.
abbrev pub text_of : Answer → Option Str
text_of (found text) = some text
text_of notfound = some not_found
text_of faulted = none

-- `strlen(try_it.text) + 1` bytes.
abbrev pub written : Option Str → Option Str
written none = none
written (some text) = some (text ++ (0 ∷ []))

-- The body of the loop of the stream servers on the bytes of one read; `none` if `strcpy` writes past
-- the 32 bytes of the word.
unfoldable pub serve_stream : ℕ → List Dictrec → Str → Option Str
unfolding lookup
serve_stream dict_len table request =
    let word = before_nul (take 256 request) in
    if ltb (length word) 32 then written (text_of (lookup dict_len table word)) else none

-- The loop over what the reads give: bytes, none of them when the client has gone, or the error.
unfoldable pub serve_all : ℕ → List Dictrec → List (Option Str) → List (Option Str)
unfolding serve_stream
serve_all dict_len table [] = []
serve_all dict_len table (none ∷ reads) = []
serve_all dict_len table (some request ∷ reads) =
    serve_stream dict_len table request ∷ serve_all dict_len table reads

-- `n` bytes of a text and of the NULs behind it.
abbrev pub padded : ℕ → Str → Str
padded n text = take n (text ++ replicate n 0)

abbrev pub sent_whole : Option Str → Option Str
sent_whole none = none
sent_whole (some text) = some (padded 480 text)

-- `serve_request` of udp_server.c on a message, received in a block of 32 bytes that are 0 before. A
-- word that fills its field goes on in the text behind it.
unfoldable pub serve_datagram : ℕ → List Dictrec → Str → Option Str
unfolding lookup
serve_datagram dict_len table msg =
    sent_whole (text_of (lookup dict_len table (before_nul (padded 32 msg ++ not_found))))

-- `sought->text` after a read of at most its size, over what it held.
abbrev pub received : (old reply : Str) → Str
received old reply = before_nul (take 480 reply ++ drop (min 480 (length reply)) old)

abbrev pub receive : (old : Str) → Option Str → Option Str
receive old none = none
receive old (some reply) = some (received old reply)

-- `lookup` of the stream clients, and the server behind the socket.
unfoldable pub stream_lookup : ℕ → List Dictrec → (old : Str) → Str → Option Str
unfolding serve_stream
stream_lookup dict_len table old word = receive old (serve_stream dict_len table (word ++ (0 ∷ [])))

-- `lookup` of lookup9.c; `behind` is what the field holds behind the word's NUL.
unfoldable pub datagram_lookup : ℕ → List Dictrec → (old behind : Str) → Str → Option Str
unfolding serve_datagram
datagram_lookup dict_len table old behind word =
    receive old (serve_datagram dict_len table (take 32 (word ++ (0 ∷ behind))))

-- The word without its last byte; without a byte the NUL is written in front of the block.
abbrev pub strip : Str → Option Str
strip [] = none
strip (c ∷ s) = some (take (length s) (c ∷ s))

abbrev pub say : Str → Option Str → Option Str → Option Str
say word none rest = none
say word (some text) none = none
say word (some text) (some rest) = some (word ++ codes " : " ++ text ++ rest)

abbrev pub ask : (Str → Option Str) → Option Str → Option Str → Option Str
ask look none rest = none
ask look (some word) rest = say word (look word) rest

-- The loop of `main` with this `lookup`, on the input: what it prints, if nothing goes wrong in at
-- most `fuel` rounds.
unfoldable pub client_loop : ℕ → (Str → Option Str) → Str → Option Str
unfolding fgets
client_loop zero look input = none
client_loop (suc fuel) look [] = some []
client_loop (suc fuel) look (c ∷ input) =
    let (line, left) = fgets 31 (c ∷ input) in
    ask look (strip (before_nul line)) (client_loop fuel look left)

-- Every round takes a byte of the input.
unfoldable pub client_main : (Str → Option Str) → Str → Option Str
unfolding client_loop
client_main look input = client_loop (suc (length input)) look input
