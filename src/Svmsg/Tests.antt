-- ===== src/Svmsg/Tests.antt =====
-- The theorems on the file server of hw8/46-2 at a file of two blocks, where `msgsnd` takes every
-- positive type.
use nsysu_system_programming.Prelude.{
  ℕ, ◌^◌, ◌≡◌, refl, ◌≢◌, ◌⊎◌, Bool, true, ◌&&◌, none, some, List, [], ◌∷◌, arith, ltb, Str, codes,
  pos,
}
use nsysu_system_programming.Svmsg.Client.{client_main, Leaves, AsksOnce, client_main-Leaves}
use nsysu_system_programming.Svmsg.{
  serve_request, received, failed, waits, client, zero_data, high_word, read_into,
}
use nsysu_system_programming.Svmsg.Server.{
  Happening, Request, request, interrupted, broken, child_ends, sigchld, serve_loop, started,
  serve_loop_lem,
}
use nsysu_system_programming.Svmsg.Transfer.{
  IsMsgsnd, last_data, serve_request_lem, serve_request-failed,
}

abbrev kernel : ℕ → Bool
kernel kind = ltb 0 kind && ltb kind (2 ^ 63)

kernel-IsMsgsnd : IsMsgsnd kernel
kernel-IsMsgsnd = record { positive = λ kind. ground arith }

abbrev file : List Str
file = (1 ∷ 2 ∷ 3 ∷ 4 ∷ 5 ∷ []) ∷ (6 ∷ []) ∷ []

serve_request_lem_example :
    ((high_word (last_data zero_data file) ≢ 0)
      × (client (serve_request kernel (some file) (codes "f")) ≡ received 6 (pos 2)))
    ⊎ ((high_word (last_data zero_data file) ≡ 0)
        × (client (serve_request kernel (some file) (codes "f")) ≡ waits))
unfolding read_into
serve_request_lem_example =
    serve_request_lem kernel-IsMsgsnd file (codes "f") (omega arith, (omega arith, tt))

serve_request_failed_run : client (serve_request kernel none (codes "f")) ≡ failed
serve_request_failed_run = serve_request-failed kernel-IsMsgsnd (codes "f")

-- An empty file leaves the client waiting.
empty_file : (high_word (last_data zero_data []) ≡ 0)
empty_file = refl

abbrev a_request : Request
a_request = record { client_id = 3; pathname = codes "f" }

abbrev happenings : List (Happening Request)
happenings =
    request a_request ∷ interrupted ∷ child_ends ∷ sigchld ∷ broken ∷ request a_request ∷ []

serve_loop_lem_example :
    ((serve_loop happenings started).served ≡ a_request ∷ [])
    × ((serve_loop happenings started).is_over ≡ true)
    × ((serve_loop happenings started).removed ≡ true)
serve_loop_lem_example = serve_loop_lem happenings

client_main-Leaves_run :
    Leaves (
      client_main
        (codes "f" ∷ [])
        (record { finds_server = true; own = some 3; has_handler = true; sends = true })
        [])
    × AsksOnce (codes "f") (
        client_main
          (codes "f" ∷ [])
          (record { finds_server = true; own = some 3; has_handler = true; sends = true })
          [])
client_main-Leaves_run =
    client_main-Leaves (codes "f")
      (record { finds_server = true; own = some 3; has_handler = true; sends = true }) []
