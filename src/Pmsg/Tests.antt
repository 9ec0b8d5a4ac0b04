-- ===== src/Pmsg/Tests.antt =====
-- The theorems on the file server of hw9/52-3 at a file of three bytes.
use nsysu_system_programming.Prelude.{
  ◌≡◌, refl, true, false, Option, none, some, List, [], ◌∷◌, ◌++◌, map, arith, get_elem?, drop, Str,
  codes,
}
use nsysu_system_programming.Svmsg.Server.{
  Happening, request, interrupted, broken, child_ends, sigchld,
}
use nsysu_system_programming.Pmsg.{ResponseMsg, zero_data, serve_request, wrote, failed, proc_resp}
use nsysu_system_programming.Pmsg.Transfer.{serve_request-proc_resp}
use nsysu_system_programming.Pmsg.Server.{RequestMsg, server_main, answer, file_server_lem}
use nsysu_system_programming.Pmsg.Client.{made, answered, foo_path, client_main, client_main_lem}

serve_request-proc_resp_run :
    proc_resp zero_data (serve_request (some ((1 ∷ 2 ∷ 3 ∷ []) ∷ [])) (codes "f"))
    ≡ wrote (zero_data ++ (1 ∷ 2 ∷ 3 ∷ drop 3 zero_data))
serve_request-proc_resp_run = serve_request-proc_resp [] (1 ∷ 2 ∷ 3 ∷ []) (codes "f") tt

abbrev a_request : RequestMsg
a_request = record { client_path = codes "/foo_"; pathname = codes "f" }

abbrev happenings : List (Happening RequestMsg)
happenings = interrupted ∷ request a_request ∷ child_ends ∷ sigchld ∷ broken ∷ []

abbrev the_file : Str → Option (List Str)
the_file path = some ((1 ∷ 2 ∷ 3 ∷ []) ∷ [])

file_server_lem_example :
    (qs : List ResponseMsg) × (get_elem? (map (answer the_file) (server_main happenings).served) 0
      ≡ some (codes "/foo_", qs))
    × (proc_resp zero_data qs ≡ wrote (zero_data ++ (1 ∷ 2 ∷ 3 ∷ drop 3 zero_data)))
file_server_lem_example =
    file_server_lem happenings the_file 0 a_request [] (1 ∷ 2 ∷ 3 ∷ []) refl refl tt

client_main_lem_example :
    (client_main
        (codes "f" ∷ [])
        (record { finds_server = true; queue = made; sends = true })
        (serve_request (some ((1 ∷ 2 ∷ 3 ∷ []) ∷ [])) (codes "f"))
      ≡ record {
        sent = record { client_path = foo_path; pathname = codes "f" } ∷ [];
        end = answered (wrote (zero_data ++ (1 ∷ 2 ∷ 3 ∷ drop 3 zero_data)));
        queue_left = false;
      })
    × (client_main
          (codes "f" ∷ [])
          (record { finds_server = true; queue = made; sends = true })
          (serve_request none (codes "f"))
        ≡ record {
          sent = record { client_path = foo_path; pathname = codes "f" } ∷ [];
          end = answered failed;
          queue_left = true;
        })
client_main_lem_example =
    client_main_lem (codes "f") (1 ∷ 2 ∷ 3 ∷ []) []
      (record { finds_server = true; queue = made; sends = true }) (ground arith) (omega arith) refl
      (ground arith) refl tt
