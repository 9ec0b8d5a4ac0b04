-- ===== src/Pmsg/Server.antt =====
-- `main` and the signal handler of hw9/52-3/pmsg_file_server.c. The loop is that of hw8/46-2, with
-- `mq_receive` in place of `msgrcv`; each child serves the request that it was started for.
use nsysu_system_programming.Prelude.{
  ℕ, zero, suc, ◌≡◌, ap, ◌∙◌, Option, some, List, [], ◌∷◌, ◌++◌, map, length, get_elem?, drop, All,
  Str, some_inj, none_ne_some,
}
use nsysu_system_programming.Svmsg.Server.{
  Happening, Server, serve_loop, started, requests, serve_loop_lem,
}
use nsysu_system_programming.Pmsg.{zero_data, ResponseMsg, serve_request, wrote, proc_resp}
use nsysu_system_programming.Pmsg.Transfer.{flat, last_block, serve_request-proc_resp}
use nsysu_system_programming.Pmsg.{msg_size}

-- `struct requestMsg`
pub record RequestMsg : Type 0 where
  pub client_path : Str
  pub pathname : Str

-- `main`, from the making of the queue on.
unfoldable pub server_main : List (Happening RequestMsg) → Server RequestMsg
server_main hs = serve_loop hs started

-- What a child sends, and to which queue, where `files` gives the blocks of a file.
unfoldable pub answer : (files : Str → Option (List Str)) → RequestMsg → Str × List ResponseMsg
answer files r = (r.client_path, serve_request (files r.pathname) r.pathname)

get_elem?-map {ℓ κ} :
    {A : Type ℓ} {B : Type κ} (f : A → B) (xs : List A) (i : ℕ) (a : A)
    → get_elem? xs i ≡ some a
    → get_elem? (map f xs) i ≡ some (f a)
get_elem?-map f [] i a e = absurd (none_ne_some e)
get_elem?-map f (x ∷ xs) zero a e = ap (λ z. some (f z)) (some_inj e)
get_elem?-map f (x ∷ xs) (suc i) a e = get_elem?-map f xs i a e

-- Whatever interrupts the server, each request that comes before its end is answered, by its own child
-- and on the queue that it names: a client that reads the answer to a request for a file whose blocks
-- are whole but for the last one writes that file, with a block of NULs in front of it and, behind a
-- short last block, what the block before left in the buffer.
pub file_server_lem :
    (hs : List (Happening RequestMsg)) (files : Str → Option (List Str)) (i : ℕ) (r : RequestMsg)
    (cs : List Str) (last : Str)
    → get_elem? (requests hs) i ≡ some r
    → files r.pathname ≡ some (cs ++ (last ∷ []))
    → All (λ (c : Str). length c ≡ msg_size) cs
    → (qs : List ResponseMsg) × (get_elem? (map (answer files) (server_main hs).served) i
        ≡ some (r.client_path, qs))
      × (proc_resp zero_data qs
          ≡ wrote
              (zero_data ++ (flat cs ++ (last ++ drop (length last) (last_block zero_data cs)))))
unfolding server_main answer
file_server_lem hs files i r cs last here file whole = (
  serve_request (files r.pathname) r.pathname,
  get_elem?-map (answer files) (server_main hs).served i r
      (ap (λ rs. get_elem? rs i) (serve_loop_lem hs).0 ∙ here),
  ap (λ f. proc_resp zero_data (serve_request f r.pathname)) file
      ∙ serve_request-proc_resp cs last r.pathname whole,
)
