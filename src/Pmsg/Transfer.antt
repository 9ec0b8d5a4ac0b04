-- ===== src/Pmsg/Transfer.antt =====
-- What the client of hw9/52-3 writes of a file.
use nsysu_system_programming.Prelude.{
  ◌≡◌, refl, sym, ap, ◌∙◌, some, List, [], ◌∷◌, ◌++◌, append-nil, append_assoc, arith, length, drop,
  All, Str, drop-out,
}
use nsysu_system_programming.Pmsg.{
  msg_size, zero_data, fill_data, send_file, serve_request, wrote, behind, proc_resp,
}

abbrev pub flat : List Str → Str
flat [] = []
flat (c ∷ cs) = c ++ flat cs

-- What the buffer has once these blocks were read into it.
abbrev pub last_block : Str → List Str → Str
last_block d [] = d
last_block d (c ∷ cs) = last_block c cs

fill_data-whole : (c d : Str) → length c ≡ length d → fill_data c d ≡ c
unfolding fill_data
fill_data-whole c d h = ap (λ zs. c ++ zs) (drop-out (length c) d (omega arith)) ∙ append-nil c

proc_resp_lem :
    (cs : List Str) (d last : Str)
    → length d ≡ msg_size
    → All (λ (c : Str). length c ≡ msg_size) cs
    → proc_resp d (send_file d (cs ++ (last ∷ [])))
      ≡ wrote (d ++ (flat cs ++ (last ++ drop (length last) (last_block d cs))))
unfolding proc_resp send_file fill_data
proc_resp_lem [] d last whole h = refl
proc_resp_lem (c ∷ cs) d last whole h =
    let block = fill_data-whole c d (h.0 ∙ sym whole) in
    let rest = proc_resp_lem cs c last h.0 h.1 in
    ap (λ e. behind d (proc_resp e (send_file e (cs ++ (last ∷ []))))) block
    ∙ (ap (behind d) rest ∙ ap (λ zs. wrote (d ++ zs)) (sym (append_assoc c (flat cs) _)))

-- Where `read` gives whole blocks but for the last one, the client writes the file, but in front of it
-- one block of NULs, and behind it, where the last block of the file is short, the bytes that the block
-- before it has left in the buffer.
pub serve_request-proc_resp :
    (cs : List Str) (last path : Str)
    → All (λ (c : Str). length c ≡ msg_size) cs
    → proc_resp zero_data (serve_request (some (cs ++ (last ∷ []))) path)
      ≡ wrote (zero_data ++ (flat cs ++ (last ++ drop (length last) (last_block zero_data cs))))
unfolding serve_request
serve_request-proc_resp cs last path h = proc_resp_lem cs zero_data last refl h
