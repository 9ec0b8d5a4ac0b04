-- ===== src/Shell/Strtok.antt =====
-- The calls of `strtok` that hw4/part2/parser.c makes on one text, over any set of delimiters;
-- `strtok` itself is the C library's.
pub mod Join
use nsysu_system_programming.Prelude.{ℕ, Bool, List, [], ◌∷◌, ◌++◌, if◌then◌else◌, Str}

-- A token that has come to its end.
abbrev pub flush : Str → List Str → List Str
flush [] rest = rest
flush (c ∷ cur) rest = (c ∷ cur) ∷ rest

-- All that `strtok` gives, one call after the other, behind the bytes of the token so far.
unfoldable pub tokens : (ℕ → Bool) → Str → Str → List Str
tokens is_delim cur [] = flush cur []
tokens is_delim cur (c ∷ s) =
    let ended = tokens is_delim [] s in
    let longer = tokens is_delim (cur ++ (c ∷ [])) s in
    if is_delim c then flush cur ended else longer
