-- ===== src/Nonblock/Tests.antt =====
-- The programs of hw8/44-7 at a FIFO of two bytes.
use nsysu_system_programming.Prelude.{◌<◌, ◌≡◌, none, some, [], ◌∷◌, length}
use nsysu_system_programming.Nonblock.{Fifo, nbio, nbopen}
use nsysu_system_programming.Nonblock.Printed.{shown, nbio-nbopen}

abbrev two_bytes : Fifo
two_bytes = record { writers = 1; bytes = 65 ∷ 66 ∷ [] }

nbio-nbopen_run :
    (nbopen two_bytes ≡ some (shown (65 ∷ 66 ∷ [])))
    × (two_bytes.writers ≡ 0 → nbio two_bytes ≡ none)
    × (0 < two_bytes.writers → nbio two_bytes ≡ some (shown (65 ∷ 66 ∷ [])))
    × (length (shown (65 ∷ 66 ∷ [])) ≡ 4096)
nbio-nbopen_run = nbio-nbopen two_bytes
