-- ===== src/Broadcast/Tests.antt =====
-- The theorem on the broadcast buffer of hw10 with one message and two slots.
use nsysu_system_programming.Prelude.{
  ℕ, ◌≤◌, ◌<◌, ◌≡◌, refl, ◌⊎◌, arith, length, pos, negsuc, List, [], ◌∷◌, ◌++◌, ◌+◌, ◌*◌, map, some,
  none,
}
use nsysu_system_programming.Broadcast.{
  Consumer, running, returned, consume, System, sends, closes, consumes, Reach, start, later,
}
use nsysu_system_programming.Broadcast.Counts.{counts_lem}
use nsysu_system_programming.Broadcast.Collect.{collect_child, received, total, received_lem}

abbrev Run : Type 0
Run = (s : System) × Reach 1 2 s

-- Consumer 0 reads the message, then meets the -1 and returns.
read_out : Run
unfolding consume
read_out = (
  _,
  later (later (later (later start (sends (omega arith))) (closes refl refl)) (consumes 0 refl))
      (consumes 0 refl),
)

counts_lem_example :
    ((c : Consumer) × (read_out.0.consumer 0 ≡ running c)
      × (c.at < length read_out.0.slots)
      × ((c.counter ≤ read_out.0.next) ⊎ ((read_out.0.next ≡ 0) × (c.counter ≤ 1))))
    ⊎ ((failed : ℕ) × (read_out.0.consumer 0 ≡ returned failed) × (failed ≤ 1))
counts_lem_example = counts_lem (omega arith) (omega arith) (omega arith) read_out.1 0

-- A consumer counts message 0 before it is sent, since the slots are 0 from the beginning.
too_early :
    consume 1 2 (pos 0) (record { counter = 0; prev = negsuc 0; at = 0 })
    ≡ running (record { counter = 1; prev = pos 0; at = 1 })
unfolding consume
too_early = refl

abbrev missed : List ℕ
missed = 3 ∷ 1 ∷ []

received_lem_run :
    (received 10 2 (collect_child 2 0 (map some missed ++ (none ∷ [])))).1 + total missed
    ≡ 10 * length missed
received_lem_run = received_lem 10 missed [] (omega arith) (omega arith)
