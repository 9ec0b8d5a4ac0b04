-- ===== src/Driver/Tests.antt =====
-- The theorems on the device of hw12/demo.c at its first message, read in chunks of 20 bytes.
use nsysu_system_programming.Prelude.{
  ◌%◌, ◌^◌, suc, if◌then◌else◌, ℕ, ◌+◌, ◌-◌, ◌<◌, min, ◌≡◌, refl, sym, ◌⊎◌, ◌≢◌, true, some, [],
  ◌∷◌, ◌++◌, arith, length, take, drop, Str, codes,
}
use nsysu_system_programming.Driver.{Device, buf_len, greeting, greet, claim, device_read}
use nsysu_system_programming.Driver.Message.{Holds, greet-Holds}
use nsysu_system_programming.Driver.Client.{client, client_shows}
use nsysu_system_programming.Driver.Read.{device_read_lem, read_all, read_all_lem}
use nsysu_system_programming.Driver.System.{
  System, refused, claimed, greeted, reads, loaded, Reach, start, later,
}
use nsysu_system_programming.Driver.System.Safety.{exclusive, reads_message}

abbrev first : Device
first = greet true loaded

abbrev first_text : Str
first_text = codes "I already told you 0 times Hello world!" ++ (10 ∷ [])

first-text : greeting 0 ≡ first_text
unfolding greeting
first-text = refl

greet_Holds_run :
    Holds (greeting 0) first.msg × (length (greeting 0) < buf_len) × (length first.msg ≡ buf_len)
greet_Holds_run = greet-Holds true loaded (omega arith) refl

first-Holds : Holds first_text first.msg
first-Holds = rw (sym first-text) greet_Holds_run.0

device_read_lem_run :
    ((◌≡◌ {A = ℕ} 20 40) × (device_read first.msg 30 20 ≡ some ([], 0)))
    ⊎ ((20 < 40)
        × (device_read first.msg 30 20
            ≡ some (take 30 (drop 20 first_text), 20 + min 30 (40 - 20))))
device_read_lem_run = device_read_lem first_text first.msg 30 20 first-Holds (omega arith)

read_all_lem_example : read_all 50 first.msg 20 0 ≡ some (first_text, 0)
read_all_lem_example =
    read_all_lem 50 20 first_text first.msg 0 first-Holds (omega arith) (omega arith) (omega arith)

-- Process 0 opens the device, process 1 is refused, and process 0 reads 20 bytes.
seen : (s : System) × Reach s
unfolding claim greet greeting device_read
seen =
    let opened_it =
      later (later (later start (claimed 0 refl refl)) (refused 1 refl refl))
        (greeted 0 true refl) in
    (_, later opened_it (reads 0 20 {bytes = take 20 first_text} refl refl))

exclusive_example : ◌≡◌ {A = ℕ} 0 0
unfolding seen
exclusive_example = exclusive seen.1 0 0 refl refl

reads_message_example :
    (text : Str) × Holds text seen.0.device.msg
    × (take 20 first_text ≡ take 20 text)
    × (length (take 20 first_text) ≡ 20)
    × ((len : ℕ) → (res : Str × ℕ) × (device_read seen.0.device.msg len 20 ≡ some res))
unfolding seen
reads_message_example = reads_message seen.1 0 20 (take 20 first_text) refl

client_shows_example :
    (loaded.already_open ≡ 0
      → client true loaded
        ≡ some (record {
          printed = greeting 0;
          write_refused = true;
          device = record {
            already_open = 0;
            counter = (loaded.counter + 1) % 2 ^ 32;
            msg = greeting 0 ++ (0 ∷ drop (suc (length (greeting 0))) loaded.msg);
            refs = (if true then loaded.refs + 1 else loaded.refs) - 1;
          };
        }))
    × (loaded.already_open ≢ 0
        → client true loaded
          ≡ some (record { printed = []; write_refused = true; device = loaded }))
client_shows_example = client_shows true loaded (omega arith) refl
