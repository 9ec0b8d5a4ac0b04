-- ===== src/Driver/System.antt =====
-- The device of hw12/demo.c and the processes that use it, interleaved in any order. A process that
-- opens takes two steps: the exchange on `already_open`, and the rest of `device_open`.
pub mod Invariant
pub mod Safety
use nsysu_system_programming.Prelude.{
  ℕ, ◌≡◌, Bool, true, false, some, [], ◌++◌, ◌==◌, if◌then◌else◌, replicate, Str, update,
}
use nsysu_system_programming.Driver.{
  Device, claim, greet, device_read, device_release, device_write,
}

-- `got` is what a process has read since it opened the device or last met the end of the message.
pub data Session : Type 0 where
  closed : Session
  opening : Session
  opened : (offset : ℕ) (got : Str) → Session

pub record System : Type 0 where
  pub device : Device
  pub session : ℕ → Session

pub data Step (s : System) : System → Type 0 where
  refused :
      (i : ℕ)
      → s.session i ≡ closed
      → (claim s.device).0 ≡ false
      → Step s (record s { device = (claim s.device).1 })
  claimed :
      (i : ℕ)
      → s.session i ≡ closed
      → (claim s.device).0 ≡ true
      → Step s (record { device = (claim s.device).1; session = update s.session i opening })
  greeted :
      (i : ℕ) (got : Bool)
      → s.session i ≡ opening
      → Step s (record { device = greet got s.device; session = update s.session i (opened 0 []) })
  reads :
      (i len : ℕ) {offset offset' : ℕ} {old bytes : Str}
      → s.session i ≡ opened offset old
      → device_read s.device.msg len offset ≡ some (bytes, offset')
      → Step s (record s {
        session = update s.session i (opened offset' (if offset' == 0 then [] else old ++ bytes));
      })
  writes : (i : ℕ) → Step s (record s { device = (device_write s.device).1 })
  releases :
      (i : ℕ) {offset : ℕ} {old : Str}
      → s.session i ≡ opened offset old
      → Step s
          (record { device = (device_release s.device).1; session = update s.session i closed })

-- The module's variables when it is loaded: all zero.
abbrev pub loaded : Device
loaded = record { already_open = 0; counter = 0; msg = replicate 80 0; refs = 0 }

pub data Reach : System → Type 0 where
  start : Reach (record { device = loaded; session = λ _. closed })
  later : {s t : System} → Reach s → Step s t → Reach t

abbrev pub holds_device : Session → Bool
holds_device closed = false
holds_device opening = true
holds_device (opened offset got) = true
