-- ===== src/Driver/System/Safety.antt =====
-- What holds in every state of the device of hw12/demo.c that its processes can reach.
use nsysu_system_programming.Prelude.{
  ℕ, ◌≤◌, min, ◌≡◌, ap, ◌∙◌, inl, inr, true, some, arith, length, take, length-take, Str,
}
use nsysu_system_programming.Driver.{device_read}
use nsysu_system_programming.Driver.Message.{Holds}
use nsysu_system_programming.Driver.Read.{device_read_lem}
use nsysu_system_programming.Driver.System.{opened, System, Reach, holds_device}
use nsysu_system_programming.Driver.System.Invariant.{Reach-Inv}

-- In every state that the processes can reach, at most one has the device open or is opening it.
pub exclusive :
    {s : System} (r : Reach s) (i j : ℕ)
    → holds_device (s.session i) ≡ true
    → holds_device (s.session j) ≡ true
    → i ≡ j
exclusive r i j hi hj = (Reach-Inv r).unique i j hi hj

-- In every reachable state a process that has the device open has read, since it opened it or last
-- met its end, exactly the first bytes of one message, which still stands in `msg`; its offset is
-- their number, and its next read, of whatever length, does not leave the buffer.
pub reads_message :
    {s : System} (r : Reach s) (i offset : ℕ) (got : Str)
    → s.session i ≡ opened offset got
    → (text : Str) × Holds text s.device.msg
      × (got ≡ take offset text)
      × (length got ≡ offset)
      × ((len : ℕ) → (res : Str × ℕ) × (device_read s.device.msg len offset ≡ some res))
reads_message {s} r i offset got h =
    let reader = (Reach-Inv r).readers i offset got h in
    let count : length (take offset reader.text) ≡ offset =
      length-take offset reader.text ∙ min_left reader.within in
    (
      reader.text,
      reader.shown,
      reader.front,
      ap length reader.front ∙ count,
      λ len. elim (device_read_lem reader.text s.device.msg len offset reader.shown reader.within) [
        | inl (here, e) ↦ (_, e)
        | inr (room, e) ↦ (_, e)
      ],
    )
  where
    min_left : {n m : ℕ} → n ≤ m → min n m ≡ n
    min_left le = omega arith
