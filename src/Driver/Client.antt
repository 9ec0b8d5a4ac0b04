-- ===== src/Driver/Client.antt =====
-- hw12/client.c at the device of hw12/demo.c, and `demo_init` and `demo_exit`.
use nsysu_system_programming.Prelude.{
  ℕ, suc, ◌+◌, ◌-◌, ◌%◌, ◌^◌, ◌<◌, min, ◌≡◌, refl, ap, ◌∙◌, ◌≢◌, inl, inr, Bool, true, false,
  Option, none, some, [], ◌∷◌, ◌++◌, arith, ◌==◌, if◌then◌else◌, ==_iff, ==-false, length,
  replicate, drop, All, All-imp, Str, ℤ, pos, negsuc, take-all, All-imp, before_nul,
  before_nul-append,
}
use nsysu_system_programming.Driver.{
  Device, buf_len, greeting, greet, claim, print_into, device_open, device_release, device_read,
  device_write,
}
use nsysu_system_programming.Driver.Message.{Holds, greet-Holds}
use nsysu_system_programming.Driver.Read.{device_read_lem}

-- What the kernel has of the driver.
pub record Registered : Type 0 where
  pub chrdev : Bool
  pub has_class : Bool
  pub has_device : Bool

-- `demo_init`, where `major` is what `register_chrdev` gives.
unfoldable pub demo_init : (major : ℤ) → Registered → ℤ × Registered
demo_init (pos major) r = (pos 0, record { chrdev = true; has_class = true; has_device = true })
demo_init (negsuc n) r = (negsuc n, r)

unfoldable pub demo_exit : Registered → Registered
demo_exit r = record { chrdev = false; has_class = false; has_device = false }

-- What the client prints, whether its write was refused, and the device afterwards.
pub record Ended : Type 0 where
  pub printed : Str
  pub write_refused : Bool
  pub device : Device

abbrev pub is_negative : ℤ → Bool
is_negative (pos n) = false
is_negative (negsuc n) = true

-- `printf("%s", buf)` with these bytes in front of the zeros of `buf`.
abbrev pub shown : Str → Str
shown bytes = before_nul (bytes ++ replicate (256 - length bytes) 0)

abbrev pub after_read : Device → Option (Str × ℕ) → Option Ended
after_read d none = none
after_read d (some (bytes, offset)) =
    let w = device_write d in
    some (record {
      printed = shown bytes;
      write_refused = is_negative w.0;
      device = (device_release w.1).1;
    })

-- With the descriptor -1 no call has an effect, and none is checked but the write.
abbrev pub after_open : ℤ × Device → Option Ended
after_open (pos n, d) = after_read d (device_read d.msg 256 0)
after_open (negsuc n, d) = some (record { printed = shown []; write_refused = true; device = d })

-- `main` of client.c; `none` is an access of the driver outside of its buffer.
unfoldable pub client : (got : Bool) → Device → Option Ended
unfolding device_open device_release device_write
client got d = after_open (device_open got d)

shown-whole : (s : Str) → All (λ c. c ≢ 0) s → length s < 80 → shown s ≡ s
shown-whole s vis short =
    let room : 256 - length s ≡ suc (255 - length s) = omega arith in
    ap (λ n. before_nul (s ++ replicate n 0)) room
    ∙ before_nul-append s (replicate (255 - length s) 0)
        (All-imp (λ c. c ≢ 0) (λ c. (c == 0) ≡ false) s (λ c h. ==-false c 0 h) vis)

-- A read of 256 bytes at the front of the message gives all of it.
whole_message :
    (text msg : Str)
    → Holds text msg
    → length text < 80
    → 0 < length text
    → (offset : ℕ) × (device_read msg 256 0 ≡ some (text, offset))
whole_message text msg holds short some_text =
    elim (device_read_lem text msg 256 0 holds (omega arith)) [
      | inl (here, e) ↦ absurd (omega (arith, here))
      | inr (room, e) ↦ (
        0 + min 256 (length text - 0),
        e ∙ ap (λ t. some (t, 0 + min 256 (length text - 0))) (take-all 256 text (omega arith)),
      )
    ]

abbrev claimed : Bool → Device → Bool × Device
claimed b d = if b then (true, record d { already_open = 1 }) else (false, d)

abbrev greeted : Bool → Bool × Device → ℤ × Device
greeted got r = if r.0 then (pos 0, greet got r.1) else (negsuc 15, r.1)

device_open-free :
    (got : Bool) (d : Device)
    → d.already_open ≡ 0
    → device_open got d ≡ (pos 0, greet got (record d { already_open = 1 }))
unfolding device_open claim
device_open-free got d h = ap (λ b. greeted got (claimed b d)) ((==_iff d.already_open 0).1 h)

device_open-busy :
    (got : Bool) (d : Device) → d.already_open ≢ 0 → device_open got d ≡ (negsuc 15, d)
unfolding device_open claim
device_open-busy got d h = ap (λ b. greeted got (claimed b d)) (==-false d.already_open 0 h)

some_greeting : (c : ℕ) → 0 < length (greeting c)
unfolding greeting
some_greeting c = omega arith

-- For the word of `counter` and a `msg` of 80 bytes: while no process has the device open, the client
-- prints the message with the number of the openings so far, and its write is refused; afterwards the
-- device is free again, has counted one opening more and has that message and its NUL at the front of
-- its buffer, and the reference to the module is given back, also where none was taken. While a process
-- has it open, the client prints nothing, its write is refused, and the device does not change.
pub client_shows :
    (got : Bool) (d : Device)
    → d.counter < 2 ^ 32
    → length d.msg ≡ buf_len
    → (d.already_open ≡ 0
        → client got d
          ≡ some (record {
            printed = greeting d.counter;
            write_refused = true;
            device = record {
              already_open = 0;
              counter = (d.counter + 1) % 2 ^ 32;
              msg = greeting d.counter ++ (0 ∷ drop (suc (length (greeting d.counter))) d.msg);
              refs = (if got then d.refs + 1 else d.refs) - 1;
            };
          }))
      × (d.already_open ≢ 0
          → client got d ≡ some (record { printed = []; write_refused = true; device = d }))
unfolding client device_write device_release greet print_into
client_shows got d small whole =
    let taken = record d { already_open = 1 } in
    let filled = greet-Holds got taken small whole in
    let whole_text =
      whole_message (greeting d.counter) (greet got taken).msg filled.0 filled.1
        (some_greeting d.counter) in
    (
      λ free.
          ap after_open (device_open-free got d free)
          ∙ ap (after_read (greet got taken)) whole_text.1
          ∙ ap
              (λ t. some (record {
                printed = t;
                write_refused = true;
                device = (device_release (greet got taken)).1;
              }))
              (shown-whole (greeting d.counter) filled.0.visible filled.1),
      λ busy. ap after_open (device_open-busy got d busy),
    )

abbrev pub unregistered : Registered
unregistered = record { chrdev = false; has_class = false; has_device = false }

-- Loading the driver and unloading it leaves nothing with the kernel, and a refused registration
-- changes nothing.
pub demo_exit-demo_init :
    (major : ℤ)
    → (demo_exit (demo_init major unregistered).1 ≡ unregistered)
      × (is_negative (demo_init major unregistered).0 ≡ true
          → (demo_init major unregistered).1 ≡ unregistered)
unfolding demo_exit demo_init
demo_exit-demo_init (pos n) = (refl, λ h. absurd (ground arith))
demo_exit-demo_init (negsuc n) = (refl, λ h. refl)
