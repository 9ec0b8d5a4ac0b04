-- ===== src/Driver.antt =====
-- The character device of hw12/demo.c: one message, one process at a time.
pub mod Message
pub mod Read
pub mod System
pub mod Client
mod Tests
use nsysu_system_programming.Prelude.{
  ℕ, zero, suc, ◌+◌, ◌-◌, ◌%◌, ◌^◌, Bool, true, false, Option, none, some, List, [], ◌∷◌, ◌++◌, ltb,
  ◌==◌, if◌then◌else◌, length, get_elem?, drop, Str, codes, ℤ, pos, negsuc, decimal_ℤ,
}

-- The global variables. `counter` is the word of the `int` in `device_open`, `msg` all bytes of the
-- buffer, and `refs` the references that the device holds on its module.
pub record Device : Type 0 where
  pub already_open : ℕ
  pub counter : ℕ
  pub msg : List ℕ
  pub refs : ℕ

abbrev pub buf_len : ℕ
buf_len = 80

-- The `int` of a word.
abbrev pub signed_int : ℕ → ℤ
signed_int c = if ltb c (2 ^ 31) then pos c else negsuc (2 ^ 32 - 1 - c)

unfoldable pub greeting : ℕ → Str
unfolding decimal_ℤ
greeting c =
    codes "I already told you "
    ++ (decimal_ℤ (signed_int c) ++ (codes " times Hello world!" ++ (10 ∷ [])))

-- `sprintf`: the text and its NUL, in front of what the buffer had behind them.
unfoldable pub print_into : List ℕ → Str → List ℕ
print_into buf text = text ++ (0 ∷ drop (suc (length text)) buf)

-- `atomic_cmpxchg(&already_open, CDEV_NOT_USED, CDEV_EXCLUSIVE_OPEN)`, and whether it won.
unfoldable pub claim : Device → Bool × Device
claim d = if d.already_open == 0 then (true, record d { already_open = 1 }) else (false, d)

-- The rest of `device_open`, where `got` is the result of `try_module_get`.
unfoldable pub greet : Bool → Device → Device
unfolding print_into
greet got d = record d {
  msg = print_into d.msg (greeting d.counter);
  counter = (d.counter + 1) % 2 ^ 32;
  refs = if got then d.refs + 1 else d.refs;
}

-- The result is 0 or `-EBUSY`.
unfoldable pub device_open : Bool → Device → ℤ × Device
unfolding claim greet
device_open got d =
    let (won, d') = claim d in if won then (pos 0, greet got d') else (negsuc 15, d')

unfoldable pub device_release : Device → ℤ × Device
device_release d = (pos 0, record d { already_open = 0; refs = d.refs - 1 })

-- The loop of `device_read`, with `len` bytes of room left: the bytes that are put, up to the NUL.
-- `none` is an access outside of `msg`.
unfoldable pub copy_out : List ℕ → ℕ → ℕ → Option Str
copy_out msg zero at = some []
copy_out msg (suc len) at =
    let rest = copy_out msg len (suc at) in
    elim (get_elem? msg at) [
      | none ↦ none
      | some c ↦ if c == 0 then some [] else (elim rest [ none ↦ none | some cs ↦ some (c ∷ cs) ])
    ]

-- The bytes that the reader gets, whose number is the result, and the offset afterwards.
unfoldable pub device_read : List ℕ → ℕ → ℕ → Option (Str × ℕ)
unfolding copy_out
device_read msg len offset = elim (get_elem? msg offset) [
  | none ↦ none
  | some c ↦ if c == 0 then some ([], 0) else (elim (copy_out msg len offset) [
    | none ↦ none
    | some cs ↦ some (cs, offset + length cs)
  ])
]

-- The result is `-EINVAL`.
unfoldable pub device_write : Device → ℤ × Device
device_write d = (negsuc 21, d)
