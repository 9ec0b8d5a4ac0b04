-- ===== src/Broadcast.antt =====
-- The broadcast buffer of hw10: Producer.c and Consumer.c, interleaved in any order. Of a slot only
-- `data_in` is read by a consumer; the text beside it is left out.
pub mod Counts
pub mod Collect
mod Tests
use nsysu_system_programming.Prelude.{
  ℕ, suc, ◌+◌, ◌-◌, ◌%◌, ◌^◌, ◌<◌, ◌≡◌, Bool, true, false, List, ltb, ◌==◌, if◌then◌else◌, get_or,
  set, replicate, ℤ, pos, negsuc, int_eq, update,
}

-- `a > b`
abbrev pub int_gt : ℤ → ℤ → Bool
int_gt (pos a) (pos b) = ltb b a
int_gt (pos a) (negsuc b) = true
int_gt (negsuc a) (pos b) = false
int_gt (negsuc a) (negsuc b) = ltb a b

-- The variables of `consumer_job`; `at` is `i`.
pub record Consumer : Type 0 where
  pub counter : ℕ
  pub prev : ℤ
  pub at : ℕ

-- A consumer in its loop, or the word that it has returned.
pub data Status : Type 0 where
  running : (c : Consumer) → Status
  returned : (failed : ℕ) → Status

-- `++i; if (i == this->buffer_num) i = 0;`
abbrev pub next_slot : ℕ → ℕ → ℕ
next_slot buffer_num i = if suc i == buffer_num then 0 else suc i

-- One round of the loop that reads `cur`.
unfoldable pub consume : ℕ → ℕ → ℤ → Consumer → Status
consume data_num buffer_num cur c =
    if int_gt cur c.prev
    then running (record { counter = c.counter + 1; prev = cur; at = next_slot buffer_num c.at })
    else if int_eq cur (negsuc 0)
    then returned ((data_num + 2 ^ 32 - c.counter) % 2 ^ 32)
    else running (record c { at = next_slot buffer_num c.at })

-- `next` is the producer's `i`, and `over` is set once it has written the final -1.
pub record System : Type 0 where
  pub slots : List ℤ
  pub next : ℕ
  pub over : Bool
  pub consumer : ℕ → Status

pub data Step (data_num buffer_num : ℕ) (s : System) : System → Type 0 where
  sends :
      s.next < data_num
      → Step data_num buffer_num s
          (record s { slots = set s.slots (s.next % buffer_num) (pos s.next); next = s.next + 1 })
  closes :
      s.next ≡ data_num
      → s.over ≡ false
      → Step data_num buffer_num s
          (record s { slots = set s.slots (data_num % buffer_num) (negsuc 0); over = true })
  consumes :
      (i : ℕ) {c : Consumer}
      → s.consumer i ≡ running c
      → Step data_num buffer_num s (record s {
        consumer =
            update s.consumer i (consume data_num buffer_num (get_or s.slots c.at (pos 0)) c);
      })

-- All bytes of the buffer are 0, and every consumer stands before its loop.
abbrev pub init : ℕ → System
init buffer_num = record {
  slots = replicate (buffer_num + 1) (pos 0);
  next = 0;
  over = false;
  consumer = λ _. running (record { counter = 0; prev = negsuc 0; at = 0 });
}

pub data Reach (data_num buffer_num : ℕ) : System → Type 0 where
  start : Reach data_num buffer_num (init buffer_num)
  later :
      {s t : System}
      → Reach data_num buffer_num s
      → Step data_num buffer_num s t
      → Reach data_num buffer_num t
