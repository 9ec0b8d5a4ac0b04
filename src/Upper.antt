-- ===== src/Upper.antt =====
-- The coprocess of hw5/1/main.c: a parent that sends its input to a child and prints what comes back.
-- A step is what one of the two does up to its next call that may block; `page` is the size of the
-- buffers. Errors of the calls are left out.
pub mod Flow
pub mod Progress
mod Tests
use nsysu_system_programming.Prelude.{
  ℕ, suc, ◌-◌, min, ◌≡◌, ◌&&◌, Option, none, some, [], ◌∷◌, ◌++◌, map, leb, if◌then◌else◌, take,
  drop, Str,
}

-- `toupper`
abbrev pub to_upper : ℕ → ℕ
to_upper c = if leb 97 c && leb c 122 then c - 32 else c

abbrev pub upper : Str → Str
upper s = map to_upper s

-- What the parent is about to do: read its input, write `buf1`, or read the answer; or it is over.
pub data Parent : Type 0 where
  reading : Parent
  writing : Str → Parent
  awaiting : Parent
  parent_done : Parent

-- What the child is about to do: read a block, or write `buf2`; or it is over.
pub data Child : Type 0 where
  child_reading : Child
  child_writing : Str → Child
  child_done : Child

-- The input to come, the two processes, the two pipes and the output.
pub data System : Type 0 where
  sys : (input : Str) → Parent → Child → (p2c c2p output : Str) → System

pub data Mover : Type 0 where
  the_parent : Mover
  the_child : Mover

abbrev pub init : Str → System
init input = sys input reading child_reading [] [] []

module _ (page : ℕ) where
  -- `parent`: a read of the input gives at most `n + 1` bytes. A process that waits for the other one
  -- or is over has no step.
  unfoldable pub parent_step : ℕ → System → Option System
  parent_step n (sys [] reading c p q out) = some (sys [] parent_done c p q out)
  parent_step n (sys (b ∷ bs) reading c p q out) =
      let len = min (suc n) page in
      some (sys (drop len (b ∷ bs)) (writing (take len (b ∷ bs))) c p q out)
  parent_step n (sys input (writing w) c p q out) = some (sys input awaiting c (p ++ w) q out)
  parent_step n (sys input awaiting child_done p [] out) =
      some (sys input reading child_done p [] out)
  parent_step n (sys input awaiting child_reading p [] out) = none
  parent_step n (sys input awaiting (child_writing w) p [] out) = none
  parent_step n (sys input awaiting c p (b ∷ q) out) =
      some (sys input reading c p (drop page (b ∷ q)) (out ++ take page (b ∷ q)))
  parent_step n (sys input parent_done c p q out) = none

  -- `child`: a read of an empty pipe gives nothing once the parent is over, and a write to it ends
  -- the child.
  unfoldable pub child_step : System → Option System
  child_step (sys input parent_done child_reading [] q out) =
      some (sys input parent_done child_done [] q out)
  child_step (sys input reading child_reading [] q out) = none
  child_step (sys input (writing w) child_reading [] q out) = none
  child_step (sys input awaiting child_reading [] q out) = none
  child_step (sys input pa child_reading (b ∷ p) q out) =
      some (sys input pa (child_writing (upper (take page (b ∷ p)))) (drop page (b ∷ p)) q out)
  child_step (sys input parent_done (child_writing w) p q out) =
      some (sys input parent_done child_done p q out)
  child_step (sys input reading (child_writing w) p q out) =
      some (sys input reading child_reading p (q ++ w) out)
  child_step (sys input (writing v) (child_writing w) p q out) =
      some (sys input (writing v) child_reading p (q ++ w) out)
  child_step (sys input awaiting (child_writing w) p q out) =
      some (sys input awaiting child_reading p (q ++ w) out)
  child_step (sys input pa child_done p q out) = none

  unfoldable pub step : Mover → ℕ → System → Option System
  unfolding parent_step child_step
  step the_parent n s = parent_step n s
  step the_child n s = child_step s

  -- The states that the two can come to.
  pub data Reach (input : Str) : System → Type 0 where
    start : Reach input (init input)
    next : {s t : System} (m : Mover) (n : ℕ) → Reach input s → step m n s ≡ some t → Reach input t
