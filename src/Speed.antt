-- ===== src/Speed.antt =====
-- The two processes of hw7/22-3/sig_speed_sigsuspend.c that signal each other. The signal is blocked
-- except in `sigsuspend`, and is pending at most once. A step is one call; none of them fails.
pub mod Run
mod Tests
use nsysu_system_programming.Prelude.{
  ℕ, suc, ◌≡◌, Bool, true, false, Option, none, some, ltb, if◌then◌else◌,
}

-- What a process is about to do in round `scnt` of its loop, or that it has left it.
pub data Proc : Type 0 where
  killing : (scnt : ℕ) → Proc
  suspended : (scnt : ℕ) → Proc
  exited : Proc

-- The two processes, and whether the signal is pending for each.
pub data System : Type 0 where
  sys : (child parent : Proc) (child_pending parent_pending : Bool) → System

pub data Mover : Type 0 where
  the_child : Mover
  the_parent : Mover

module _ (num_sigs : ℕ) where
  -- The test of the child's loop, which signals first.
  abbrev pub child_round : ℕ → Proc
  child_round scnt = if ltb scnt num_sigs then killing scnt else exited

  -- The test of the parent's loop, which waits first.
  abbrev pub parent_round : ℕ → Proc
  parent_round scnt = if ltb scnt num_sigs then suspended scnt else exited

  abbrev pub init : System
  init = sys (child_round 0) (parent_round 0) false false

  -- `none` while the process waits or is over. A signal to a process that is over has no effect.
  unfoldable pub step : Mover → System → Option System
  step the_child (sys (killing scnt) parent cp pp) = some (sys (suspended scnt) parent cp true)
  step the_child (sys (suspended scnt) parent true pp) =
      some (sys (child_round (suc scnt)) parent false pp)
  step the_child (sys (suspended scnt) parent false pp) = none
  step the_child (sys exited parent cp pp) = none
  step the_parent (sys child (suspended scnt) cp true) = some (sys child (killing scnt) cp false)
  step the_parent (sys child (suspended scnt) cp false) = none
  step the_parent (sys child (killing scnt) cp pp) =
      some (sys child (parent_round (suc scnt)) true pp)
  step the_parent (sys child exited cp pp) = none

  -- The states that the two can come to.
  pub data Reach : System → Type 0 where
    start : Reach init
    next : {s t : System} (m : Mover) → Reach s → step m s ≡ some t → Reach t
