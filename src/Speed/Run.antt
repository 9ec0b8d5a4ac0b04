-- ===== src/Speed/Run.antt =====
-- The two processes of sig_speed_sigsuspend.c and the turns they take.
use native.Mathlib.Decide.{dec_lt}
use nsysu_system_programming.Prelude.{
  ℕ, suc, ◌+◌, ◌-◌, ◌*◌, ◌<◌, ◌≡◌, refl, sym, ap, ◌∙◌, ◌⊎◌, inl, inr, Bool, true, false, ◌||◌,
  Option, none, some, arith, ltb, if◌then◌else◌, if_keeps,
}
use mathlib.Core.Path.{subst}
use nsysu_system_programming.Speed.{
  Proc, killing, suspended, exited, System, sys, Mover, the_child, the_parent, child_round,
  parent_round, step, Reach, start, next,
}

module _ (num_sigs : ℕ) where
  -- Whose turn it is: round `k` of both, or the end.
  pub data Turn : System → Type 0 where
    child_sends : (k : ℕ) → k < num_sigs → Turn (sys (killing k) (suspended k) false false)
    parent_wakes : (k : ℕ) → k < num_sigs → Turn (sys (suspended k) (suspended k) false true)
    parent_sends : (k : ℕ) → k < num_sigs → Turn (sys (suspended k) (killing k) false false)
    child_wakes :
        (k : ℕ) → k < num_sigs → Turn (sys (suspended k) (parent_round num_sigs (suc k)) true false)
    both_over : Turn (sys exited exited false false)

  abbrev Keeps : Option System → Type 0
  Keeps none = Unit
  Keeps (some t) = Turn t

  round_starts : (k : ℕ) → Turn (sys (child_round num_sigs k) (parent_round num_sigs k) false false)
  round_starts k = elim (dec_lt k num_sigs) [
    | yes more ↦
        let goes : ltb k num_sigs ≡ true = ground arith in
        subst
          (λ b.
            Turn (
              sys (if b then killing k else exited) (if b then suspended k else exited) false
                false))
          (sym goes) (child_sends k more)
    | no last ↦
        let stops : ltb k num_sigs ≡ false = ground arith in
        subst
          (λ b.
            Turn (
              sys (if b then killing k else exited) (if b then suspended k else exited) false
                false))
          (sym stops) both_over
  ]

  -- The steps that are left.
  abbrev left : System → ℕ
  left (sys (killing k) parent cp pp) = 4 * (num_sigs - k)
  left (sys (suspended k) parent cp true) = 4 * (num_sigs - k) - 1
  left (sys (suspended k) parent true false) = 4 * (num_sigs - k) - 3
  left (sys (suspended k) parent false false) = 4 * (num_sigs - k) - 2
  left (sys exited parent cp pp) = 0

  left-round :
      (k : ℕ) (parent : Proc)
      → left (sys (child_round num_sigs k) parent false false) ≡ 4 * (num_sigs - k)
  left-round k parent = elim (dec_lt k num_sigs) [
    | yes more ↦
        let goes : ltb k num_sigs ≡ true = ground arith in
        subst
          (λ b.
            left (sys (if b then killing k else exited) parent false false) ≡ 4 * (num_sigs - k))
          (sym goes) refl
    | no last ↦
        let stops : ltb k num_sigs ≡ false = ground arith in
        subst
          (λ b.
            left (sys (if b then killing k else exited) parent false false) ≡ 4 * (num_sigs - k))
          (sym stops) (omega arith)
  ]

  -- A parent that waits for the next signal, or is over, has no step.
  parent_waits :
      (k : ℕ) (child : Proc) (cp : Bool)
      → step num_sigs the_parent (sys child (parent_round num_sigs k) cp false) ≡ none
  unfolding step
  parent_waits k child cp = elim (dec_lt k num_sigs) [
    | yes more ↦
        let goes : ltb k num_sigs ≡ true = ground arith in
        subst
          (λ b.
            step num_sigs the_parent (sys child (if b then suspended k else exited) cp false)
            ≡ none)
          (sym goes) refl
    | no last ↦
        let stops : ltb k num_sigs ≡ false = ground arith in
        subst
          (λ b.
            step num_sigs the_parent (sys child (if b then suspended k else exited) cp false)
            ≡ none)
          (sym stops) refl
  ]

  step-Turn : {s : System} (m : Mover) → Turn s → Keeps (step num_sigs m s)
  unfolding step
  step-Turn the_child (child_sends k h) = parent_wakes k h
  step-Turn the_child (parent_wakes k h) = tt
  step-Turn the_child (parent_sends k h) = tt
  step-Turn the_child (child_wakes k h) = round_starts (suc k)
  step-Turn the_child both_over = tt
  step-Turn the_parent (child_sends k h) = tt
  step-Turn the_parent (parent_wakes k h) = parent_sends k h
  step-Turn the_parent (parent_sends k h) = child_wakes k h
  step-Turn the_parent (child_wakes k h) =
      subst Keeps (sym (parent_waits (suc k) (suspended k) true)) tt
  step-Turn the_parent both_over = tt

  abbrev Counts : ℕ → Option System → Type 0
  Counts n none = Unit
  Counts n (some t) = suc (left t) ≡ n

  step-left : {s : System} (m : Mover) → Turn s → Counts (left s) (step num_sigs m s)
  unfolding step
  step-left the_child (child_sends k h) = omega arith
  step-left the_child (parent_wakes k h) = tt
  step-left the_child (parent_sends k h) = tt
  step-left the_child (child_wakes k h) =
      ap suc (left-round (suc k) (parent_round num_sigs (suc k))) ∙ omega arith
  step-left the_child both_over = tt
  step-left the_parent (child_sends k h) = tt
  step-left the_parent (parent_wakes k h) = omega arith
  step-left the_parent (parent_sends k h) = omega arith
  step-left the_parent (child_wakes k h) =
      subst (Counts (4 * (num_sigs - k) - 3)) (sym (parent_waits (suc k) (suspended k) true)) tt
  step-left the_parent both_over = tt

  pub Reach-Turn : {s : System} → Reach num_sigs s → Turn s
  Reach-Turn start = round_starts 0
  Reach-Turn (next m r e) = subst Keeps e (step-Turn m (Reach-Turn r))

  abbrev pub steps : {s : System} → Reach num_sigs s → ℕ
  steps start = 0
  steps (next m r e) = suc (steps r)

  steps-left : (s : System) (r : Reach num_sigs s) → steps r + left s ≡ 4 * num_sigs
  steps-left s start = omega (arith, left-round 0 (parent_round num_sigs 0))
  steps-left s (next {s = before} m r e) =
      let one : suc (left s) ≡ left before =
        subst (Counts (left before)) e (step-left m (Reach-Turn r)) in
      let rest = steps-left before r in omega arith

  abbrev pub Moves : System → Type 0
  Moves s = (m : Mover) × (t : System) × (step num_sigs m s ≡ some t)

  Turn-Moves :
      {s : System}
      → Turn s
      → ((s ≡ sys exited exited false false) × (left s ≡ 0)) ⊎ ((0 < left s) × Moves s)
  unfolding step
  Turn-Moves (child_sends k h) = inr (omega arith, (the_child, _, refl))
  Turn-Moves (parent_wakes k h) = inr (omega arith, (the_parent, _, refl))
  Turn-Moves (parent_sends k h) = inr (omega arith, (the_parent, _, refl))
  Turn-Moves (child_wakes k h) = inr (omega arith, (the_child, _, refl))
  Turn-Moves both_over = inl (refl, refl)

  -- However the two are scheduled, neither waits for ever: after fewer than four steps a round one of
  -- them can go on, and after four steps a round both are over and no signal is left.
  pub rounds_lem :
      (s : System) (r : Reach num_sigs s)
      → ((s ≡ sys exited exited false false) × (steps r ≡ 4 * num_sigs))
        ⊎ ((steps r < 4 * num_sigs) × Moves s)
  rounds_lem s r =
      let total = steps-left s r in
      elim (Turn-Moves (Reach-Turn r)) [
        | inl (over, none_left) ↦ inl (over, omega arith)
        | inr (some_left, m) ↦ inr (omega arith, m)
      ]

  -- Whether the process is about to signal the other one.
  abbrev pub sends : Mover → System → Bool
  sends the_child (sys (killing k) parent cp pp) = true
  sends the_child (sys (suspended k) parent cp pp) = false
  sends the_child (sys exited parent cp pp) = false
  sends the_parent (sys child (killing k) cp pp) = true
  sends the_parent (sys child (suspended k) cp pp) = false
  sends the_parent (sys child exited cp pp) = false

  -- A signal is pending for one of the two.
  abbrev pub any_pending : System → Bool
  any_pending (sys child parent cp pp) = cp || pp

  never_parent :
      (k : ℕ) (child : Proc) (cp pp : Bool)
      → sends the_parent (sys child (parent_round num_sigs k) cp pp) ≡ false
  never_parent k child cp pp =
      if_keeps (λ p. sends the_parent (sys child p cp pp) ≡ false) (ltb k num_sigs) refl refl

  turn_clear : {s : System} (m : Mover) → Turn s → sends m s ≡ true → any_pending s ≡ false
  turn_clear m (child_sends k h) e = refl
  turn_clear m (parent_sends k h) e = refl
  turn_clear m both_over e = refl
  turn_clear the_child (parent_wakes k h) e = absurd (ground arith)
  turn_clear the_parent (parent_wakes k h) e = absurd (ground arith)
  turn_clear the_child (child_wakes k h) e = absurd (ground arith)
  turn_clear the_parent (child_wakes k h) e =
      absurd (ground (arith, sym (never_parent (suc k) (suspended k) true false) ∙ e))

  -- No signal is lost: when one of the two sends a signal, none is pending for either.
  pub signals_kept :
      (s : System) (m : Mover) → Reach num_sigs s → sends m s ≡ true → any_pending s ≡ false
  signals_kept s m r e = turn_clear m (Reach-Turn r) e
