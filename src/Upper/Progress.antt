-- ===== src/Upper/Progress.antt =====
-- The output and the steps of the coprocess of hw5/1/main.c.
use nsysu_system_programming.Prelude.{
  ℕ, suc, ◌+◌, ◌*◌, ◌≤◌, ◌<◌, min, ◌≡◌, refl, sym, ap, ◌∙◌, ◌⊎◌, inl, inr, Bool, true, false,
  Option, none, some, [], ◌∷◌, ◌++◌, append-nil, append_assoc, arith, length, drop, length-drop,
  Str,
}
use mathlib.Core.Path.{subst}
use nsysu_system_programming.Upper.{
  upper, Parent, reading, writing, awaiting, parent_done, child_reading, child_writing, child_done,
  System, sys, Mover, the_parent, the_child, parent_step, child_step, step, Reach, start, next,
}
use nsysu_system_programming.Upper.Flow.{
  Balance, Phase, idle, holding, sent, working, replied, ended, over, upper-append, Reach-Phase,
}

abbrev pub output_of : System → Str
output_of (sys input pa c p q out) = out

abbrev pub parent_of : System → Parent
parent_of (sys input pa c p q out) = pa

abbrev pub is_done : Parent → Bool
is_done reading = false
is_done (writing w) = false
is_done awaiting = false
is_done parent_done = true

-- Both processes are over.
abbrev pub is_over : System → Bool
is_over (sys input parent_done child_done p q out) = true
is_over (sys input parent_done child_reading p q out) = false
is_over (sys input parent_done (child_writing w) p q out) = false
is_over (sys input reading c p q out) = false
is_over (sys input (writing w) c p q out) = false
is_over (sys input awaiting c p q out) = false

-- Steps to come, for blocks of one byte.
abbrev pub measure : System → ℕ
measure (sys input reading c p q out) = 5 * length input + 2
measure (sys input (writing w) c p q out) = 5 * length input + 6
measure (sys input awaiting child_reading [] q out) = 5 * length input + 3
measure (sys input awaiting child_reading (b ∷ p) q out) = 5 * length input + 5
measure (sys input awaiting (child_writing w) p q out) = 5 * length input + 4
measure (sys input awaiting child_done p q out) = 5 * length input + 4
measure (sys input parent_done child_reading p q out) = 1
measure (sys input parent_done (child_writing w) p q out) = 1
measure (sys input parent_done child_done p q out) = 0

module _ (page : ℕ) (all : Str) where
  Balance-upper :
      (input out way : Str)
      → Balance page all input out way
      → out ++ (way ++ upper input) ≡ upper all
  Balance-upper input out way h =
      sym (append_assoc out way (upper input))
      ∙ ap (λ zs. zs ++ upper input) h.shown
      ∙ sym (upper-append h.seen input)
      ∙ ap upper h.whole

  rest_of : {s : System} → Phase page all s → (way : Str) × (output_of s ++ way ≡ upper all)
  rest_of (idle {input = input} {out = out} h) = (_, Balance-upper input out [] h)
  rest_of (holding {input = input} {w = w} {out = out} block h) =
      (_, Balance-upper input out (upper w) h)
  rest_of (sent {input = input} {out = out} b p block h) =
      (_, Balance-upper input out (upper (b ∷ p)) h)
  rest_of (working {input = input} {w = w} {out = out} block h) = (_, Balance-upper input out w h)
  rest_of (replied {input = input} {out = out} b q block h) = (_, Balance-upper input out (b ∷ q) h)
  rest_of (ended {out = out} h) = (_, Balance-upper [] out [] h)
  rest_of (over {out = out} h) = (_, Balance-upper [] out [] h)

  all_of : {s : System} → Phase page all s → is_done (parent_of s) ≡ true → output_of s ≡ upper all
  all_of (idle h) e = absurd (ground arith)
  all_of (holding block h) e = absurd (ground arith)
  all_of (sent b p block h) e = absurd (ground arith)
  all_of (working block h) e = absurd (ground arith)
  all_of (replied b q block h) e = absurd (ground arith)
  all_of (ended {out = out} h) e = sym (append-nil out) ∙ Balance-upper [] out [] h
  all_of (over {out = out} h) e = sym (append-nil out) ∙ Balance-upper [] out [] h

  module _ (positive : 0 < page) where
    -- At any time the output is the beginning of the input in capitals.
    pub output_prefix :
        (s : System) → Reach page all s → (way : Str) × (output_of s ++ way ≡ upper all)
    output_prefix s r = rest_of (Reach-Phase page all positive r)

    -- When the parent has come to its end, the output is the whole input in capitals.
    pub output_complete :
        (s : System) → Reach page all s → is_done (parent_of s) ≡ true → output_of s ≡ upper all
    output_complete s r e = all_of (Reach-Phase page all positive r) e

    moves :
        {s : System} (n : ℕ)
        → Phase page all s
        → (is_over s ≡ true) ⊎ ((m : Mover) × (t : System) × (step page m n s ≡ some t))
    unfolding step parent_step child_step
    moves n (idle {input = []} h) = inr (the_parent, _, refl)
    moves n (idle {input = b ∷ bs} h) = inr (the_parent, _, refl)
    moves n (holding block h) = inr (the_parent, _, refl)
    moves n (sent b p block h) = inr (the_child, _, refl)
    moves n (working block h) = inr (the_child, _, refl)
    moves n (replied b q block h) = inr (the_parent, _, refl)
    moves n (ended h) = inr (the_child, _, refl)
    moves n (over h) = inl refl

    -- As long as the two processes are not both over, one of them can make a step.
    pub step_exists :
        (s : System) (n : ℕ)
        → Reach page all s
        → (is_over s ≡ true) ⊎ ((m : Mover) × (t : System) × (step page m n s ≡ some t))
    step_exists s n r = moves n (Reach-Phase page all positive r)

    abbrev Below : ℕ → Option System → Type 0
    Below n none = Unit
    Below n (some t) = measure t < n

    reads_less :
        (n : ℕ) (input out : Str)
        → Below
            (5 * length input + 2)
            (parent_step page n (sys input reading child_reading [] [] out))
    unfolding parent_step
    reads_less n [] out = omega arith
    reads_less n (b ∷ bs) out =
        let len = min (suc n) page in
        let less : length (drop len (b ∷ bs)) < length (b ∷ bs) =
          omega (arith, length-drop len (b ∷ bs)) in
        omega arith

    step-measure :
        {s : System} (m : Mover) (n : ℕ) → Phase page all s → Below (measure s) (step page m n s)
    unfolding step parent_step child_step
    step-measure the_parent n (idle {input = input} {out = out} h) = reads_less n input out
    step-measure the_parent n (holding {w = []} block h) = absurd (omega (arith, block.0))
    step-measure the_parent n (holding {w = b ∷ w} block h) = omega arith
    step-measure the_parent n (sent b p block h) = tt
    step-measure the_parent n (working block h) = tt
    step-measure the_parent n (replied b q block h) = omega arith
    step-measure the_parent n (ended h) = tt
    step-measure the_parent n (over h) = tt
    step-measure the_child n (idle h) = tt
    step-measure the_child n (holding block h) = tt
    step-measure the_child n (sent b p block h) = omega arith
    step-measure the_child n (working {w = []} block h) = absurd (omega (arith, block.0))
    step-measure the_child n (working {w = b ∷ w} block h) = omega arith
    step-measure the_child n (replied b q block h) = tt
    step-measure the_child n (ended h) = omega arith
    step-measure the_child n (over h) = tt

    abbrev pub steps : {s : System} → Reach page all s → ℕ
    steps start = 0
    steps (next m n r e) = suc (steps r)

    -- No run makes more than five steps for a byte of the input and two at its end.
    pub steps_bound : (s : System) (r : Reach page all s) → steps r + measure s ≤ 5 * length all + 2
    steps_bound s start = omega arith
    steps_bound s (next {s = before} m n r e) =
        let less : measure s < measure before =
          subst (Below (measure before)) e (step-measure m n (Reach-Phase page all positive r)) in
        let before_bound = steps_bound before r in omega arith
