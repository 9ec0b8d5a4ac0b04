-- ===== src/Upper/Flow.antt =====
-- The invariant of the coprocess of hw5/1/main.c: where the one block is that is on its way.
use nsysu_system_programming.Prelude.{
  ℕ, suc, ◌≤◌, ◌<◌, min, ◌≡◌, refl, sym, ap, ◌∙◌, Option, none, some, [], ◌∷◌, ◌++◌, append-nil,
  append_assoc, arith, length, take, drop, length-take, take-append-drop, Str, drop-out, take-all,
  length-map,
}
use mathlib.Core.Path.{subst}
use nsysu_system_programming.Upper.{
  to_upper, upper, reading, writing, awaiting, parent_done, child_reading, child_writing,
  child_done, System, sys, Mover, the_parent, the_child, parent_step, child_step, step, Reach,
  start, next,
}

pub upper-append : (s t : Str) → upper (s ++ t) ≡ upper s ++ upper t
upper-append [] t = refl
upper-append (c ∷ s) t = ap (λ (zs : Str). to_upper c ∷ zs) (upper-append s t)

pub length-upper : (s : Str) → length (upper s) ≡ length s
length-upper s = length-map to_upper s

module _ (page : ℕ) where
  -- A block that was read.
  abbrev pub IsBlock : Str → Type 0
  IsBlock w = (0 < length w) × (length w ≤ page)

  -- The input that was read so far is `seen`.
  pub record Balance (all input out way : Str) : Type 0 where
    pub seen : Str
    pub whole : seen ++ input ≡ all
    pub shown : out ++ way ≡ upper seen

  -- Where the block is.
  pub data Phase (all : Str) : System → Type 0 where
    idle :
        {input out : Str}
        → Balance all input out []
        → Phase all (sys input reading child_reading [] [] out)
    holding :
        {input w out : Str}
        → IsBlock w
        → Balance all input out (upper w)
        → Phase all (sys input (writing w) child_reading [] [] out)
    sent :
        {input out : Str} (b : ℕ) (p : Str)
        → IsBlock (b ∷ p)
        → Balance all input out (upper (b ∷ p))
        → Phase all (sys input awaiting child_reading (b ∷ p) [] out)
    working :
        {input w out : Str}
        → IsBlock w
        → Balance all input out w
        → Phase all (sys input awaiting (child_writing w) [] [] out)
    replied :
        {input out : Str} (b : ℕ) (q : Str)
        → IsBlock (b ∷ q)
        → Balance all input out (b ∷ q)
        → Phase all (sys input awaiting child_reading [] (b ∷ q) out)
    ended :
        {out : Str} → Balance all [] out [] → Phase all (sys [] parent_done child_reading [] [] out)
    over : {out : Str} → Balance all [] out [] → Phase all (sys [] parent_done child_done [] [] out)

  module _ (all : Str) (positive : 0 < page) where
    abbrev pub Keeps : Option System → Type 0
    Keeps none = Unit
    Keeps (some t) = Phase all t

    -- A read from the input.
    read_block :
        (n : ℕ) (input out : Str)
        → Balance all input out []
        → Keeps (parent_step page n (sys input reading child_reading [] [] out))
    unfolding parent_step
    read_block n [] out h = ended h
    read_block n (b ∷ bs) out h =
        let len = min (suc n) page in
        let some_byte : 0 < length (take len (b ∷ bs)) = omega (arith, length-take len (b ∷ bs)) in
        let fits : length (take len (b ∷ bs)) ≤ page = omega (arith, length-take len (b ∷ bs)) in
        holding (some_byte, fits)
          (record {
            seen = h.seen ++ take len (b ∷ bs);
            whole =
                append_assoc h.seen (take len (b ∷ bs)) (drop len (b ∷ bs))
                ∙ ap (λ zs. h.seen ++ zs) (take-append-drop len (b ∷ bs))
                ∙ h.whole;
            shown =
                ap (λ zs. zs ++ upper (take len (b ∷ bs))) (sym (append-nil out) ∙ h.shown)
                ∙ sym (upper-append h.seen (take len (b ∷ bs)));
          })

    -- A write of the parent's block to the empty pipe.
    write_block :
        (n : ℕ) (input w out : Str)
        → IsBlock w
        → Balance all input out (upper w)
        → Keeps (parent_step page n (sys input (writing w) child_reading [] [] out))
    unfolding parent_step
    write_block n input [] out block h = absurd (omega (arith, block.0))
    write_block n input (b ∷ w) out block h = sent b w block h

    -- A write of the child's block to the empty pipe.
    reply_block :
        (input w out : Str)
        → IsBlock w
        → Balance all input out w
        → Keeps (child_step page (sys input awaiting (child_writing w) [] [] out))
    unfolding child_step
    reply_block input [] out block h = absurd (omega (arith, block.0))
    reply_block input (b ∷ w) out block h = replied b w block h

    -- The child takes the whole block out of the pipe.
    take_block :
        (input out : Str) (b : ℕ) (p : Str)
        → IsBlock (b ∷ p)
        → Balance all input out (upper (b ∷ p))
        → Keeps (child_step page (sys input awaiting child_reading (b ∷ p) [] out))
    unfolding child_step
    take_block input out b p block h =
        let whole = take-all page (b ∷ p) block.1 in
        let left = drop-out page (b ∷ p) block.1 in
        subst
          (λ zs.
            Phase all (sys input awaiting (child_writing (upper zs)) (drop page (b ∷ p)) [] out))
          (sym whole)
          (subst (λ zs. Phase all (sys input awaiting (child_writing (upper (b ∷ p))) zs [] out))
            (sym left)
            (working
              ((omega (arith, block.0)), subst (λ l. l ≤ page) (sym (length-upper (b ∷ p))) block.1)
              h))

    -- The parent prints the whole answer.
    print_block :
        (n : ℕ) (input out : Str) (b : ℕ) (q : Str)
        → IsBlock (b ∷ q)
        → Balance all input out (b ∷ q)
        → Keeps (parent_step page n (sys input awaiting child_reading [] (b ∷ q) out))
    unfolding parent_step
    print_block n input out b q block h =
        let whole = take-all page (b ∷ q) block.1 in
        let left = drop-out page (b ∷ q) block.1 in
        subst (λ zs. Phase all (sys input reading child_reading [] (drop page (b ∷ q)) (out ++ zs)))
          (sym whole)
          (subst (λ zs. Phase all (sys input reading child_reading [] zs (out ++ (b ∷ q))))
            (sym left)
            (idle (record {
              seen = h.seen;
              whole = h.whole;
              shown = append-nil (out ++ (b ∷ q)) ∙ h.shown;
            })))

    step-Phase : {s : System} (m : Mover) (n : ℕ) → Phase all s → Keeps (step page m n s)
    unfolding step parent_step child_step
    step-Phase the_parent n (idle h) = read_block n _ _ h
    step-Phase the_parent n (holding block h) = write_block n _ _ _ block h
    step-Phase the_parent n (sent b p block h) = tt
    step-Phase the_parent n (working block h) = tt
    step-Phase the_parent n (replied b q block h) = print_block n _ _ b q block h
    step-Phase the_parent n (ended h) = tt
    step-Phase the_parent n (over h) = tt
    step-Phase the_child n (idle h) = tt
    step-Phase the_child n (holding block h) = tt
    step-Phase the_child n (sent b p block h) = take_block _ _ b p block h
    step-Phase the_child n (working block h) = reply_block _ _ _ block h
    step-Phase the_child n (replied b q block h) = tt
    step-Phase the_child n (ended h) = over h
    step-Phase the_child n (over h) = tt

    pub Reach-Phase : {s : System} → Reach page all s → Phase all s
    Reach-Phase start = idle (record { seen = []; whole = refl; shown = refl })
    Reach-Phase (next m n r e) = subst Keeps e (step-Phase m n (Reach-Phase r))
