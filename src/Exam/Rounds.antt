-- ===== src/Exam/Rounds.antt =====
-- The threads of test/3 when they take turns.
use mathlib.Core.Path.{subst}
use nsysu_system_programming.Prelude.{
  ℕ, ◌-◌, ◌^◌, ◌<◌, ◌≡◌, refl, sym, ap, ◌∙◌, ◌⊎◌, inl, inr, Bool, some, List, [], ◌∷◌, ◌++◌,
  append_assoc, arith, ◌==◌, if◌then◌else◌, ==-false, length, take, drop, replicate, All, Str,
  take-append,
}
use nsysu_system_programming.Exam.{
  reading, finished, asking, gone, System, Thread, the_reader, the_writer, reader_step, writer_step,
  step, init, run,
}

-- One pass through the loop of a thread, where the reader has a block.
abbrev pub pass : Thread → List Thread → List Thread
pass t ts = t ∷ t ∷ t ∷ t ∷ t ∷ t ∷ ts

-- The turns for the blocks: one pass of each thread, and at last the end of the reader.
abbrev pub turns : List Str → List Thread
turns [] = the_reader ∷ the_reader ∷ the_reader ∷ the_reader ∷ the_reader ∷ pass the_writer []
turns (d ∷ ds) = pass the_reader (pass the_writer (turns ds))

-- All blocks, one behind the other.
abbrev pub joined : List Str → Str
joined [] = []
joined (d ∷ ds) = d ++ joined ds

-- Between two turns.
abbrev between : (sem : ℕ) → (buf : Str) → (len : ℕ) → (input : List Str) → (output : Str) → System
between sem buf len input output = record {
  reader = reading;
  writer = asking;
  sem = sem;
  buf = buf;
  len = len;
  input = input;
  output = output;
}

-- The states in which a turn can begin.
abbrev Begins : ℕ → Type 0
Begins sem = (sem ≡ 0) ⊎ (sem ≡ 1)

abbrev after_pass : Bool → Str → Str → ℕ → List Str → Str → System
after_pass over t buf len input output = record {
  reader = reading;
  writer = if over then gone else asking;
  sem = 1;
  buf = buf;
  len = len;
  input = input;
  output = output ++ t;
}

pass_from :
    (sem : ℕ) (d buf : Str) (len : ℕ) (ds : List Str) (output : Str) (ts : List Thread)
    → Begins sem
    → let stored = d ++ drop (length d) buf in
      run (pass the_reader (pass the_writer ts)) (between sem buf len (d ∷ ds) output)
      ≡ run ts (after_pass (length d == 0) (take (length d) stored) stored (length d) ds output)
unfolding run step reader_step writer_step
pass_from sem d buf len ds output ts (inl e) =
    let stored = d ++ drop (length d) buf in
    subst
      (λ n.
        run (pass the_reader (pass the_writer ts)) (between n buf len (d ∷ ds) output)
        ≡ run ts (after_pass (length d == 0) (take (length d) stored) stored (length d) ds output))
      (sym e) refl
pass_from sem d buf len ds output ts (inr e) =
    let stored = d ++ drop (length d) buf in
    subst
      (λ n.
        run (pass the_reader (pass the_writer ts)) (between n buf len (d ∷ ds) output)
        ≡ run ts (after_pass (length d == 0) (take (length d) stored) stored (length d) ds output))
      (sym e) refl

-- What the last turn leaves.
abbrev over_with : Str → Str → System
over_with buf output = record {
  reader = finished;
  writer = gone;
  sem = 1;
  buf = buf;
  len = 0;
  input = [];
  output = output;
}

last_turn :
    (sem : ℕ) (buf : Str) (len : ℕ) (output : Str)
    → Begins sem
    → run (turns []) (between sem buf len [] output) ≡ some (over_with buf (output ++ []))
unfolding run step reader_step writer_step
last_turn sem buf len output (inl e) =
    subst (λ n. run (turns []) (between n buf len [] output) ≡ some (over_with buf (output ++ [])))
      (sym e) refl
last_turn sem buf len output (inr e) =
    subst (λ n. run (turns []) (between n buf len [] output) ≡ some (over_with buf (output ++ [])))
      (sym e) refl

turns_from :
    (sem : ℕ) (buf : Str) (len : ℕ) (ds : List Str) (output : Str)
    → Begins sem
    → All (λ d. 0 < length d) ds
    → (last : Str) × (run (turns ds) (between sem buf len ds output)
        ≡ some (over_with last (output ++ joined ds)))
turns_from sem buf len [] output b bytes = (buf, last_turn sem buf len output b)
turns_from sem buf len (d ∷ ds) output b bytes =
    let stored = d ++ drop (length d) buf in
    let rest = turns_from 1 stored (length d) ds (output ++ d) (inr refl) bytes.1 in
    (
      rest.0,
      pass_from sem d buf len ds output (turns ds) b
          ∙ ap (λ t. run (turns ds) (after_pass (length d == 0) t stored (length d) ds output))
              (take-append d (drop (length d) buf))
          ∙ ap (λ over. run (turns ds) (after_pass over d stored (length d) ds output))
              (==-false (length d) 0 (omega (arith, bytes.0)))
          ∙ rest.1
          ∙ ap (λ t. some (over_with rest.0 t)) (append_assoc output d (joined ds)),
    )

-- When the two threads take turns, a pass each, all blocks are written, in order and once each, and both
-- threads come to their ends.
pub turns_lem :
    (ds : List Str)
    → All (λ d. 0 < length d) ds
    → (t : System) × (run (turns ds) (init ds) ≡ some t)
      × (t.output ≡ joined ds)
      × (t.reader ≡ finished)
      × (t.writer ≡ gone)
unfolding init
turns_lem ds bytes =
    let r = turns_from 0 (replicate 4096 0) (2 ^ 32 - 1) ds [] (inl refl) bytes in
    (over_with r.0 (joined ds), r.1, refl, refl, refl)
