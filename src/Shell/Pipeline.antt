-- ===== src/Shell/Pipeline.antt =====
-- The processes of a pipeline: the loop of `run_command` in hw4/part2/run_command.c.
use native.Mathlib.Decide.{dec_lt}
use nsysu_system_programming.Prelude.{
  ℕ, zero, suc, ◌+◌, ◌-◌, ◌≤◌, ◌<◌, ◌≡◌, refl, ap, ◌∙◌, ◌⊎◌, inl, inr, false, some, List, [], ◌∷◌,
  arith, ◌==◌, if◌then◌else◌, length, get_elem?,
}

-- A standard stream: the terminal's, or the end of the pipe of this number.
pub data Stream : Type 0 where
  terminal : Stream
  pipe_end : (number : ℕ) → Stream

-- A process that executes the command of this index.
pub record Stage : Type 0 where
  pub index : ℕ
  pub stdin : Stream
  pub stdout : Stream

-- `while (--index)` in the process that has `stdout`, from the index before the decrement on; `made`
-- counts the pipes. The parent of each `fork` reads from the new pipe and executes its command; the
-- child writes to the pipe and goes on.
unfoldable pub spawn : (index made : ℕ) → Stream → List Stage
spawn zero made out = []
spawn (suc zero) made out = record { index = 0; stdin = terminal; stdout = out } ∷ []
spawn (suc (suc index)) made out =
    record { index = suc index; stdin = pipe_end made; stdout = out }
    ∷ spawn (suc index) (suc made) (pipe_end made)

-- The child that the shell forks for a line of `n` commands; a line has at least one.
unfoldable pub run_pipeline : ℕ → List Stage
unfolding spawn
run_pipeline n = spawn n 0 terminal

-- The process at position `p` of a pipeline whose last command has index `n`.
abbrev pub stage_at : (n made : ℕ) → Stream → ℕ → Stage
stage_at n made out p = record {
  index = n - p;
  stdin = if p == n then terminal else pipe_end (made + p);
  stdout = if p == 0 then out else pipe_end (made + (p - 1));
}

stage_at-suc :
    (n made : ℕ) (out : Stream) (p : ℕ)
    → stage_at n (suc made) (pipe_end made) p ≡ stage_at (suc n) made out (suc p)
stage_at-suc n made out p =
    let index : n - p ≡ suc n - suc p = omega arith in
    let last : (p == n) ≡ (suc p == suc n) = ground arith in
    let number : suc made + p ≡ made + suc p = omega arith in
    let not_first : (suc p == 0) ≡ false = ground arith in
    let output : (if p == 0 then pipe_end made else pipe_end (suc made + (p - 1)))
        ≡ pipe_end (made + (suc p - 1)) =
      ground arith in
    rw not_first (rw index (rw last (rw number (rw output refl))))

spawn_lem :
    (n made : ℕ) (out : Stream) (p : ℕ)
    → p ≤ n
    → get_elem? (spawn (suc n) made out) p ≡ some (stage_at n made out p)
unfolding spawn
spawn_lem zero made out p h = let first : p ≡ 0 = omega arith in rw first refl
spawn_lem (suc n) made out zero h =
    let not_last : (0 == suc n) ≡ false = ground arith in
    let same : made + 0 ≡ made = omega arith in
    let whole : suc n - 0 ≡ suc n = omega arith in rw not_last (rw same (rw whole refl))
spawn_lem (suc n) made out (suc zero) h =
    spawn_lem n (suc made) (pipe_end made) 0 (omega arith) ∙ ap some (stage_at-suc n made out 0)
spawn_lem (suc n) made out (suc (suc p)) h =
    spawn_lem n (suc made) (pipe_end made) (suc p) (omega arith)
    ∙ ap some (stage_at-suc n made out (suc p))

length-spawn : (n made : ℕ) (out : Stream) → length (spawn n made out) ≡ n
unfolding spawn
length-spawn zero made out = refl
length-spawn (suc zero) made out = refl
length-spawn (suc (suc n)) made out = ap suc (length-spawn (suc n) (suc made) (pipe_end made))

-- A line of `n + 1` commands runs in `n + 1` processes, the last command first. The process at
-- position `p` executes command `n - p`; it writes to the pipe that the process before it reads from,
-- the first one to the terminal, and the last one, of command 0, reads from the terminal.
pub run_pipeline_lem :
    (n : ℕ)
    → (length (run_pipeline (suc n)) ≡ suc n)
      × ((p : ℕ) → (n < p) ⊎ (get_elem? (run_pipeline (suc n)) p ≡ some (stage_at n 0 terminal p)))
unfolding run_pipeline
run_pipeline_lem n = (
  length-spawn (suc n) 0 terminal,
  λ p. elim (dec_lt n p) [
    | yes beyond ↦ inl beyond
    | no within ↦ inr (spawn_lem n 0 terminal p (omega arith))
  ],
)
