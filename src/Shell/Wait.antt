-- ===== src/Shell/Wait.antt =====
-- The parent in `run_command` of hw4/part2/run_command.c: the shell waits for the child that it forked.
use nsysu_system_programming.Prelude.{
  ℕ, ◌≡◌, refl, ◌∙◌, Bool, true, false, ◌||◌, Option, none, some, List, [], ◌∷◌, ◌++◌, ◌==◌,
  if◌then◌else◌, All, if_true, if_false, Str, codes, decimal, if_true, if_false, decimal,
}

-- What a `waitpid` with WUNTRACED and WCONTINUED tells.
pub data Report : Type 0 where
  exited : Report
  signaled : Report
  stopped : Report
  continued : Report
  failed : Report

-- The parent comes back, with what it printed, or it reads `status` before it is set.
pub data Parent : Type 0 where
  returned : (printed : Str) → Parent
  undefined : Parent

-- The `while` loop, from whether `status` is set; `none` while it waits for another report. A call that
-- fails is not told from one that does not, and leaves `status` as it was.
unfoldable pub wait_child : (is_set : Bool) → List Report → Option Parent
wait_child is_set [] = none
wait_child is_set (exited ∷ rs) = some (returned [])
wait_child is_set (signaled ∷ rs) = some (returned [])
wait_child is_set (stopped ∷ rs) = wait_child true rs
wait_child is_set (continued ∷ rs) = wait_child true rs
wait_child true (failed ∷ rs) = wait_child true rs
wait_child false (failed ∷ rs) = some undefined

-- `strchr(s, '&')` finds one.
abbrev pub has_amp : Str → Bool
has_amp [] = false
has_amp (c ∷ s) = (c == 38) || has_amp s

-- `commands[index - 1]`
abbrev pub last_command : Str → List Str → Str
last_command c [] = c
last_command c (d ∷ ds) = last_command d ds

-- The parent of child `pid`, on a line of at least one command.
unfoldable pub parent :
    (pid : ℕ) → (first : Str) → (others : List Str) → List Report → Option Parent
unfolding wait_child
parent pid first others rs =
    if has_amp (last_command first others)
    then some (returned (codes "[" ++ (decimal pid ++ codes "]\n")))
    else wait_child false rs

-- A child that does not end.
abbrev pub IsPaused : Report → Type 0
IsPaused exited = ⊥
IsPaused signaled = ⊥
IsPaused stopped = Unit
IsPaused continued = Unit
IsPaused failed = ⊥

abbrev pub IsLast : Report → Type 0
IsLast exited = Unit
IsLast signaled = Unit
IsLast stopped = ⊥
IsLast continued = ⊥
IsLast failed = ⊥

wait_child-last :
    (is_set : Bool) (qs rs : List Report) (e : Report)
    → All IsPaused qs
    → IsLast e
    → wait_child is_set (qs ++ (e ∷ rs)) ≡ some (returned [])
unfolding wait_child
wait_child-last is_set [] rs exited h last = refl
wait_child-last is_set [] rs signaled h last = refl
wait_child-last is_set [] rs stopped h last = absurd last
wait_child-last is_set [] rs continued h last = absurd last
wait_child-last is_set [] rs failed h last = absurd last
wait_child-last is_set (exited ∷ qs) rs e h last = absurd h.0
wait_child-last is_set (signaled ∷ qs) rs e h last = absurd h.0
wait_child-last is_set (failed ∷ qs) rs e h last = absurd h.0
wait_child-last is_set (stopped ∷ qs) rs e h last = wait_child-last true qs rs e h.1 last
wait_child-last is_set (continued ∷ qs) rs e h last = wait_child-last true qs rs e h.1 last

wait_child-waits :
    (is_set : Bool) (qs : List Report) → All IsPaused qs → wait_child is_set qs ≡ none
unfolding wait_child
wait_child-waits is_set [] h = refl
wait_child-waits is_set (exited ∷ qs) h = absurd h.0
wait_child-waits is_set (signaled ∷ qs) h = absurd h.0
wait_child-waits is_set (failed ∷ qs) h = absurd h.0
wait_child-waits is_set (stopped ∷ qs) h = wait_child-waits true qs h.1
wait_child-waits is_set (continued ∷ qs) h = wait_child-waits true qs h.1

-- A line whose last command has an `&`, in whatever place, is not waited for, and its process id is
-- printed. For any other one the shell waits through all stops and continuations of the child, and
-- comes back, silent, exactly when it ends; a `waitpid` that fails at once makes it read a status
-- that is not set.
pub parent_lem :
    (pid : ℕ) (first : Str) (others : List Str) (qs rs : List Report) (e : Report)
    → All IsPaused qs
    → IsLast e
    → (has_amp (last_command first others) ≡ true
        → parent pid first others rs ≡ some (returned (codes "[" ++ (decimal pid ++ codes "]\n"))))
      × (has_amp (last_command first others) ≡ false
          → (parent pid first others qs ≡ none)
            × (parent pid first others (qs ++ (e ∷ rs)) ≡ some (returned []))
            × (parent pid first others (failed ∷ rs) ≡ some undefined))
unfolding parent wait_child
parent_lem pid first others qs rs e paused last = (
  λ amp. if_true (wait_child false rs) amp,
  λ plain.
      let note = some (returned (codes "[" ++ (decimal pid ++ codes "]\n"))) in
      (
        if_false note plain ∙ wait_child-waits false qs paused,
        if_false note plain ∙ wait_child-last false qs rs e paused last,
        if_false note plain,
      ),
)
