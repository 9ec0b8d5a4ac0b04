-- ===== src/Shell/Args/Commands.antt =====
-- What `pipe_spliter` of hw4/part2/parser.c makes of a line.
use native.Mathlib.Decide.{dec_lt}
use nsysu_system_programming.Prelude.{
  ◌<◌, ◌≡◌, refl, sym, ap, ◌∙◌, ◌≢◌, true, false, none, some, List, [], ◌∷◌, arith, ltb, length,
  All, if_true, if_false, Str, if_true, if_false,
}
use mathlib.Core.Path.{subst}
use nsysu_system_programming.Prelude.{some_inj, none_ne_some}
use nsysu_system_programming.Shell.Strtok.{tokens}
use nsysu_system_programming.Shell.Strtok.Join.{
  IsToken, join, without, concat, tokens-join, tokens-IsToken, concat-tokens,
}
use nsysu_system_programming.Shell.Args.{max_pipe_num, is_bar, store, pipe_spliter}

-- Fewer than 512 commands without a bar in them, at least one, come back from the line that has a
-- bar between each two.
pub pipe_spliter-join :
    (cmd : Str) (cmds : List Str)
    → All (IsToken is_bar) (cmd ∷ cmds)
    → length (cmd ∷ cmds) < max_pipe_num
    → pipe_spliter (join (b'|' ∷ []) (cmd ∷ cmds)) ≡ some (cmd ∷ cmds)
unfolding pipe_spliter
pipe_spliter-join cmd cmds h room =
    ap store (tokens-join is_bar b'|' [] (cmd ∷ cmds) refl tt h)
    ∙ if_true none (ground (arith, room))

store_sound :
    (ts cmds : List Str)
    → store ts ≡ some cmds
    → (ts ≡ cmds) × (cmds ≢ []) × (length cmds < max_pipe_num)
store_sound [] cmds h = absurd (ground arith)
store_sound (cmd ∷ rest) cmds h = elim (dec_lt (length (cmd ∷ rest)) max_pipe_num) [
  | yes room ↦
      let fits : ltb (length (cmd ∷ rest)) max_pipe_num ≡ true = ground arith in
      let same : some (cmd ∷ rest) ≡ some cmds = sym (if_true none fits) ∙ h in
      (
        some_inj same,
        λ gone. ground arith,
        subst (λ cs. length cs < max_pipe_num) (some_inj same) room,
      )
  | no full ↦
      let over : ltb (length (cmd ∷ rest)) max_pipe_num ≡ false = ground arith in
      absurd (none_ne_some (sym (if_false (some (cmd ∷ rest)) over) ∙ h))
]

-- A line that is split has at least one command and fewer than 512; no command is empty or holds a
-- bar, and together they hold every other byte of the line in its order.
pub pipe_spliter_sound :
    (line : Str) (cmds : List Str)
    → pipe_spliter line ≡ some cmds
    → (cmds ≢ [])
      × (length cmds < max_pipe_num)
      × All (IsToken is_bar) cmds
      × (concat cmds ≡ without is_bar line)
unfolding pipe_spliter
pipe_spliter_sound line cmds h =
    let (same, some_command, room) = store_sound (tokens is_bar [] line) cmds h in
    (
      some_command,
      room,
      subst (All (IsToken is_bar)) same (tokens-IsToken is_bar [] line tt),
      sym (ap concat same) ∙ concat-tokens is_bar [] line,
    )
