-- ===== src/Shell/Turn/Started.antt =====
-- The processes that a line of plain words starts: all of hw4/part2 composed.
use nsysu_system_programming.Prelude.{
  ℕ, zero, suc, ◌-◌, ◌<◌, ◌≡◌, refl, sym, ap, ◌∙◌, ◌≢◌, inl, inr, true, false, none, some, ◌+◌, ◌⊎◌,
  ◌==◌, if◌then◌else◌, if_true, get_elem?, some_inj, none_ne_some, List, [], ◌∷◌, ◌++◌, map, arith,
  Option-cases, length, get_or, replicate, All, All-imp, Str, All-imp, length-map, get_or-map,
  All-map, All-get_or_within, map_congr,
}
use nsysu_system_programming.Shell.Strtok.Join.{IsToken, join}
use nsysu_system_programming.Shell.Redirect.{redirect}
use nsysu_system_programming.Shell.Redirect.Loops.{array}
use nsysu_system_programming.Shell.Pipeline.{
  Stream, Stage, terminal, pipe_end, spawn, run_pipeline, run_pipeline_lem,
}
use nsysu_system_programming.Shell.Args.{is_bar, max_pipe_num, arg_list, fits}
use nsysu_system_programming.Shell.Args.Words.{spaces}
use nsysu_system_programming.Shell.Args.Commands.{pipe_spliter-join}
use nsysu_system_programming.Shell.Builtin.{Host, Inbuilt, is_builtin}
use nsysu_system_programming.Shell.Builtin.Lookup.{keyword, is_builtin_iff}
use nsysu_system_programming.Shell.Turn.{
  Turn, overflows, all_fit, commands_turn, line_turn, entry_turn, Exec, exec_at, exec_stage,
  not_wait, run_command, started, turn,
}
use nsysu_system_programming.Shell.Turn.Plain.{
  IsPlain, is_text, command_text, words, input_string-append, join_nonempty, append_nonempty,
  has_byte-text, All-join, All-command_text, redirect-plain, arg_list-command_text,
  fits-command_text,
}

spawn-index :
    (index made : ℕ) (out : Stream) → All (λ stage. stage.index < index) (spawn index made out)
unfolding spawn
spawn-index zero made out = tt
spawn-index (suc zero) made out = (omega arith, tt)
spawn-index (suc (suc index)) made out = (
  omega arith,
  All-imp (λ stage. stage.index < suc index) (λ stage. stage.index < suc (suc index)) _
      (λ stage h. omega (arith, h)) (spawn-index (suc index) (suc made) (pipe_end made)),
)

-- A stage whose command is the words of this list at its index, without redirections.
abbrev pub plain_exec : List (Str × List Str) → Stage → Exec
plain_exec commands stage = record {
  stdin = stage.stdin;
  stdout = stage.stdout;
  from = none;
  to = none;
  argv = array (words (get_or commands stage.index ([], []))) [];
}

-- The process at a place, of the command of index `last - p`.
abbrev pub process_at : List (Str × List Str) → (last : ℕ) → ℕ → Exec
process_at commands last p = record {
  stdin = if p == last then terminal else pipe_end (0 + p);
  stdout = if p == 0 then terminal else pipe_end (0 + (p - 1));
  from = none;
  to = none;
  argv = array (words (get_or commands (last - p) ([], []))) [];
}

get_elem?-map {ℓ κ} :
    {A : Type ℓ} {B : Type κ} (f : A → B) (xs : List A) (p : ℕ) (a : A)
    → get_elem? xs p ≡ some a
    → get_elem? (map f xs) p ≡ some (f a)
get_elem?-map f [] p a e = absurd (none_ne_some e)
get_elem?-map f (x ∷ xs) zero a e = ap some (ap f (some_inj e))
get_elem?-map f (x ∷ xs) (suc p) a e = get_elem?-map f xs p a e

module _ (blank : Str) (k n : ℕ) where
  exec_stage-plain :
      (commands : List (Str × List Str)) (stage : Stage)
      → All (λ command. All IsPlain (words command)) commands
      → stage.index < length commands
      → exec_stage blank (map (command_text k n) commands) stage ≡ plain_exec commands stage
  unfolding exec_stage
  exec_stage-plain commands stage h within =
      let command = get_or commands stage.index ([], []) in
      let plain : All IsPlain (words command) =
        All-get_or_within (λ c. All IsPlain (words c)) commands stage.index ([], []) h within in
      let args =
        ap (arg_list blank) (get_or-map (command_text k n) commands stage.index ([], []) [] within)
        ∙ arg_list-command_text blank k n command plain in
      ap (exec_at stage)
        (ap (λ xs. redirect (array xs [])) args ∙ redirect-plain (words command) plain)

  run_command-plain :
      (commands : List (Str × List Str))
      → All (λ command. All IsPlain (words command)) commands
      → (run_command blank (map (command_text k n) commands)).0
        ≡ map (plain_exec commands) (run_pipeline (length commands))
  unfolding run_command run_pipeline
  run_command-plain commands h =
      ap
        (λ number.
          map (exec_stage blank (map (command_text k n) commands)) (spawn number 0 terminal))
        (length-map (command_text k n) commands)
      ∙ map_congr _ (plain_exec commands) _ (
          All-imp (λ stage. stage.index < length commands) _ _
            (λ stage within. exec_stage-plain commands stage h within)
            (spawn-index (length commands) 0 terminal))

  not_wait-plain :
      (command : Str × List Str) (more : List (Str × List Str))
      → All (λ command. All IsPlain (words command)) (command ∷ more)
      → not_wait (map (command_text k n) (command ∷ more)) ≡ false
  unfolding not_wait
  not_wait-plain command more h =
      let commands = map (command_text k n) (command ∷ more) in
      has_byte-text _ (
        All-get_or_within (All (λ c. is_text c ≡ true)) commands (length commands - 1) []
          (All-map (All (λ c. is_text c ≡ true)) (command_text k n) (command ∷ more) (
            All-imp (λ command. All IsPlain (words command)) _ (command ∷ more)
              (λ command plain.
                All-command_text is_text true k n command refl (λ c e. ground (arith, e)) plain)
              h))
          (omega arith))

  is_builtin-plain :
      (command : Str × List Str) (more : List (Str × List Str))
      → All IsPlain (words command)
      → ((entry : Inbuilt) → command.0 ≢ keyword entry)
      → is_builtin blank (map (command_text k n) (command ∷ more)) ≡ none
  is_builtin-plain command more h other =
      elim (Option-cases (is_builtin blank (map (command_text k n) (command ∷ more)))) [
        | inl e ↦ e
        | inr (entry, e) ↦ absurd (
            other entry (
              sym (ap (λ xs. get_or xs 0 []) (arg_list-command_text blank k n command h))
              ∙ (is_builtin_iff blank (map (command_text k n) (command ∷ more)) entry).0 e))
      ]

  command_text-IsToken :
      (command : Str × List Str)
      → All IsPlain (words command)
      → IsToken is_bar (command_text k n command)
  command_text-IsToken command h = record {
    some_byte =
        append_nonempty (replicate k 32) _
          (join_nonempty (spaces n) command.0 command.1 h.0.some_byte);
    solid = All-command_text is_bar false k n command refl (λ c e. ground (arith, e)) h;
  }

  -- The line of these commands, with a bar between each two.
  abbrev line_text : List (Str × List Str) → Str
  line_text commands = join (b'|' ∷ []) (map (command_text k n) commands)

  line_text-text :
      (commands : List (Str × List Str))
      → All (λ command. All IsPlain (words command)) commands
      → All (λ c. is_text c ≡ true) (line_text commands)
  line_text-text commands h =
      All-join _ (b'|' ∷ []) _ (refl, tt)
        (All-map _ (command_text k n) commands (
          All-imp (λ command. All IsPlain (words command)) _ commands
            (λ command plain.
              All-command_text is_text true k n command refl (λ c e. ground (arith, e)) plain)
            h))

  all_fit-plain :
      (commands : List (Str × List Str))
      → All (λ command. All IsPlain (words command)) commands
      → All (λ command. length (words command) < 512) commands
      → all_fit blank (map (command_text k n) commands) ≡ true
  all_fit-plain [] h few = refl
  all_fit-plain (command ∷ commands) h few =
      rw (fits-command_text blank k n command h.0 few.0)
        (rw (all_fit-plain commands h.1 few.1) refl)

  first-fits :
      (command : Str × List Str) (more : List (Str × List Str))
      → All IsPlain (words command)
      → length (words command) < 512
      → fits blank (get_or (map (command_text k n) (command ∷ more)) 0 []) ≡ true
  first-fits command more h few = fits-command_text blank k n command h few

  -- What `run_command` makes of the line.
  turn-run_command :
      (host : Host) (command : Str × List Str) (more : List (Str × List Str)) (rest : Str)
      → All (λ command. All IsPlain (words command)) (command ∷ more)
      → All (λ command. length (words command) < 512) (command ∷ more)
      → length (command ∷ more) < max_pipe_num
      → ((entry : Inbuilt) → command.0 ≢ keyword entry)
      → turn blank host (line_text (command ∷ more) ++ (10 ∷ rest)) ≡ (
        started (map (plain_exec (command ∷ more)) (run_pipeline (length (command ∷ more))), false),
        rest,
      )
  unfolding turn run_command
  turn-run_command host command more rest h few room other =
      let commands = map (command_text k n) (command ∷ more) in
      let read =
        input_string-append (line_text (command ∷ more)) rest
          (join_nonempty (b'|' ∷ []) _ _ (command_text-IsToken command h.0).some_byte)
          (line_text-text (command ∷ more) h) in
      let split =
        pipe_spliter-join (command_text k n command) (map (command_text k n) more)
          (All-map (IsToken is_bar) (command_text k n) (command ∷ more) (
            All-imp (λ command. All IsPlain (words command)) _ (command ∷ more)
              (λ command plain. command_text-IsToken command plain) h))
          (let same = length-map (command_text k n) more in omega arith) in
      ap (λ r. (line_turn blank host r.0, r.1)) read
      ∙ ap (λ cs. (commands_turn blank host cs, rest)) split
      ∙ ap (λ t. (t, rest)) (if_true {A = Turn} overflows (first-fits command more h.0 few.0))
      ∙ ap (λ e. (entry_turn blank host commands e, rest)) (is_builtin-plain command more h.0 other)
      ∙ ap (λ t. (t, rest)) (if_true {A = Turn} overflows (all_fit-plain (command ∷ more) h few))
      ∙ ap (λ xs. (started (xs, not_wait commands), rest)) (run_command-plain (command ∷ more) h)
      ∙ ap
          (λ b. (
            started (map (plain_exec (command ∷ more)) (run_pipeline (length (command ∷ more))), b),
            rest,
          ))
          (not_wait-plain command more h)

  -- A line of fewer than 512 commands, each of fewer than 512 plain words, whose first word is not the
  -- keyword of an inbuilt command, starts one process per command, the last command first, each with
  -- exactly the words of its command as its arguments and no redirection. The process at place `p`
  -- writes to the pipe that the one before it reads from; the first one writes to the terminal, and the
  -- last one, of the first command, reads from it. The shell waits, and the rest of the input is left.
  pub turn-plain :
      (host : Host) (command : Str × List Str) (more : List (Str × List Str)) (rest : Str)
      → All (λ command. All IsPlain (words command)) (command ∷ more)
      → All (λ command. length (words command) < 512) (command ∷ more)
      → length (command ∷ more) < max_pipe_num
      → ((entry : Inbuilt) → command.0 ≢ keyword entry)
      → (processes : List Exec) × (turn blank host (line_text (command ∷ more) ++ (10 ∷ rest))
          ≡ (started (processes, false), rest))
        × (length processes ≡ suc (length more))
        × ((p : ℕ)
            → (length more < p)
              ⊎ (get_elem? processes p ≡ some (process_at (command ∷ more) (length more) p)))
  turn-plain host command more rest h few room other =
      let (number, places) = run_pipeline_lem (length more) in
      (
        map (plain_exec (command ∷ more)) (run_pipeline (suc (length more))),
        turn-run_command host command more rest h few room other,
        length-map (plain_exec (command ∷ more)) (run_pipeline (suc (length more))) ∙ number,
        λ p. elim (places p) [
          | inl beyond ↦ inl beyond
          | inr here ↦ inr (get_elem?-map (plain_exec (command ∷ more)) _ p _ here)
        ],
      )
