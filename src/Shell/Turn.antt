-- ===== src/Shell/Turn.antt =====
-- A turn of the shell's loop: `inputString` and `main` of hw4/part2/shell.c, and `run_command` of
-- run_command.c as the processes that it starts. The standard input is the bytes still to come.
pub mod Plain
pub mod Started
use nsysu_system_programming.Prelude.{
  ℕ, ◌-◌, Bool, true, false, ◌&&◌, ◌||◌, Option, none, some, List, [], ◌∷◌, map, ◌==◌,
  if◌then◌else◌, length, get_or, Str, before_nul,
}
use nsysu_system_programming.Shell.Redirect.{Argv, redirect}
use nsysu_system_programming.Shell.Redirect.Loops.{array}
use nsysu_system_programming.Shell.Pipeline.{Stream, Stage, run_pipeline}
use nsysu_system_programming.Shell.Args.{arg_list, fits, pipe_spliter}
use nsysu_system_programming.Shell.Builtin.{Effect, Host, Inbuilt, is_builtin, do_builtin}

-- `ch == EOF || ch == '\n' || ch == '\r'` of a byte in a `char`, where 255 is EOF.
abbrev pub ends_line : ℕ → Bool
ends_line ch = (ch == 255) || (ch == 10) || (ch == 13)

-- The bytes that the loop stores, and what is left of the input.
unfoldable pub read_line : Str → Str × Str
read_line [] = ([], [])
read_line (ch ∷ s) =
    let rest = read_line s in if ends_line ch then ([], s) else (ch ∷ rest.0, rest.1)

-- NULL for an empty string.
abbrev pub string_of : Str → Option Str
string_of [] = none
string_of (c ∷ s) = some (c ∷ s)

-- The end of the input reads as an empty line, again and again.
unfoldable pub input_string : Str → Option Str × Str
unfolding read_line
input_string input = let (str, rest) = read_line input in (string_of (before_nul str), rest)

-- A process as it calls `execvp`.
pub record Exec : Type 0 where
  pub stdin : Stream
  pub stdout : Stream
  pub from : Option Str
  pub to : Option Str
  pub argv : Argv

abbrev pub exec_at : Stage → Argv × Option Str × Option Str → Exec
exec_at stage (argv, from, to) = record {
  stdin = stage.stdin;
  stdout = stage.stdout;
  from = from;
  to = to;
  argv = argv;
}

-- A stage behind the loop of `run_command`.
unfoldable pub exec_stage : (blank : Str) → List Str → Stage → Exec
unfolding arg_list redirect
exec_stage blank commands stage =
    exec_at stage (redirect (array (arg_list blank (get_or commands stage.index [])) []))

-- `!!strchr(s, c)`
abbrev pub has_byte : ℕ → Str → Bool
has_byte c [] = false
has_byte c (d ∷ s) = (d == c) || has_byte c s

-- `notWait`
unfoldable pub not_wait : List Str → Bool
not_wait commands = has_byte b'&' (get_or commands (length commands - 1) [])

-- The processes, and whether the shell goes on without a wait.
unfoldable pub run_command : (blank : Str) → List Str → List Exec × Bool
unfolding run_pipeline exec_stage
run_command blank commands =
    (map (exec_stage blank commands) (run_pipeline (length commands)), not_wait commands)

-- Whether `getArgs` stays inside of its block in every process.
abbrev pub all_fit : (blank : Str) → List Str → Bool
all_fit blank [] = true
all_fit blank (command ∷ commands) = fits blank command && all_fit blank commands

-- What the shell does with one line. `overflows` is a line with a command of too many arguments, where
-- `getArgs` writes outside of its block.
pub data Turn : Type 0 where
  no_line : Turn
  bad_line : Turn
  overflows : Turn
  inbuilt : Effect → Turn
  started : List Exec × Bool → Turn

-- `is_builtin`, and what the entry that it found makes of the commands.
abbrev pub entry_turn : (blank : Str) → Host → List Str → Option Inbuilt → Turn
entry_turn blank host cmd none =
    if all_fit blank cmd then started (run_command blank cmd) else overflows
entry_turn blank host cmd (some this) = inbuilt (do_builtin blank host this cmd)

abbrev pub commands_turn : (blank : Str) → Host → Option (List Str) → Turn
commands_turn blank host none = bad_line
commands_turn blank host (some cmd) =
    if fits blank (get_or cmd 0 [])
    then entry_turn blank host cmd (is_builtin blank cmd)
    else overflows

abbrev pub line_turn : (blank : Str) → Host → Option Str → Turn
line_turn blank host none = no_line
line_turn blank host (some line) = commands_turn blank host (pipe_spliter line)

-- The body of the loop of `main`, and the input that is left.
unfoldable pub turn : (blank : Str) → Host → Str → Turn × Str
unfolding input_string
turn blank host input = let (line, rest) = input_string input in (line_turn blank host line, rest)
