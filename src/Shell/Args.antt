-- ===== src/Shell/Args.antt =====
-- `getArgs` and `pipe_spliter` of hw4/part2/parser.c: a command's arguments and a line's commands.
pub mod Words
pub mod Commands
use nsysu_system_programming.Prelude.{
  ℕ, zero, suc, ◌*◌, Bool, true, false, ◌&&◌, ◌||◌, Option, none, some, List, [], ◌∷◌, ltb, leb,
  ◌==◌, if◌then◌else◌, length, Str,
}
use nsysu_system_programming.Prelude.{is_space}
use nsysu_system_programming.Shell.Strtok.{tokens}

-- `delim`
abbrev pub is_delim : ℕ → Bool
is_delim c = (c == 32) || (c == 9) || (c == 10)

-- The loop's condition `*tok != '&'`.
abbrev pub until_ampersand : List Str → List Str
until_ampersand [] = []
until_ampersand ([] ∷ ws) = [] ∷ until_ampersand ws
until_ampersand ((c ∷ w) ∷ ws) = if c == b'&' then [] else (c ∷ w) ∷ until_ampersand ws

-- The body of the loop comes before its condition, so the first token is always taken.
abbrev pub take_args : List Str → List Str
take_args [] = []
take_args (w ∷ ws) = w ∷ until_ampersand ws

unfoldable pub skip_spaces : Str → Str
skip_spaces [] = []
skip_spaces (c ∷ s) = let rest = skip_spaces s in if is_space c then rest else c ∷ s

-- The arguments that `getArgs` takes from a command. An empty command gives one, `malloc(0)`, whose text
-- is whatever lies there.
unfoldable pub arg_list : (blank : Str) → Str → List Str
unfolding tokens skip_spaces
arg_list blank command = elim (skip_spaces command) [
  | [] ↦ blank ∷ []
  | c ∷ s ↦ take_args (tokens is_delim [] (c ∷ s))
]

-- `ARGV_DEFAULT_SIZE`
abbrev pub argv_default_size : ℕ
argv_default_size = 512

-- `new_argv_cap` and the bytes of `new_argv` after the test of a round: `realloc` takes the doubled
-- number of pointers as a number of bytes.
abbrev pub grow : (cap bytes count : ℕ) → ℕ × ℕ
grow cap bytes count = if leb cap count then (2 * cap, 2 * cap) else (cap, bytes)

-- Whether all pointers from `count` on, and the NULL behind them, are stored inside of the block.
unfoldable pub room : (cap bytes count : ℕ) → List Str → Bool
room cap bytes count [] = leb (8 * suc count) bytes
room cap bytes count (w ∷ ws) =
    let block = grow cap bytes count in
    leb (8 * suc count) block.1 && room block.0 block.1 (suc count) ws

-- `getArgs`; `none` where it writes outside of the block. The block of an empty command has room for
-- its two pointers.
unfoldable pub get_args : (blank : Str) → Str → Option (List Str)
unfolding arg_list room skip_spaces
get_args blank command = elim (skip_spaces command) [
  | [] ↦ some (arg_list blank command)
  | c ∷ s ↦
      if room argv_default_size (8 * argv_default_size) 0 (arg_list blank command)
      then some (arg_list blank command)
      else none
]

-- Whether it does not.
unfoldable pub fits : (blank : Str) → Str → Bool
unfolding get_args
fits blank command = elim (get_args blank command) [ none ↦ false | some args ↦ true ]

-- `MAX_PIPE_NUM`
abbrev pub max_pipe_num : ℕ
max_pipe_num = 512

abbrev pub is_bar : ℕ → Bool
is_bar c = c == b'|'

-- The loop stores the tokens and the NULL behind them. There is no result when there is no token,
-- since `strdup` is then called with NULL, or when the block has no room for the NULL.
abbrev pub store : List Str → Option (List Str)
store [] = none
store (cmd ∷ cmds) = if ltb (length (cmd ∷ cmds)) max_pipe_num then some (cmd ∷ cmds) else none

unfoldable pub pipe_spliter : Str → Option (List Str)
unfolding tokens
pipe_spliter input = store (tokens is_bar [] input)
