-- ===== src/Shell/Redirect.antt =====
-- `redirect` of hw4/part2/redirect.c, on the array of arguments: NULL is `none`, and what lies
-- outside of the array is taken as NULL. `fopen` and `dup2` are the caller's.
pub mod Loops
pub mod Erase
use nsysu_system_programming.Prelude.{
  ℕ, zero, suc, ◌+◌, ◌-◌, Bool, Option, none, some, List, [], ◌∷◌, ◌==◌, if◌then◌else◌, length,
  get_or, set, Str,
}

abbrev pub Argv : Type 0
Argv = List (Option Str)

abbrev pub argument : Argv → ℕ → Option Str
argument cmd i = get_or cmd i none

-- `*tok != mode`, where the byte after the end of an empty text is NUL.
abbrev pub begins_with : ℕ → Str → Bool
begins_with mode [] = mode == 0
begins_with mode (c ∷ s) = c == mode

-- The first loop, with at most `fuel` arguments left from `i` on: the index behind the symbol.
unfoldable pub find_symbol : ℕ → ℕ → Argv → ℕ → Option ℕ
find_symbol zero mode cmd i = none
find_symbol (suc fuel) mode cmd i =
    let further = find_symbol fuel mode cmd (suc i) in
    elim (argument cmd i) [
      | none ↦ none
      | some tok ↦ if begins_with mode tok then some (suc i) else further
    ]

-- `while (cmd[++j] != NULL);`, from `j` on
unfoldable pub find_end : ℕ → Argv → ℕ → ℕ
find_end zero cmd j = j
find_end (suc fuel) cmd j =
    let further = find_end fuel cmd (suc j) in
    elim (argument cmd j) [ none ↦ j | some tok ↦ further ]

-- The loop that moves the tail over the symbol and the name, for `n` values of `k`.
unfoldable pub shift : ℕ → ℕ → Argv → Argv
shift zero k cmd = cmd
shift (suc n) k cmd = shift n (suc k) (set cmd k (argument cmd (k + 2)))

-- The array afterwards, and the name of the file that is opened, if there is a redirection.
unfoldable pub redirect_to : ℕ → Argv → Argv × Option Str
unfolding find_symbol find_end shift
redirect_to mode cmd = elim (find_symbol (length cmd) mode cmd 0) [
  | none ↦ (cmd, none)
  | some i ↦ elim (argument cmd i) [
    | none ↦ (cmd, none)
    | some name ↦
        let j = find_end (length cmd) cmd (suc i) in
        (shift (j - 1 - (i - 1)) (i - 1) cmd, some name)
  ]
]

-- The files for the standard input and the standard output.
unfoldable pub redirect : Argv → Argv × Option Str × Option Str
unfolding redirect_to
redirect cmd =
    let (cmd', from) = redirect_to b'<' cmd in
    let (cmd'', to) = redirect_to b'>' cmd' in (cmd'', from, to)
