-- ===== src/Dict/Convert.antt =====
-- hw4/part3: convert.c makes a file of records out of a text, and lookup1.c searches it line by line.
-- The text is given by its lines without their ends, and no line holds a NUL.
pub mod Record
pub mod Trip
use nsysu_system_programming.Prelude.{
  ℕ, zero, suc, ◌+◌, Bool, ◌&&◌, Option, none, some, List, [], ◌∷◌, ◌++◌, ltb, ◌==◌, if◌then◌else◌,
  length, set, drop, Str, str_eq, before_nul,
}
use nsysu_system_programming.Shell.Strtok.{flush, tokens}
use nsysu_system_programming.Dict.Remote.{padded}

-- The loop over the lines of a definition up to a blank one: the text joined to what was there, and
-- the lines left. At the end of the file the loop does not end.
unfoldable pub read_definition : (text : Str) → List Str → Option (Str × List Str)
read_definition text [] = none
read_definition text ([] ∷ lines) = some (text, lines)
read_definition text ((c ∷ line) ∷ lines) = read_definition (text ++ (c ∷ line)) lines

-- What `fwrite` writes of a record, if the word with the space behind it and the text leave room for
-- their NULs.
abbrev pub written_record : (line text : Str) → Option Str
written_record line text =
    if ltb (length line + 1) 32 && ltb (length text) 480
    then some (padded 32 (line ++ (32 ∷ [])) ++ (padded 480 text ++ (10 ∷ [])))
    else none

abbrev pub both : Option Str → Option Str → Option Str
both none rest = none
both (some s) none = none
both (some s) (some rest) = some (s ++ rest)

-- The main loop. At the end of the file `getline` leaves a new block, whose text is `fresh`.
unfoldable pub convert_loop : (fuel : ℕ) → (fresh : Str) → List Str → Option Str
unfolding read_definition
convert_loop zero fresh lines = none
convert_loop (suc fuel) [] [] = some []
convert_loop (suc fuel) (c ∷ fresh) [] = none
convert_loop (suc fuel) fresh (line ∷ lines) = elim (read_definition [] lines) [
  | none ↦ none
  | some (text, rest) ↦ both (written_record line text) (convert_loop fuel fresh rest)
]

-- Every round takes a line.
unfoldable pub convert : (fresh : Str) → List Str → Option Str
unfolding convert_loop
convert fresh lines = convert_loop (suc (length lines)) fresh lines

-- The lines that `getline` gives, with their ends, behind the bytes of the line so far.
unfoldable pub split_lines : Str → Str → List Str
split_lines cur [] = flush cur []
split_lines cur (c ∷ s) =
    let ended = split_lines [] s in
    let longer = split_lines (cur ++ (c ∷ [])) s in
    if c == 10 then (cur ++ (10 ∷ [])) ∷ ended else longer

pub data Result : Type 0 where
  has : (text : Str) → Result
  has_not : Result
  unavail : Result
  crashes : Result

abbrev pub is_blank : ℕ → Bool
is_blank c = c == 32

abbrev pub leading : Str → ℕ
leading [] = 0
leading (c ∷ s) = let rest = leading s in if is_blank c then suc rest else 0

-- `while (!(*text)) ++text;`
abbrev pub skip_nuls : Str → Option Str
skip_nuls [] = none
skip_nuls (c ∷ s) = let rest = skip_nuls s in if c == 0 then rest else some (c ∷ s)

-- `strcpy(sought->text, ++text)`
abbrev pub copied : Option Str → Result
copied none = crashes
copied (some s) = has (before_nul (drop 1 s))

-- The text of a line whose first token is `word`, which `strtok` ends by a NUL.
abbrev pub text_behind : (word line : Str) → Result
text_behind word line =
    copied (skip_nuls (drop (length word) (set line (leading line + length word) 0)))

-- One line, from its tokens; `rest` is what the other lines give.
abbrev pub line_result : (sought line : Str) → List Str → Result → Result
line_result sought line [] rest = crashes
line_result sought line (word ∷ words) rest =
    if str_eq word sought then text_behind word line else rest

unfoldable pub lookup_lines : (sought : Str) → List Str → Result
unfolding tokens
lookup_lines sought [] = has_not
lookup_lines sought (line ∷ lines) =
    line_result sought line (tokens is_blank [] (before_nul line)) (lookup_lines sought lines)

-- `lookup` of lookup1.c on the bytes of the file.
unfoldable pub lookup1 : (sought file : Str) → Result
unfolding lookup_lines split_lines
lookup1 sought file =
    if length sought == 1 then unavail else lookup_lines sought (split_lines [] file)
