-- ===== src/Walk.antt =====
-- The two walks over /proc of hw3: part1.c shows the processes of a user and part3.c the open files of
-- all processes. What the directories, the files and the users are is a parameter.
pub mod Numbers
pub mod Status
pub mod Links
mod Tests
use nsysu_system_programming.Prelude.{
  ℕ, suc, ◌-◌, ◌%◌, ◌^◌, Bool, true, false, not, ◌&&◌, ◌||◌, Option, none, some, List, [], ◌∷◌,
  ◌++◌, ltb, leb, ◌==◌, if◌then◌else◌, length, get_elem?, take, Str, codes, ℤ, pos, negsuc,
  decimal_ℤ, atoi, is_space,
}
use nsysu_system_programming.Shell.Strtok.{tokens}
use nsysu_system_programming.Shell.Args.{is_delim}

abbrev pub is_digit : ℕ → Bool
is_digit c = leb 48 c && leb c 57

abbrev pub skip_digits : Str → Str
skip_digits [] = []
skip_digits (c ∷ s) = let rest = skip_digits s in if is_digit c then rest else c ∷ s

-- What is behind the digits at the front, of which there must be one.
abbrev pub behind_number : Str → Option Str
behind_number [] = none
behind_number (c ∷ s) = if is_digit c then some (skip_digits s) else none

abbrev pub behind_sign : Str → Option Str
behind_sign [] = none
behind_sign (c ∷ s) = if (c == b'-') || (c == b'+') then behind_number s else behind_number (c ∷ s)

abbrev pub behind_spaces : Str → Option Str
behind_spaces [] = none
behind_spaces (c ∷ s) =
    let rest = behind_spaces s in if is_space c then rest else behind_sign (c ∷ s)

-- Where `strtol` leaves `endptr`: at the text itself if there is no number.
abbrev pub ended : Str → Option Str → Str
ended s none = s
ended s (some rest) = rest

abbrev pub endptr : Str → Str
endptr s = ended s (behind_spaces s)

abbrev pub is_end : Str → Bool
is_end [] = true
is_end (c ∷ s) = false

unfoldable pub is_numeric : Str → Bool
is_numeric s = is_end (endptr s)

-- A `long` as a `uid_t`.
abbrev pub uid_t : ℤ → ℕ
uid_t (pos n) = n % 2 ^ 32
uid_t (negsuc n) = 2 ^ 32 - 1 - n % 2 ^ 32

-- -1 as a `uid_t`
abbrev pub no_uid : ℕ
no_uid = 2 ^ 32 - 1

abbrev pub found_uid : Option ℕ → ℕ
found_uid none = no_uid
found_uid (some uid) = uid

-- `getpwnam` gives the user id of a name. The value of `strtol` is that of `atoi` while it fits.
unfoldable pub user_id_from_name : (getpwnam : Str → Option ℕ) → Option Str → ℕ
unfolding is_numeric atoi
user_id_from_name getpwnam none = no_uid
user_id_from_name getpwnam (some []) = no_uid
user_id_from_name getpwnam (some (c ∷ s)) =
    if is_numeric (c ∷ s) then uid_t (atoi (c ∷ s)) else found_uid (getpwnam (c ∷ s))

abbrev pub gen_subdir : Str → Str → Str
gen_subdir path name = path ++ name

-- Texts one behind the other; `none` when one of them is not defined.
abbrev pub append : Option Str → Option Str → Option Str
append none rest = none
append (some s) none = none
append (some s) (some rest) = some (s ++ rest)

-- The loop of both `main`s over the names of /proc.
unfoldable pub walk : (show : Str → Option Str) → List Str → Option Str
unfolding is_numeric
walk show [] = some []
walk show (name ∷ names) =
    let rest = walk show names in
    let shown = show (gen_subdir (codes "/proc/") name) in
    if is_numeric name then append shown rest else rest

-- What line 9 of a status file prints; `none` if it has no third word.
abbrev pub uid_line : (wanted : ℕ) → (buf line : Str) → Option Str
unfolding tokens atoi decimal_ℤ
uid_line wanted buf line = elim (get_elem? (tokens is_delim [] line) 2) [
  | none ↦ none
  | some word ↦
      if uid_t (atoi word) == wanted
      then some (buf ++ codes "Uid:\t" ++ decimal_ℤ (atoi word) ++ codes "\n")
      else some []
]

-- The loop over the lines from number `counter + 1` on; `none` also if the first line does not fit
-- into `buf`.
unfoldable pub status_loop : (wanted : ℕ) → (counter : ℕ) → (buf : Str) → List Str → Option Str
unfolding uid_line
status_loop wanted counter buf [] = some []
status_loop wanted counter buf (line ∷ lines) =
    let same = status_loop wanted (suc counter) buf lines in
    let copied = status_loop wanted (suc counter) line lines in
    if not (ltb (suc counter) 10)
    then some []
    else if suc counter == 1
    then if ltb (length line) 256 then copied else none
    else if suc counter == 9
    then append (uid_line wanted buf line) same
    else same

abbrev pub printed_of : (wanted : ℕ) → Option (List Str) → Option Str
unfolding status_loop
printed_of wanted none = none
printed_of wanted (some lines) = status_loop wanted 0 [] lines

-- `fopen` gives the lines of a file; the loop reads from a NULL if it fails.
unfoldable pub show_name_id :
    (fopen : Str → Option (List Str)) → (wanted : ℕ) → (ps : Str) → Option Str
show_name_id fopen wanted ps = printed_of wanted (fopen (ps ++ codes "/status"))

-- The processes of the user of part1.c.
unfoldable pub show_processes :
    (fopen : Str → Option (List Str))
    → (getpwnam : Str → Option ℕ) → (uname : Str) → List Str
    → Option Str
unfolding walk show_name_id user_id_from_name
show_processes fopen getpwnam uname names =
    walk (show_name_id fopen (user_id_from_name getpwnam (some uname))) names

-- The line for one link; `none` if the target fills `buf`, which has no NUL then.
abbrev pub link_line : Str → Option Str → Option Str
link_line fd_path none = some []
link_line fd_path (some target) =
    if ltb (length target) 256 then some (fd_path ++ codes " -> " ++ target ++ codes "\n") else none

-- The loop over the entries of a process's directory. `snprintf` cuts the path.
unfoldable pub links_loop : (readlink : Str → Option Str) → (filename : Str) → List Str → Option Str
unfolding is_numeric
links_loop readlink filename [] = some []
links_loop readlink filename (name ∷ names) =
    let rest = links_loop readlink filename names in
    let fd_path = take 511 (filename ++ codes "/" ++ name) in
    if is_numeric name then append (link_line fd_path (readlink fd_path)) rest else rest

abbrev pub links_of :
    (readlink : Str → Option Str) → (filename : Str) → Option (List Str) → Option Str
unfolding links_loop
links_of readlink filename none = some []
links_of readlink filename (some names) = links_loop readlink filename names

-- Nothing is printed on the standard output when `opendir` fails.
unfoldable pub show_fd_link :
    (opendir : Str → Option (List Str)) → (readlink : Str → Option Str) → (ps : Str) → Option Str
show_fd_link opendir readlink ps =
    links_of readlink (ps ++ codes "/fd") (opendir (ps ++ codes "/fd"))

-- The links of part3.c.
unfoldable pub show_links :
    (opendir : Str → Option (List Str)) → (readlink : Str → Option Str) → List Str → Option Str
unfolding walk show_fd_link
show_links opendir readlink names = walk (show_fd_link opendir readlink) names
