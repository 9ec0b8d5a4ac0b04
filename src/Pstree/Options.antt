-- ===== src/Pstree/Options.antt =====
-- `main` of hw3/part2.c: the options, the width of the lines, and the passes over the table. The
-- options come as `getopt` hands them over, a letter with its argument; whether `getpwnam` knows a
-- user and what `TIOCGWINSZ` answers are arguments.
pub mod Bounds
use nsysu_system_programming.Prelude.{
  [], ℕ, zero, suc, ◌+◌, ◌-◌, Bool, true, false, Option, none, some, List, ◌∷◌, ltb, leb, ◌==◌,
  if◌then◌else◌, length, Str, codes, ℤ, pos, negsuc, atoi,
}
use nsysu_system_programming.Pstree.Table.{Proc, proc}
use nsysu_system_programming.Pstree.Root.{get_root_pid, get_pid_index}
use nsysu_system_programming.Pstree.Make.{make_tree}
use nsysu_system_programming.Pstree.Mark.{Filter, mark_procs}
use nsysu_system_programming.Pstree.Drop.{drop_procs}
use nsysu_system_programming.Pstree.Print.{TreeChars, Layout, Printer, max_line, print_tree}

-- The four rows of the array `TreeChars`.
abbrev pub tree_chars : ℕ → TreeChars
tree_chars zero = record {
  s2 = codes "--";
  p = codes "-+";
  pgl = codes "=";
  npgl = codes "-";
  barc = codes "|";
  bar = codes "|";
  barl = codes "\\";
  sg = [];
  eg = [];
}
tree_chars (suc zero) = record {
  s2 = 0o304 ∷ 0o304 ∷ [];
  p = 0o304 ∷ 0o302 ∷ [];
  pgl = 0o372 ∷ [];
  npgl = 0o304 ∷ [];
  barc = 0o303 ∷ [];
  bar = 0o263 ∷ [];
  barl = 0o300 ∷ [];
  sg = [];
  eg = [];
}
tree_chars (suc (suc zero)) = record {
  s2 = codes "qq";
  p = codes "qw";
  pgl = codes "`";
  npgl = codes "q";
  barc = codes "t";
  bar = codes "x";
  barl = codes "m";
  sg = 0o016 ∷ [];
  eg = 0o017 ∷ [];
}
tree_chars (suc (suc (suc n))) = record {
  s2 = 0o342 ∷ 0o224 ∷ 0o200 ∷ 0o342 ∷ 0o224 ∷ 0o200 ∷ [];
  p = 0o342 ∷ 0o224 ∷ 0o200 ∷ 0o342 ∷ 0o224 ∷ 0o254 ∷ [];
  pgl = codes "=";
  npgl = 0o342 ∷ 0o224 ∷ 0o200 ∷ [];
  barc = 0o342 ∷ 0o224 ∷ 0o234 ∷ [];
  bar = 0o342 ∷ 0o224 ∷ 0o202 ∷ [];
  barl = 0o342 ∷ 0o224 ∷ 0o224 ∷ [];
  sg = [];
  eg = [];
}

-- The globals and locals that the options set.
pub record Settings : Type 0 where
  pub input : Option Str
  pub graph : ℕ
  pub max_depth : ℕ
  pub hoption : Bool
  pub noption : Bool
  pub roption : Bool
  pub show_all : Bool
  pub soption : Bool
  pub uoption : Bool
  pub user : Str
  pub text : Str
  pub ipid : ℤ
  pub wide : Bool

abbrev pub defaults : Settings
defaults = record {
  input = none;
  graph = 3;
  max_depth = 100;
  hoption = false;
  noption = false;
  roption = false;
  show_all = true;
  soption = false;
  uoption = false;
  user = [];
  text = [];
  ipid = negsuc 0;
  wide = false;
}

-- What the loop over the options leads to; the other cases are the calls of `exit(1)`.
pub data Parsed : Type 0 where
  settings : Settings → Parsed
  invalid_graph : Parsed
  no_user : Str → Parsed
  usage : Parsed

-- `graph < 0 || graph >= G_LAST`
abbrev pub set_graph : Settings → ℤ → Parsed
set_graph s (negsuc n) = invalid_graph
set_graph s (pos n) = if leb 4 n then invalid_graph else settings (record s { graph = n })

-- `maxLdepth`, at least 1
abbrev pub set_depth : Settings → ℤ → Settings
set_depth s (negsuc n) = record s { max_depth = 1 }
set_depth s (pos n) = record s { max_depth = if ltb n 1 then 1 else n }

-- The `switch` on one option.
pub apply_option : (Str → Bool) → Settings → ℕ → Str → Parsed
apply_option getpwnam s ch optarg =
    if ch == b'f'
    then settings (record s { input = some optarg })
    else if ch == b'g'
    then set_graph s (atoi optarg)
    else if ch == b'l'
    then settings (set_depth s (atoi optarg))
    else if ch == b'H'
    then settings (record s { hoption = true })
    else if ch == b'n'
    then settings (record s { noption = true })
    else if ch == b'r'
    then settings (record s { roption = true })
    else if ch == b'p'
    then settings (record s { show_all = false; ipid = atoi optarg })
    else if ch == b's'
    then settings (record s { show_all = false; soption = true; text = optarg })
    else if ch == b'u'
    then (if getpwnam optarg
        then settings (record s { show_all = false; user = optarg })
        else no_user optarg)
    else if ch == b'U'
    then settings (record s { show_all = false; uoption = true })
    else if ch == b'w'
    then settings (record s { wide = true })
    else usage

unfoldable pub parse_options : (Str → Bool) → Settings → List (ℕ × Str) → Parsed
unfolding apply_option
parse_options getpwnam s [] = settings s
parse_options getpwnam s ((ch, optarg) ∷ rest) = elim (apply_option getpwnam s ch optarg) [
  | settings s' ↦ parse_options getpwnam s' rest
  | invalid_graph ↦ invalid_graph
  | no_user u ↦ no_user u
  | usage ↦ usage
]

-- `Columns`, from the width `ws_col` of the window.
pub columns : Settings → ℕ → ℕ
columns s ws_col =
    let asked = if s.wide then max_line - 1 else ws_col in
    let width = if asked == 0 then max_line - 1 else asked in
    let c = tree_chars s.graph in
    let whole = width + (length c.sg + length c.eg) in
    if leb max_line whole then max_line - 1 else whole

abbrev pub filter_of : Settings → ℤ → Filter
filter_of s my_pid = record {
  show_all = s.show_all;
  soption = s.soption;
  uoption = s.uoption;
  hoption = s.hoption;
  user = s.user;
  text = s.text;
  ipid = s.ipid;
  my_pid = my_pid;
}

abbrev pub layout_of : Settings → ℕ → Layout
layout_of s ws_col = record {
  chars = tree_chars s.graph;
  noption = s.noption;
  columns = columns s ws_col;
  max_depth = s.max_depth;
}

-- `MakeTree`, `MarkProcs` and `DropProcs` in turn.
unfoldable pub passes : ℕ → Settings → ℤ → List Proc → Option (List Proc)
passes fuel s my_pid ps = elim (make_tree ps) [
  | none ↦ none
  | some made ↦ elim (mark_procs fuel (filter_of s my_pid) made) [
    | none ↦ none
    | some marked ↦ drop_procs fuel s.roption marked
  ]
]

-- The loop over the pids of the command line; a pid that no process has is passed over.
pub print_pids : ℕ → Layout → List Proc → Printer → List ℤ → Option Printer
print_pids fuel o ps st [] = some st
print_pids fuel o ps st (pid ∷ pids) = elim (get_pid_index ps pid) [
  | none ↦ print_pids fuel o ps st pids
  | some idx ↦ elim (print_tree fuel o ps st idx []) [
    | none ↦ none
    | some st' ↦ print_pids fuel o ps st' pids
  ]
]
