-- ===== src/Pstree/Print.antt =====
-- `PrintTree` of hw3/part2.c: the lines of the tree. The walk takes fuel, and `none` is a walk that
-- does not end. The global `atLdepth` and the lines written so far are the state.
pub mod Walk
pub mod Rows
pub mod Count
use nsysu_system_programming.Prelude.{
  [], ℕ, zero, suc, ◌+◌, ◌-◌, ◌*◌, Bool, true, false, not, ◌&&◌, ◌||◌, Option, none, some, List,
  ◌∷◌, ◌++◌, ltb, ◌==◌, if◌then◌else◌, length, take, replicate, Str, codes, ℤ, pos, negsuc, int_eq,
  decimal, decimal_ℤ,
}
use nsysu_system_programming.Pstree.Table.{Proc, proc}

abbrev pub max_line : ℕ
max_line = 8192

-- `struct TreeChars`, without `init`, which `main` prints.
pub record TreeChars : Type 0 where
  pub s2 : Str
  pub p : Str
  pub pgl : Str
  pub npgl : Str
  pub barc : Str
  pub bar : Str
  pub barl : Str
  pub sg : Str
  pub eg : Str

-- What `PrintTree` reads of the options.
pub record Layout : Type 0 where
  pub chars : TreeChars
  pub noption : Bool
  pub columns : ℕ
  pub max_depth : ℕ

pub record Printer : Type 0 where
  pub at_depth : ℕ
  pub out : List Str

abbrev pub is_empty : Str → Bool
is_empty [] = true
is_empty (c ∷ s) = false

abbrev pub exists : Option ℕ → Bool
exists none = false
exists (some i) = true

-- The string that `snprintf` leaves in a buffer of `n` bytes.
unfoldable pub fit : ℕ → Str → Str
fit n s = take (n - 1) s

-- `%5ld`
unfoldable pub decimal_5 : ℤ → Str
unfolding decimal_ℤ
decimal_5 a = replicate (5 - length (decimal_ℤ a)) b' ' ++ decimal_ℤ a

-- `thread`
unfoldable pub thread_text : Proc → Str
unfolding decimal fit
thread_text r = if ltb 1 r.thcount then fit 16 (codes "[" ++ decimal r.thcount ++ codes "]") else []

-- The text that goes through `snprintf` to `out`.
unfoldable pub line_text : Layout → Proc → Str → Str
unfolding decimal_5 thread_text
line_text o r head =
    let c = o.chars in
    c.sg
    ++ (head
        ++ ((if is_empty head then [] else if exists r.sister then c.barc else c.barl)
            ++ ((if exists r.child then c.p else c.s2)
                ++ ((if int_eq r.pid r.pgid then c.pgl else c.npgl)
                    ++ (c.eg
                        ++ (codes " "
                            ++ (decimal_5 r.pid
                                ++ (codes " "
                                    ++ ((if o.noption then [] else r.name)
                                        ++ (codes " " ++ (thread_text r ++ r.cmd)))))))))))

-- `out` up to the NUL at `out[Columns - 1]`
unfoldable pub row : Layout → Proc → Str → Str
unfolding line_text fit
row o r head = take (o.columns - 1) (fit (4 * max_line) (line_text o r head))

-- A hidden process that is not selected prints no line, and its children stand in its place.
abbrev pub is_silent : Proc → Bool
is_silent r = r.hidden && not r.selected

-- `nhead`
unfoldable pub next_head : Layout → Proc → Str → Str
unfolding fit
next_head o r head =
    if is_silent r
    then fit max_line head
    else fit max_line (
        head
        ++ ((if is_empty head then [] else if exists r.sister then o.chars.bar else codes " ")
            ++ codes " "))

-- The line of the process, if it prints one.
unfoldable pub row_of : Layout → Proc → Str → List Str
unfolding row
row_of o r head = if is_silent r then [] else row o r head ∷ []

-- The two early returns.
unfoldable pub returns_early : Layout → Proc → Str → ℕ → Bool
returns_early o r head depth = (is_empty head && not r.print) || (depth == o.max_depth)

mutual
  pub print_tree : ℕ → Layout → List Proc → Printer → ℕ → Str → Option Printer
  print_tree zero o ps st idx head = none
  print_tree (suc fuel) o ps st idx head = elim (returns_early o (proc ps idx) head st.at_depth) [
    | true ↦ some st
    | false ↦
        elim (print_sisters fuel o ps
          (record { at_depth = st.at_depth + 1; out = st.out ++ row_of o (proc ps idx) head })
          (proc ps idx).child (next_head o (proc ps idx) head)) [
            | none ↦ none
            | some st' ↦ some (record st' { at_depth = st'.at_depth - 1 })
          ]
  ]

  -- The loop over the children, from `link` on.
  pub print_sisters : ℕ → Layout → List Proc → Printer → Option ℕ → Str → Option Printer
  print_sisters zero o ps st link head = none
  print_sisters (suc fuel) o ps st none head = some st
  print_sisters (suc fuel) o ps st (some c) head = elim (print_tree fuel o ps st c head) [
    | none ↦ none
    | some st' ↦ print_sisters fuel o ps st' (proc ps c).sister head
  ]
