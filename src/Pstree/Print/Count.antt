-- ===== src/Pstree/Print/Count.antt =====
-- How many lines `PrintTree` (hw3/part2.c) writes, and how long they are.
use nsysu_system_programming.Prelude.{
  ℕ, suc, ◌+◌, ◌-◌, ◌*◌, ◌≤◌, ◌<◌, ◌≡◌, refl, ◌≢◌, inl, inr, true, false, some, List, [], ◌++◌,
  arith, Bool-cases, length, All, length-append, length-take, All-append, Str,
}
use Prim.Native.Nat.{max}
use nsysu_system_programming.Pstree.Table.{Proc, proc}
use nsysu_system_programming.Pstree.Forest.{Forest, nil, node, Shows, size, Every}
use nsysu_system_programming.Pstree.Print.{
  Layout, Printer, row, row_of, is_silent, next_head, returns_early, print_tree,
}
use nsysu_system_programming.Pstree.Print.Walk.{lines_of, tree_lines, print_tree_out}

-- The number of levels.
abbrev pub height : Forest → ℕ
height nil = 0
height (node i f g) = max (suc (height f)) (height g)

-- Printed, and not passed over as a hidden process.
abbrev pub IsShown : Proc → Type 0
IsShown r = (r.print ≡ true) × (is_silent r ≡ false)

module _ (o : Layout) (ps : List Proc) where
  goes_on :
      (r : Proc) (head : Str) (d : ℕ)
      → r.print ≡ true
      → d ≢ o.max_depth
      → returns_early o r head d ≡ false
  unfolding returns_early
  goes_on r head d shown ne = ground arith

  row_of-IsShown : (r : Proc) (head : Str) → is_silent r ≡ false → length (row_of o r head) ≡ 1
  unfolding row_of
  row_of-IsShown r head e = rw e

  length-lines_of-IsShown :
      (d : ℕ) (f : Forest) (head : Str)
      → d + height f ≤ o.max_depth
      → Every (λ i. IsShown (proc ps i)) f
      → length (lines_of o ps d f head) ≡ size f
  length-lines_of-IsShown d nil head h every = refl
  length-lines_of-IsShown d (node i f g) head h every =
      let below =
        length-lines_of-IsShown (d + 1) f (next_head o (proc ps i) head) (omega arith) every.1 in
      let after = length-lines_of-IsShown d g head (omega arith) every.2 in
      rw (goes_on (proc ps i) head d every.0.0 (omega arith)) (
        omega (
          arith,
          below,
          after,
          row_of-IsShown (proc ps i) head every.0.1,
          length-append
              (row_of o (proc ps i) head ++ lines_of o ps (d + 1) f (next_head o (proc ps i) head))
              (lines_of o ps d g head),
          length-append (row_of o (proc ps i) head)
              (lines_of o ps (d + 1) f (next_head o (proc ps i) head)),
        ))

  abbrev Fits : Str → Type 0
  Fits line = length line ≤ o.columns - 1

  row-Fits : (r : Proc) (head : Str) → Fits (row o r head)
  unfolding row
  row-Fits r head = rw length-take (omega arith)

  row_of-Fits : (r : Proc) (head : Str) → All Fits (row_of o r head)
  unfolding row_of
  row_of-Fits r head = elim (Bool-cases (is_silent r)) [
    | inl e ↦ rw e tt
    | inr e ↦ rw e (row-Fits r head, tt)
  ]

  tree_lines-Fits :
      (d i : ℕ) (f : Forest) (head : Str)
      → All Fits (lines_of o ps (d + 1) f (next_head o (proc ps i) head))
      → All Fits (tree_lines o ps d i f head)
  tree_lines-Fits d i f head below = elim (Bool-cases (returns_early o (proc ps i) head d)) [
    | inl e ↦ rw e tt
    | inr e ↦
        rw e (All-append Fits (row_of o (proc ps i) head) _ (row_of-Fits (proc ps i) head) below)
  ]

  lines_of-Fits : (d : ℕ) (f : Forest) (head : Str) → All Fits (lines_of o ps d f head)
  lines_of-Fits d nil head = tt
  lines_of-Fits d (node i f g) head =
      All-append Fits (tree_lines o ps d i f head) (lines_of o ps d g head)
        (tree_lines-Fits d i f head (lines_of-Fits (d + 1) f (next_head o (proc ps i) head)))
        (lines_of-Fits d g head)

-- No line that `PrintTree` adds is longer than `Columns - 1` bytes, for every tree, depth and head.
pub print_tree-Fits :
    (fuel : ℕ) (o : Layout) (ps : List Proc) (st : Printer) (idx : ℕ) (f : Forest) (head : Str)
    → 2 * size f + 1 < fuel
    → Shows ps (proc ps idx).child f
    → All (λ line. length line ≤ o.columns - 1) st.out
    → (st' : Printer) × (print_tree fuel o ps st idx head ≡ some st')
      × (st'.at_depth ≡ st.at_depth)
      × All (λ line. length line ≤ o.columns - 1) st'.out
print_tree-Fits fuel o ps st idx f head lt s before = (
  _,
  print_tree_out o ps fuel st idx f head lt s,
  refl,
  All-append (λ line. length line ≤ o.columns - 1) st.out _ before
      (tree_lines-Fits o ps st.at_depth idx f head (lines_of-Fits o ps (st.at_depth + 1) f _)),
)

-- Where no level of the tree lies below `maxLdepth`, and every process of it is printed and not
-- hidden, `PrintTree` writes exactly one line for each process.
pub print_tree-count :
    (fuel : ℕ) (o : Layout) (ps : List Proc) (st : Printer) (idx : ℕ) (f : Forest) (head : Str)
    → 2 * size f + 1 < fuel
    → Shows ps (proc ps idx).child f
    → st.at_depth + suc (height f) ≤ o.max_depth
    → IsShown (proc ps idx)
    → Every (λ i. IsShown (proc ps i)) f
    → (st' : Printer) × (print_tree fuel o ps st idx head ≡ some st')
      × (length st'.out ≡ length st.out + suc (size f))
print_tree-count fuel o ps st idx f head lt s deep shown every =
    let one =
      length-lines_of-IsShown o ps st.at_depth (node idx f nil) head (omega arith)
        (shown, every, tt) in
    let whole = length-append (tree_lines o ps st.at_depth idx f head) [] in
    (_, print_tree_out o ps fuel st idx f head lt s, rw length-append (omega (arith, one, whole)))
