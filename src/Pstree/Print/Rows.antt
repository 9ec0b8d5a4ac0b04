-- ===== src/Pstree/Print/Rows.antt =====
-- `PrintTree` (hw3/part2.c) ends on a table whose links unfold to a forest: what it writes, from the
-- forest alone.
use nsysu_system_programming.Prelude.{
  ℕ, ◌+◌, ◌-◌, ◌*◌, ◌<◌, ◌≡◌, refl, ap, ◌∙◌, Bool, true, false, not, ◌&&◌, ◌||◌, Option, some, List,
  [], ◌∷◌, ◌++◌, ltb, ◌==◌, if◌then◌else◌, length, take, replicate, Str, codes, decimal, int_eq,
  decimal_ℤ,
}
use nsysu_system_programming.Pstree.Table.{Proc, proc}
use nsysu_system_programming.Pstree.Forest.{Forest, nil, node, Shows, size}
use nsysu_system_programming.Pstree.Print.{
  Layout, Printer, is_empty, exists, fit, decimal_5, thread_text, line_text, row, row_of, next_head,
  returns_early, print_tree,
}
use nsysu_system_programming.Pstree.Print.Walk.{lines_of, tree_lines, print_tree_out}

abbrev pub joined : List Str → Str
joined [] = []
joined (s ∷ []) = s
joined (s ∷ t ∷ ss) = s ++ joined (t ∷ ss)

-- The characters in front of a process: none at the top; a branch, the last one of its parent's or one
-- with a sister below it.
abbrev pub corner : Layout → (head : Str) → (has_sister : Bool) → Str
corner o [] has_sister = []
corner o (c ∷ head) true = o.chars.barc
corner o (c ∷ head) false = o.chars.barl

-- What the lines below it have there: a bar, down to its next sister.
abbrev pub stem : Layout → (head : Str) → (has_sister : Bool) → Str
stem o [] has_sister = []
stem o (c ∷ head) true = o.chars.bar
stem o (c ∷ head) false = codes " "

-- A line: the part of the tree, the number of the process in five places, its user, its threads where it
-- has more than one, and its command, cut off at the width of the window.
abbrev pub line_with : Layout → Proc → (head mine : Str) → (has_child : Bool) → Str
line_with o r head mine has_child = take (o.columns - 1) (
    take 32767 (
      joined (
        o.chars.sg
        ∷ head
        ∷ mine
        ∷ (if has_child then o.chars.p else o.chars.s2)
        ∷ (if int_eq r.pid r.pgid then o.chars.pgl else o.chars.npgl)
        ∷ o.chars.eg
        ∷ codes " "
        ∷ (replicate (5 - length (decimal_ℤ r.pid)) b' ' ++ decimal_ℤ r.pid)
        ∷ codes " "
        ∷ (if o.noption then [] else r.name)
        ∷ codes " "
        ∷ (if ltb 1 r.thcount then take 15 (codes "[" ++ decimal r.thcount ++ codes "]") else [])
        ∷ r.cmd
        ∷ [])))

abbrev pub line : Layout → Proc → (head : Str) → (has_sister has_child : Bool) → Str
line o r head has_sister has_child = line_with o r head (corner o head has_sister) has_child

-- A process that is hidden and not selected has no line.
abbrev pub own_line : Layout → Proc → (head : Str) → (has_sister has_child : Bool) → List Str
own_line o r head has_sister has_child =
    if r.hidden && not r.selected then [] else line o r head has_sister has_child ∷ []

-- What stands in front of its children.
abbrev pub deeper : Layout → Proc → (head : Str) → (has_sister : Bool) → Str
deeper o r head has_sister =
    if r.hidden && not r.selected
    then take 8191 head
    else take 8191 (head ++ (stem o head has_sister ++ codes " "))

-- Nothing is written at the greatest depth, and nothing of a process at the top that is not to print.
abbrev pub is_cut : Layout → Proc → (head : Str) → (d : ℕ) → Bool
is_cut o r [] d = not r.print || (d == o.max_depth)
is_cut o r (c ∷ head) d = d == o.max_depth

abbrev pub is_node : Forest → Bool
is_node nil = false
is_node (node i f g) = true

module _ (o : Layout) (ps : List Proc) where
  -- The lines of a forest at the depth `d` behind `head`, in preorder.
  abbrev pub rows : ℕ → Forest → Str → List Str
  rows d nil head = []
  rows d (node i f g) head =
      (if is_cut o (proc ps i) head d
        then []
        else own_line o (proc ps i) head (is_node g) (is_node f)
          ++ rows (d + 1) f (deeper o (proc ps i) head (is_node g)))
      ++ rows d g head

  -- The lines of a process with these descendants.
  abbrev pub tree_rows : ℕ → ℕ → (has_sister : Bool) → Forest → Str → List Str
  tree_rows d i has_sister f head =
      if is_cut o (proc ps i) head d
      then []
      else own_line o (proc ps i) head has_sister (is_node f)
        ++ rows (d + 1) f (deeper o (proc ps i) head has_sister)

exists-is_node :
    (ps : List Proc) (link : Option ℕ) (f : Forest) → Shows ps link f → exists link ≡ is_node f
exists-is_node ps link nil s = ap exists s
exists-is_node ps link (node i f g) s = ap exists s.0

is_cut_lem :
    (o : Layout) (r : Proc) (head : Str) (d : ℕ) → returns_early o r head d ≡ is_cut o r head d
unfolding returns_early
is_cut_lem o r [] d = refl
is_cut_lem o r (c ∷ head) d = refl

corner_lem :
    (o : Layout) (head : Str) (b : Bool)
    → (if is_empty head then [] else if b then o.chars.barc else o.chars.barl) ≡ corner o head b
corner_lem o [] b = refl
corner_lem o (c ∷ head) true = refl
corner_lem o (c ∷ head) false = refl

stem_lem :
    (o : Layout) (head : Str) (b : Bool)
    → (if is_empty head then [] else if b then o.chars.bar else codes " ") ≡ stem o head b
stem_lem o [] b = refl
stem_lem o (c ∷ head) true = refl
stem_lem o (c ∷ head) false = refl

row_lem :
    (o : Layout) (r : Proc) (head : Str) (b c : Bool)
    → exists r.sister ≡ b
    → exists r.child ≡ c
    → row o r head ≡ line o r head b c
unfolding row line_text fit decimal_5 thread_text
row_lem o r head b c e f =
    ap
      (λ s.
        line_with o r head (if is_empty head then [] else if s then o.chars.barc else o.chars.barl)
          (exists r.child))
      e
    ∙ ap (λ k. line_with o r head k (exists r.child)) (corner_lem o head b)
    ∙ ap (line_with o r head (corner o head b)) f

row_of_lem :
    (o : Layout) (r : Proc) (head : Str) (b c : Bool)
    → exists r.sister ≡ b
    → exists r.child ≡ c
    → row_of o r head ≡ own_line o r head b c
unfolding row_of
row_of_lem o r head b c e f =
    ap (λ t. if r.hidden && not r.selected then [] else t ∷ []) (row_lem o r head b c e f)

next_head_lem :
    (o : Layout) (r : Proc) (head : Str) (b : Bool)
    → exists r.sister ≡ b
    → next_head o r head ≡ deeper o r head b
unfolding next_head fit
next_head_lem o r head b e =
    ap
      (λ s.
        if r.hidden && not r.selected
        then take 8191 head
        else take 8191 (
            head
            ++ ((if is_empty head then [] else if s then o.chars.bar else codes " ") ++ codes " ")))
      e
    ∙ ap
        (λ k.
          if r.hidden && not r.selected
          then take 8191 head
          else take 8191 (head ++ (k ++ codes " ")))
        (stem_lem o head b)

module _ (o : Layout) (ps : List Proc) where
  lines_of-rows :
      (d : ℕ) (link : Option ℕ) (f : Forest) (head : Str)
      → Shows ps link f
      → lines_of o ps d f head ≡ rows o ps d f head
  lines_of-rows d link nil head s = refl
  lines_of-rows d link (node i f g) head s =
      let r = proc ps i in
      let sister = exists-is_node ps r.sister g s.2 in
      let child = exists-is_node ps r.child f s.1 in
      let below =
        ap (lines_of o ps (d + 1) f) (next_head_lem o r head (is_node g) sister)
        ∙ lines_of-rows (d + 1) r.child f (deeper o r head (is_node g)) s.1 in
      ap
        (λ b.
          (if b then [] else row_of o r head ++ lines_of o ps (d + 1) f (next_head o r head))
          ++ lines_of o ps d g head)
        (is_cut_lem o r head d)
      ∙ ap
          (λ own.
            (if is_cut o r head d then [] else own ++ lines_of o ps (d + 1) f (next_head o r head))
            ++ lines_of o ps d g head)
          (row_of_lem o r head (is_node g) (is_node f) sister child)
      ∙ ap
          (λ more.
            (if is_cut o r head d then [] else own_line o r head (is_node g) (is_node f) ++ more)
            ++ lines_of o ps d g head)
          below
      ∙ ap
          (λ more.
            (if is_cut o r head d
              then []
              else own_line o r head (is_node g) (is_node f)
                ++ rows o ps (d + 1) f (deeper o r head (is_node g)))
            ++ more)
          (lines_of-rows d r.sister g head s.2)

  tree_lines-tree_rows :
      (d i : ℕ) (b : Bool) (f : Forest) (head : Str)
      → exists (proc ps i).sister ≡ b
      → Shows ps (proc ps i).child f
      → tree_lines o ps d i f head ≡ tree_rows o ps d i b f head
  tree_lines-tree_rows d i b f head sister s =
      let r = proc ps i in
      let child = exists-is_node ps r.child f s in
      ap (λ c. if c then [] else row_of o r head ++ lines_of o ps (d + 1) f (next_head o r head))
        (is_cut_lem o r head d)
      ∙ ap
          (λ own.
            if is_cut o r head d then [] else own ++ lines_of o ps (d + 1) f (next_head o r head))
          (row_of_lem o r head b (is_node f) sister child)
      ∙ ap (λ more. if is_cut o r head d then [] else own_line o r head b (is_node f) ++ more)
          (ap (lines_of o ps (d + 1) f) (next_head_lem o r head b sister)
            ∙ lines_of-rows (d + 1) r.child f (deeper o r head b) s)

-- Where the children of `idx` unfold to a forest, and the fuel is more than twice its size and one:
-- `PrintTree` ends, leaves `atLdepth` as it was, and adds the lines of the process and of its forest, in
-- preorder, to what was written. Nothing is written at the depth `maxLdepth`, nor of a process with an
-- empty head that is not to print, nor of what is below them; a process that is hidden and not selected
-- has no line, but what is below it has. What stands in a line follows from the process and from its
-- place in the forest: whether it has children, and whether it and those above it have a sister behind.
pub print_tree_lem :
    (fuel : ℕ) (o : Layout) (ps : List Proc) (st : Printer) (idx : ℕ) (f : Forest) (head : Str)
    → 2 * size f + 1 < fuel
    → Shows ps (proc ps idx).child f
    → print_tree fuel o ps st idx head
      ≡ some (record {
        at_depth = st.at_depth;
        out = st.out ++ tree_rows o ps st.at_depth idx (exists (proc ps idx).sister) f head;
      })
print_tree_lem fuel o ps st idx f head lt s =
    print_tree_out o ps fuel st idx f head lt s
    ∙ ap (λ more. some (record { at_depth = st.at_depth; out = st.out ++ more }))
        (tree_lines-tree_rows o ps st.at_depth idx (exists (proc ps idx).sister) f head refl s)
