-- ===== src/Pstree/Print/Walk.antt =====
-- The walk of `PrintTree` (hw3/part2.c) along links that unfold to a forest.
use nsysu_system_programming.Prelude.{
  ℕ, zero, suc, ◌+◌, ◌*◌, ◌<◌, ◌≡◌, inl, inr, Option, some, List, [], ◌++◌, append-nil,
  append_assoc, arith, if◌then◌else◌, Bool-cases, Str,
}
use nsysu_system_programming.Pstree.Table.{Proc, proc}
use nsysu_system_programming.Pstree.Forest.{Forest, nil, node, Shows, size}
use nsysu_system_programming.Pstree.Print.{
  Layout, Printer, row_of, next_head, returns_early, print_tree, print_sisters,
}

module _ (o : Layout) (ps : List Proc) where
  -- What the walk writes of a forest at the depth `d` behind `head`.
  abbrev pub lines_of : ℕ → Forest → Str → List Str
  lines_of d nil head = []
  lines_of d (node i f g) head =
      (if returns_early o (proc ps i) head d
        then []
        else row_of o (proc ps i) head ++ lines_of (d + 1) f (next_head o (proc ps i) head))
      ++ lines_of d g head

  -- What it writes of a process and its descendants.
  abbrev pub tree_lines : ℕ → ℕ → Forest → Str → List Str
  tree_lines d i f head =
      if returns_early o (proc ps i) head d
      then []
      else row_of o (proc ps i) head ++ lines_of (d + 1) f (next_head o (proc ps i) head)

  abbrev after : Printer → List Str → Printer
  after st lines = record { at_depth = st.at_depth; out = st.out ++ lines }

  mutual
    unfolding print_tree

    pub print_tree_out :
        (fuel : ℕ) (st : Printer) (i : ℕ) (f : Forest) (head : Str)
        → 2 * size f + 1 < fuel
        → Shows ps (proc ps i).child f
        → print_tree fuel o ps st i head ≡ some (after st (tree_lines st.at_depth i f head))
    print_tree_out zero st i f head lt s = absurd (omega arith)
    print_tree_out (suc fuel) st i f head lt s =
        elim (Bool-cases (returns_early o (proc ps i) head st.at_depth)) [
          | inl e ↦ rw (e, append-nil, print_tree)
          | inr e ↦
              let entered : Printer = record {
                at_depth = st.at_depth + 1;
                out = st.out ++ row_of o (proc ps i) head;
              } in
              let below =
                print_sisters_out fuel entered _ f (next_head o (proc ps i) head) (omega arith) s in
              rw (e, print_tree)
                (rw (below, print_tree)
                  (ground (
                    arith,
                    append_assoc st.out (row_of o (proc ps i) head)
                        (lines_of (st.at_depth + 1) f (next_head o (proc ps i) head)),
                  )))
        ]

    print_sisters_out :
        (fuel : ℕ) (st : Printer) (link : Option ℕ) (f : Forest) (head : Str)
        → 2 * size f < fuel
        → Shows ps link f
        → print_sisters fuel o ps st link head ≡ some (after st (lines_of st.at_depth f head))
    print_sisters_out zero st link f head lt s = absurd (omega arith)
    print_sisters_out (suc fuel) st link nil head lt s = rw (s, append-nil)
    print_sisters_out (suc fuel) st link (node i f g) head lt s =
        let here = print_tree_out fuel st i f head (omega arith) s.1 in
        let rest =
          print_sisters_out fuel (after st (tree_lines st.at_depth i f head)) _ g head (omega arith)
            s.2 in
        rw s.0 (
          rw (here, print_sisters)
            (rw (rest, print_sisters)
              (ground (
                arith,
                append_assoc st.out (tree_lines st.at_depth i f head) (lines_of st.at_depth g head),
              ))))
