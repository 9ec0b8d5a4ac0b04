-- ===== src/Pstree/Tests.antt =====
-- The theorems on pstree (hw3/part2.c) at a small table: init, two of its children, and a grandchild.
use nsysu_system_programming.Prelude.{
  Bool, false, ℕ, zero, suc, ◌+◌, ◌-◌, ◌≤◌, ◌<◌, ◌≡◌, refl, ◌≢◌, ◌↔◌, ◌⊎◌, true, Option, none, some,
  List, [], ◌∷◌, arith, length, take, All, All-get_or, Str, codes, ℤ, pos, negsuc, atoi,
}
use mathlib.Core.List.{Memᴰ}
use nsysu_system_programming.Pstree.Table.{Proc, proc, blank}
use nsysu_system_programming.Pstree.Forest.{Forest, nil, node, In}
use nsysu_system_programming.Pstree.Root.{get_root_pid, get_pid_index}
use nsysu_system_programming.Pstree.Root.Search.{
  get_pid_index-found, get_pid_index-none, get_root_pid-one, get_root_pid_lem, IsUnrooted,
}
use nsysu_system_programming.Pstree.Make.{make_tree, parent_of}
use nsysu_system_programming.Pstree.Make.Ids.{SameIds}
use nsysu_system_programming.Pstree.Make.Kids.{kids, Chain}
use nsysu_system_programming.Pstree.Make.Build.{make_tree_lem}
use nsysu_system_programming.Pstree.Make.Half.{IsUnlinked}
use nsysu_system_programming.Pstree.Mark.{mark_children}
use nsysu_system_programming.Pstree.Mark.Children.{SameButPrint, mark_children_lem}
use nsysu_system_programming.Pstree.Drop.{drop_procs}
use nsysu_system_programming.Pstree.Drop.Links.{dropped, drop_procs_lem}
use nsysu_system_programming.Pstree.Drop.Prune.{drop_procs-Shows, prune}
use nsysu_system_programming.Pstree.Forest.{Shows}
use nsysu_system_programming.Pstree.Print.{Layout, Printer, print_tree}
use nsysu_system_programming.Pstree.Print.Rows.{tree_rows, print_tree_lem}
use nsysu_system_programming.Pstree.Print.Count.{print_tree-Fits, print_tree-count}
use nsysu_system_programming.Pstree.Options.{tree_chars, defaults, parse_options, columns}
use nsysu_system_programming.Pstree.Options.Bounds.{IsValid, parse_options-IsValid, columns_bounds}
use nsysu_system_programming.Pstree.Collect.{Entry, ask_user, uid2user, get_processes, Stat}
use nsysu_system_programming.Pstree.Collect.Names.{IsCache, uid2user_lem, get_processes-table}

abbrev entry : ℕ → ℕ → Proc
entry id parent = record blank { pid = pos id; ppid = pos parent; pgid = pos id }

abbrev sample : List Proc
sample = entry 1 0 ∷ entry 10 1 ∷ entry 20 10 ∷ entry 11 1 ∷ []

-- The same table with the links that `MakeTree` makes, and with all marks set.
abbrev linked : List Proc
linked =
    record (entry 1 0) { print = true; child = some 1 }
    ∷ record (entry 10 1) { print = true; parent = some 0; child = some 2; sister = some 3 }
    ∷ record (entry 20 10) { print = true; parent = some 1 }
    ∷ record (entry 11 1) { print = true; parent = some 0 }
    ∷ []

abbrev below_init : Forest
below_init = node 1 (node 2 nil nil) (node 3 nil nil)

sample-IsUnlinked : IsUnlinked sample
sample-IsUnlinked = record {
  parent =
      All-get_or (λ (r : Proc). r.parent ≡ none) sample blank (refl, (refl, (refl, (refl, tt))))
        refl;
  child =
      All-get_or (λ (r : Proc). r.child ≡ none) sample blank (refl, (refl, (refl, (refl, tt))))
        refl;
  sister =
      All-get_or (λ (r : Proc). r.sister ≡ none) sample blank (refl, (refl, (refl, (refl, tt))))
        refl;
}

get_pid_index_found_run :
    (2 < 4)
    × ((proc sample 2).pid ≡ pos 20)
    × ((3 ≤ 2) ⊎ ((4 ≤ 3) ⊎ ((proc sample 3).pid ≢ pos 20)))
unfolding get_pid_index
get_pid_index_found_run = get_pid_index-found sample (pos 20) 2 3 refl

get_pid_index_none_run : (proc sample 3).pid ≢ pos 99
unfolding get_pid_index
get_pid_index_none_run = get_pid_index-none sample (pos 99) 3 refl (omega arith)

get_root_pid-one_example : get_root_pid sample ≡ pos 1
get_root_pid-one_example = get_root_pid-one sample (entry 1 0) (Memᴰ.head refl) refl

get_root_pid_lem_run :
    ((p : Proc) × Memᴰ p sample × (p.pid ≡ get_root_pid sample))
    ⊎ ((get_root_pid sample ≡ negsuc 0) × All IsUnrooted sample)
get_root_pid_lem_run = get_root_pid_lem sample

make_tree_lem_example :
    (qs : List Proc) × (make_tree sample ≡ some qs)
    × SameIds sample qs
    × ((p : ℕ) → Chain qs (proc qs p).child (kids sample p 4))
    × ((i : ℕ) → (4 ≤ i) ⊎ ((proc qs i).parent ≡ parent_of sample i))
make_tree_lem_example = make_tree_lem sample sample-IsUnlinked

mark_children_lem_run :
    (qs : List Proc) × (mark_children 9 linked 0 ≡ some qs)
    × SameButPrint linked qs
    × ((i : ℕ)
        → ((proc qs i).print ≡ true)
          ↔ (((proc linked i).print ≡ true) ⊎ ((i ≡ 0) ⊎ In i below_init)))
mark_children_lem_run =
    mark_children_lem 9 linked 0 below_init (omega arith) (omega arith)
      (omega arith, (omega arith, tt, tt), (omega arith, tt, tt))
      (refl, (refl, refl, refl), (refl, refl, refl))

-- The walks that the links of `linked` begin.
abbrev below : ℕ → List ℕ
below zero = 1 ∷ 3 ∷ []
below (suc zero) = 2 ∷ []
below (suc (suc i)) = []

abbrev after : ℕ → List ℕ
after (suc zero) = 3 ∷ []
after i = []

linked-Chain :
    (i : ℕ)
    → Chain linked (proc linked i).child (below i) × Chain linked (proc linked i).sister (after i)
linked-Chain zero = ((refl, (refl, refl)), refl)
linked-Chain (suc zero) = ((refl, refl), (refl, refl))
linked-Chain (suc (suc zero)) = (refl, refl)
linked-Chain (suc (suc (suc zero))) = (refl, refl)
linked-Chain (suc (suc (suc (suc i)))) = (refl, refl)

linked-short : (i : ℕ) → (length (below i) < 9) × (length (after i) < 9)
linked-short zero = omega arith
linked-short (suc zero) = omega arith
linked-short (suc (suc i)) = omega arith

drop_procs_lem_run :
    (qs : List Proc) × (drop_procs 9 true linked ≡ some qs)
    × (length qs ≡ 4)
    × ((i : ℕ) → proc qs i ≡ dropped true linked below after i)
drop_procs_lem_run = drop_procs_lem 9 true linked below after linked-Chain linked-short

drop_procs-Shows_example :
    (qs : List Proc) × (drop_procs 9 true linked ≡ some qs)
    × Shows qs (proc qs 0).child (prune linked below_init)
drop_procs-Shows_example =
    drop_procs-Shows 9 true linked below after linked-Chain linked-short 0 below_init refl
      (refl, (refl, refl, refl), (refl, refl, refl))

abbrev layout : Layout
layout = record { chars = tree_chars 0; noption = true; columns = 80; max_depth = 100 }

abbrev fresh : Printer
fresh = record { at_depth = 0; out = [] }

print_tree_lem_example :
    print_tree 9 layout linked fresh 0 []
    ≡ some (record { at_depth = 0; out = tree_rows layout linked 0 0 false below_init [] })
print_tree_lem_example =
    print_tree_lem 9 layout linked fresh 0 below_init [] (omega arith)
      (refl, (refl, refl, refl), (refl, refl, refl))

print_tree_Fits_run :
    (st : Printer) × (print_tree 9 layout linked fresh 0 [] ≡ some st)
    × (st.at_depth ≡ 0)
    × All (λ line. length line ≤ 80 - 1) st.out
print_tree_Fits_run =
    print_tree-Fits 9 layout linked fresh 0 below_init [] (omega arith)
      (refl, (refl, refl, refl), (refl, refl, refl)) tt

print_tree_count_run :
    (st : Printer) × (print_tree 9 layout linked fresh 0 [] ≡ some st) × (length st.out ≡ 0 + 4)
print_tree_count_run =
    print_tree-count 9 layout linked fresh 0 below_init [] (omega arith)
      (refl, (refl, refl, refl), (refl, refl, refl)) (omega arith) (refl, refl)
      ((refl, refl), ((refl, refl), tt, tt), ((refl, refl), tt, tt))

parse_options-IsValid_run : IsValid (record defaults { graph = 2; max_depth = 1 })
unfolding parse_options atoi
parse_options-IsValid_run =
    parse_options-IsValid (λ u. true) defaults (record defaults { graph = 2; max_depth = 1 })
      ((b'g', codes "2") ∷ (b'l', codes "-3") ∷ []) (omega arith) refl

columns_bounds_run : (1 ≤ columns defaults 0) × (columns defaults 0 < 8192)
columns_bounds_run = columns_bounds defaults 0

abbrev nobody : ℤ → Option Str
nobody uid = none

uid2user_lem_run :
    (((uid2user nobody [] (pos 7) 32).0 ≡ take 31 (ask_user nobody (pos 7)))
      ⊎ ((uid2user nobody [] (pos 7) 32).0 ≡ take 31 (take 8 (ask_user nobody (pos 7)))))
    × IsCache nobody (uid2user nobody [] (pos 7) 32).1
uid2user_lem_run = uid2user_lem nobody [] (pos 7) 32 (record { names = tt; room = omega arith })

-- A long name is cut off only from the second time on.
uid2user_twice :
    let long = λ (uid : ℤ). some (codes "administrator") in
    let (first, un) = uid2user long [] (pos 7) 32 in
    (first ≡ codes "administrator") × ((uid2user long un (pos 7) 32).0 ≡ codes "administ")
unfolding uid2user
uid2user_twice = (refl, refl)

get_processes_table_run :
    (◌≡◌ {A = Bool} true true) × (◌≡◌ {A = List Str} [] []) × (◌≡◌ {A = List Proc} [] [])
unfolding get_processes
get_processes_table_run = get_processes-table true (λ n. true) [] [] refl

abbrev shell : Stat
shell = record { pid = pos 10; comm = codes "sh"; ppid = pos 1; pgid = pos 10; uid = pos 7 }

abbrev globbed : List Entry
globbed =
    record { stat = none; cmdline = none }
    ∷ record { stat = some shell; cmdline = some [] }
    ∷ record { stat = some (record shell { pid = pos 1 }); cmdline = some (105 ∷ 0 ∷ []) }
    ∷ []
