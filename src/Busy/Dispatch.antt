-- ===== src/Busy/Dispatch.antt =====
-- Which command hw4/part1/main.c runs.
use nsysu_system_programming.Prelude.{
  ◌≡◌, refl, sym, ap, ◌∙◌, inl, inr, false, some, [], ◌∷◌, ◌++◌, append-nil, append_assoc, ◌==◌,
  Bool-cases, All, Str, codes,
}
use nsysu_system_programming.Shell.Builtin.{find_keyword}
use nsysu_system_programming.Busy.{
  Command, hostinfo, mydate, printdir, pipe_ls, mycat, busybox, table, last_part, basename, do_it,
  run_found, do_busybox, main, copy_loop,
}

last_part-append : (dir cur name : Str) → last_part cur (dir ++ (b'/' ∷ name)) ≡ last_part [] name
last_part-append [] cur name = refl
last_part-append (c ∷ dir) cur name = elim (Bool-cases (c == b'/')) [
  | inl e ↦ rw e (last_part-append dir [] name)
  | inr e ↦ rw e (last_part-append dir (cur ++ (c ∷ [])) name)
]

last_part_whole :
    (name cur : Str) → All (λ c. (c == b'/') ≡ false) name → last_part cur name ≡ cur ++ name
last_part_whole [] cur h = sym (append-nil cur)
last_part_whole (c ∷ name) cur h =
    rw h.0 (last_part_whole name (cur ++ (c ∷ [])) h.1 ∙ append_assoc cur (c ∷ []) name)

-- The name of each command.
abbrev pub name_of : Command → Str
name_of hostinfo = codes "hostinfo"
name_of mydate = codes "mydate"
name_of printdir = codes "printdir"
name_of pipe_ls = codes "pipe_ls"
name_of mycat = codes "mycat"
name_of busybox = codes "busybox"

name_plain : (command : Command) → All (λ c. (c == b'/') ≡ false) (name_of command)
name_plain hostinfo = (refl, (refl, (refl, (refl, (refl, (refl, (refl, (refl, tt))))))))
name_plain mydate = (refl, (refl, (refl, (refl, (refl, (refl, tt))))))
name_plain printdir = (refl, (refl, (refl, (refl, (refl, (refl, (refl, (refl, tt))))))))
name_plain pipe_ls = (refl, (refl, (refl, (refl, (refl, (refl, (refl, tt)))))))
name_plain mycat = (refl, (refl, (refl, (refl, (refl, tt)))))
name_plain busybox = (refl, (refl, (refl, (refl, (refl, (refl, (refl, tt)))))))

find_keyword-name : (command : Command) → find_keyword table (name_of command) ≡ some command
find_keyword-name hostinfo = refl
find_keyword-name mydate = refl
find_keyword-name printdir = refl
find_keyword-name pipe_ls = refl
find_keyword-name mycat = refl
find_keyword-name busybox = refl

-- Called by the name of a command, in whatever directory, the program does what that command is for.
pub main_lem :
    (cwd dir : Str) (command : Command)
    → main cwd ((dir ++ (b'/' ∷ name_of command)) ∷ []) ≡ some (do_it cwd command)
unfolding main do_busybox basename
main_lem cwd dir command =
    let base : basename (dir ++ (b'/' ∷ name_of command)) ≡ name_of command =
      last_part-append dir [] (name_of command)
      ∙ last_part_whole (name_of command) [] (name_plain command) in
    ap (run_found cwd) (ap (find_keyword table) base ∙ find_keyword-name command)

-- The loop of `pipe_ls` copies all that the child writes.
pub copy_loop_lem : (output input : Str) → copy_loop output input ≡ output ++ input
unfolding copy_loop
copy_loop_lem output [] = sym (append-nil output)
copy_loop_lem output (c ∷ input) =
    copy_loop_lem (output ++ (c ∷ [])) input ∙ append_assoc output (c ∷ []) input
