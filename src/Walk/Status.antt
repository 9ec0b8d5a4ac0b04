-- ===== src/Walk/Status.antt =====
-- What hw3/part1.c prints of the processes of a user.
use nsysu_system_programming.Prelude.{
  ℕ, ◌<◌, ◌≡◌, refl, ap, ◌∙◌, inl, inr, true, Option, none, some, List, [], ◌∷◌, ◌++◌, append-nil,
  append_assoc, arith, ltb, ◌==◌, if◌then◌else◌, Bool-cases, length, get_elem?, All, All-imp,
  if_true, Str, codes, decimal_ℤ, All-imp, if_true, atoi,
}
use nsysu_system_programming.Shell.Strtok.{tokens}
use nsysu_system_programming.Shell.Args.{is_delim}
use nsysu_system_programming.Walk.{
  is_numeric, uid_t, user_id_from_name, append, uid_line, status_loop, printed_of, show_name_id,
  show_processes,
}
use nsysu_system_programming.Walk.Numbers.{listing, walk-listing}

-- A status file: the line of the name, seven lines, the line of the user ids, and what follows.
pub record StatusFile : Type 0 where
  pub name_line : Str
  pub line2 : Str
  pub line3 : Str
  pub line4 : Str
  pub line5 : Str
  pub line6 : Str
  pub line7 : Str
  pub line8 : Str
  pub ids_line : Str
  pub following : List Str

abbrev pub lines_of : StatusFile → List Str
lines_of f =
    f.name_line ∷ f.line2 ∷ f.line3 ∷ f.line4 ∷ f.line5 ∷ f.line6 ∷ f.line7 ∷ f.line8 ∷ f.ids_line
    ∷ f.following

-- The third word of the line of the user ids is `word`, and the line of the name fits into the block.
pub record IsStatus (word : Str) (f : StatusFile) : Type 0 where
  pub third : get_elem? (tokens is_delim [] f.ids_line) 2 ≡ some word
  pub fits : length f.name_line < 256

-- What is printed of a process whose third word is this, if its user is wanted.
unfoldable pub entry : (wanted : ℕ) → (word : Str) → StatusFile → Str
unfolding atoi decimal_ℤ
entry wanted word f =
    if uid_t (atoi word) == wanted
    then f.name_line ++ codes "Uid:\t" ++ decimal_ℤ (atoi word) ++ codes "\n"
    else []

uid_line-entry :
    (wanted : ℕ) (word : Str) (f : StatusFile)
    → IsStatus word f
    → uid_line wanted f.name_line f.ids_line ≡ some (entry wanted word f)
unfolding uid_line entry
uid_line-entry wanted word f h =
    rw (h.third, uid_line)
      (elim (Bool-cases (uid_t (atoi word) == wanted)) [ inl e ↦ rw e refl | inr e ↦ rw e refl ])

status_loop_end :
    (wanted : ℕ) (buf : Str) (lines : List Str) → status_loop wanted 9 buf lines ≡ some []
unfolding status_loop
status_loop_end wanted buf [] = refl
status_loop_end wanted buf (line ∷ lines) = refl

-- One status file: the loop takes its first and its ninth line and stops behind that.
status_loop-file :
    (wanted : ℕ) (word : Str) (f : StatusFile)
    → IsStatus word f
    → status_loop wanted 0 [] (lines_of f) ≡ some (entry wanted word f)
unfolding status_loop
status_loop-file wanted word f h =
    let room : ltb (length f.name_line) 256 ≡ true = ground (arith, h.fits) in
    if_true none room
    ∙ (ap (append (uid_line wanted f.name_line f.ids_line))
          (status_loop_end wanted f.name_line f.following)
        ∙ ap (λ o. append o (some [])) (uid_line-entry wanted word f h)
        ∙ ap some (append-nil (entry wanted word f)))

-- If the status file of each process can be opened and is one, part1.c prints of the processes of the
-- user, in the order of their names in /proc, the line of the name and the third number of the line of
-- the user ids, and nothing of the others.
pub show_processes_lem :
    (fopen : Str → Option (List Str)) (getpwnam : Str → Option ℕ) (uname : Str)
    (file : Str → StatusFile) (word : Str → Str) (names : List Str)
    → All
        (λ name.
          is_numeric name ≡ true
          → (fopen (codes "/proc/" ++ name ++ codes "/status") ≡ some (lines_of (file name)))
            × IsStatus (word name) (file name))
        names
    → show_processes fopen getpwnam uname names
      ≡ some (
          listing
            (λ name. entry (user_id_from_name getpwnam (some uname)) (word name) (file name))
            names)
unfolding show_processes show_name_id printed_of status_loop
show_processes_lem fopen getpwnam uname file word names h =
    let wanted = user_id_from_name getpwnam (some uname) in
    walk-listing (show_name_id fopen wanted) (λ name. entry wanted (word name) (file name)) names
      (All-imp _ _ names
        (λ name k numeric.
          let (opened, good) = k numeric in
          ap (printed_of wanted)
            (ap fopen (append_assoc (codes "/proc/") name (codes "/status")) ∙ opened)
          ∙ status_loop-file wanted (word name) (file name) good)
        h)
