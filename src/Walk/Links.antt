-- ===== src/Walk/Links.antt =====
-- What hw3/part3.c prints of the open files of all processes.
use nsysu_system_programming.Prelude.{
  ◌<◌, ◌≡◌, refl, ap, ◌∙◌, inl, inr, true, Option, none, some, List, [], ◌∷◌, ◌++◌, arith,
  Bool-cases, length, take, All, All-imp, if_true, Str, codes, All-imp, if_true,
}
use nsysu_system_programming.Walk.{
  is_numeric, append, link_line, links_loop, links_of, show_fd_link, show_links,
}
use nsysu_system_programming.Walk.Numbers.{listing, walk-listing}

-- The path of a descriptor, as far as `snprintf` writes it.
abbrev pub fd_path : (filename fd : Str) → Str
fd_path filename fd = take 511 (filename ++ codes "/" ++ fd)

-- The line of a path, if it is a link.
abbrev pub link_text : (path : Str) → Option Str → Str
link_text path none = []
link_text path (some target) = path ++ codes " -> " ++ target ++ codes "\n"

-- The lines of a directory, if it can be opened.
abbrev pub dir_text : (readlink : Str → Option Str) → (filename : Str) → Option (List Str) → Str
dir_text readlink filename none = []
dir_text readlink filename (some fds) =
    listing (λ fd. link_text (fd_path filename fd) (readlink (fd_path filename fd))) fds

-- A target leaves room for its NUL.
abbrev pub Fits : Option Str → Type 0
Fits none = Unit
Fits (some target) = length target < 256

-- All targets of a directory do.
abbrev pub DirFits : (readlink : Str → Option Str) → (filename : Str) → Option (List Str) → Type 0
DirFits readlink filename none = Unit
DirFits readlink filename (some fds) = All (λ fd. Fits (readlink (fd_path filename fd))) fds

link_line-text : (path : Str) (o : Option Str) → Fits o → link_line path o ≡ some (link_text path o)
link_line-text path none h = refl
link_line-text path (some target) h = if_true none (ground (arith, h))

links_loop-listing :
    (readlink : Str → Option Str) (filename : Str) (fds : List Str)
    → All (λ fd. Fits (readlink (fd_path filename fd))) fds
    → links_loop readlink filename fds ≡ some (dir_text readlink filename (some fds))
unfolding links_loop
links_loop-listing readlink filename [] h = refl
links_loop-listing readlink filename (fd ∷ fds) h = elim (Bool-cases (is_numeric fd)) [
  | inl e ↦ rw e (
      ap (λ o. append o (links_loop readlink filename fds)) (link_line-text _ _ h.0)
      ∙ ap (append (some _)) (links_loop-listing readlink filename fds h.1))
  | inr e ↦ rw e (links_loop-listing readlink filename fds h.1)
]

links_of-text :
    (readlink : Str → Option Str) (filename : Str) (o : Option (List Str))
    → DirFits readlink filename o
    → links_of readlink filename o ≡ some (dir_text readlink filename o)
unfolding links_of
links_of-text readlink filename none h = refl
links_of-text readlink filename (some fds) h = links_loop-listing readlink filename fds h

abbrev pub fd_dir : Str → Str
fd_dir pid = codes "/proc/" ++ pid ++ codes "/fd"

-- If the target of every link of a process's directory has fewer than 256 bytes, part3.c prints the
-- path and the target of each, by process and by descriptor, and passes over the directories that it
-- cannot open and the descriptors that are no links.
pub show_links_lem :
    (opendir : Str → Option (List Str)) (readlink : Str → Option Str) (pids : List Str)
    → All (λ pid. is_numeric pid ≡ true → DirFits readlink (fd_dir pid) (opendir (fd_dir pid))) pids
    → show_links opendir readlink pids
      ≡ some (listing (λ pid. dir_text readlink (fd_dir pid) (opendir (fd_dir pid))) pids)
unfolding show_links show_fd_link
show_links_lem opendir readlink pids h = walk-listing (show_fd_link opendir readlink) _ pids (
    All-imp _ _ pids
      (λ pid k numeric. links_of-text readlink (fd_dir pid) (opendir (fd_dir pid)) (k numeric)) h)
