-- ===== src/Watch/Walk.antt =====
-- The start of hw6/1/main.c: the options, the walk of `nftw`, which is given by the paths that it comes
-- to with their bases, and what `display_inotify_event` prints with __DEBUG__.
use nsysu_system_programming.Prelude.{
  ℕ, suc, ◌+◌, ◌≡◌, refl, sym, ap, ◌∙◌, ◌≢◌, Bool, false, not, ◌||◌, Option, none, some, List, [],
  ◌∷◌, ◌++◌, arith, ◌==◌, if◌then◌else◌, ==_self, ==-false, length, take, All, if_true, if_false,
  Str, codes, if_true, if_false,
}
use nsysu_system_programming.Watch.{Event, State, concat, has_bit, add_notify, on_read}
use nsysu_system_programming.Watch.Decode.{encode_all, IsEvent}
use nsysu_system_programming.Watch.Moves.{create_events, create_lem}

-- `FTW_PHYS` and `FTW_DEPTH`
pub record Flags : Type 0 where
  pub is_physical : Bool
  pub is_depth : Bool

-- `strchr(s, c) != NULL`
abbrev pub has_char : ℕ → Str → Bool
has_char c [] = false
has_char c (b ∷ s) = (b == c) || has_char c s

abbrev pub flags_of : Str → Flags
flags_of s = record { is_physical = not (has_char 112 s); is_depth = has_char 100 s }

-- The path and the flags of `nftw`, from the arguments.
unfoldable pub options : List Str → Str × Flags
options [] = (codes ".", flags_of [])
options (path ∷ []) = (path, flags_of [])
options (path ∷ letters ∷ more) = (path, flags_of letters)

-- The text of a flag that is set.
abbrev pub mark : ℕ → ℕ → Str → Str
mark mask flag text = if has_bit mask flag then text else []

-- `display_inotify_event`. For IN_IGNORED and IN_UNMOUNT it hands the descriptor to a function that
-- takes a path: `none` is that undefined behaviour.
unfoldable pub display : Event → Option Str
display e =
    if has_bit e.mask 32768 || has_bit e.mask 8192
    then none
    else some (
        codes "mask = "
        ++ mark e.mask 1 (codes "IN_ACCESS ")
        ++ mark e.mask 4 (codes "IN_ATTRIB ")
        ++ mark e.mask 16 (codes "IN_CLOSE_NOWRITE ")
        ++ mark e.mask 8 (codes "IN_CLOSE_WRITE ")
        ++ mark e.mask 256 (codes "IN_CREATE ")
        ++ mark e.mask 512 (codes "IN_DELETE ")
        ++ mark e.mask 1024 (codes "IN_DELETE_SELF ")
        ++ mark e.mask 1073741824 (codes "IN_ISDIR ")
        ++ mark e.mask 2 (codes "IN_MODIFY ")
        ++ mark e.mask 2048 (codes "IN_MOVE_SELF ")
        ++ mark e.mask 64 (codes "IN_MOVED_FROM ")
        ++ mark e.mask 128 (codes "IN_MOVED_TO ")
        ++ mark e.mask 32 (codes "IN_OPEN ")
        ++ mark e.mask 16384 (codes "IN_Q_OVERFLOW ")
        ++ codes " name = "
        ++ e.name
        ++ codes "\n")

module _ (watch : Str → ℕ) where
  -- `__add_watch_file` for each path that `nftw` comes to.
  unfoldable pub walk : List (Str × ℕ) → State → State
  walk [] s = s
  walk ((path, base) ∷ more) s = walk more (add_notify watch s path base)

  -- A path whose watch no path behind it takes over keeps its directory.
  walk_keeps :
      (more : List (Str × ℕ)) (wd : ℕ) (s : State)
      → All (λ (v : Str × ℕ). watch v.0 ≢ wd) more
      → (walk more s).dirs wd ≡ s.dirs wd
  unfolding walk add_notify
  walk_keeps [] wd s h = refl
  walk_keeps ((path, base) ∷ more) wd s h =
      walk_keeps more wd (add_notify watch s path base) h.1
      ∙ if_false (take (base + 3) path) (==-false wd (watch path) (λ e. h.0 (sym e)))

  walk-visited :
      (before more : List (Str × ℕ)) (path : Str) (base : ℕ) (s : State)
      → All (λ (v : Str × ℕ). watch v.0 ≢ watch path) more
      → (walk (before ++ ((path, base) ∷ more)) s).dirs (watch path) ≡ take (base + 3) path
  unfolding walk add_notify
  walk-visited [] more path base s h =
      walk_keeps more (watch path) (add_notify watch s path base) h
      ∙ if_true (s.dirs (watch path)) (==_self (watch path))
  walk-visited ((p, b) ∷ before) more path base s h =
      walk-visited before more path base (add_notify watch s p b) h

take-concat :
    (dir name : Str) (k : ℕ)
    → take (length dir + suc k) (concat dir name) ≡ concat dir (take k name)
take-concat [] name k = let same : 0 + suc k ≡ suc k = omega arith in rw same refl
take-concat (c ∷ dir) name k =
    let far : suc (length dir) + suc k ≡ suc (length dir + suc k) = omega arith in
    rw far (ap (λ (zs : Str). c ∷ zs) (take-concat dir name k))

-- A file that is created in a directory that the walk came to, and whose watch no later one takes over,
-- is told with its name; but of the name of the directory only the first three bytes are known.
pub walk-create :
    (watch : Str → ℕ) (before more : List (Str × ℕ)) (parent name file : Str) (len : ℕ) (s : State)
    → All (λ (v : Str × ℕ). watch v.0 ≢ watch (concat parent name)) more
    → All IsEvent (create_events (watch (concat parent name)) len file)
    → let t = walk watch (before ++ ((concat parent name, suc (length parent)) ∷ more)) s in
      (on_read watch t.dirs t.printed
        (encode_all (create_events (watch (concat parent name)) len file))).printed
      ≡ t.printed
        ++ codes "A new file '"
        ++ file
        ++ codes "' was created under '"
        ++ concat parent (take 3 name)
        ++ codes "'\n"
walk-create watch before more parent name file len s h fine =
    let path = concat parent name in
    let t = walk watch (before ++ ((path, suc (length parent)) ∷ more)) s in
    let base : suc (length parent) + 3 ≡ length parent + suc 3 = omega arith in
    (create_lem watch t.dirs t.printed (watch path) len file fine).0
    ∙ ap
        (λ dir.
          t.printed
          ++ codes "A new file '"
          ++ file
          ++ codes "' was created under '"
          ++ dir
          ++ codes "'\n")
        (walk-visited watch before more path (suc (length parent)) s h
          ∙ ap (λ n. take n path) base
          ∙ take-concat parent name 3)
