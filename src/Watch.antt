-- ===== src/Watch.antt =====
-- The file watcher of hw6/1: the loop of main.c over the events of one read, and the two maps of
-- lib.cpp. `inotify_add_watch` is a parameter; `path_map_wd`, which nothing reads, is left out.
pub mod Decode
pub mod Moves
pub mod Walk
mod Tests
use nsysu_system_programming.Prelude.{
  ℕ, zero, suc, ◌+◌, ◌*◌, ◌/◌, ◌%◌, Bool, true, false, Option, none, some, List, [], ◌∷◌, ◌++◌,
  ◌==◌, length, get_or, take, drop, Str, codes, update, before_nul,
}

-- `struct inotify_event`, with the name up to its NUL.
pub record Event : Type 0 where
  pub wd : ℕ
  pub mask : ℕ
  pub cookie : ℕ
  pub len : ℕ
  pub name : Str

-- A 32-bit field of the buffer.
abbrev pub word_at : ℕ → Str → ℕ
word_at i buf =
    get_or buf i 0
    + 256 * (get_or buf (i + 1) 0 + 256 * (get_or buf (i + 2) 0 + 256 * get_or buf (i + 3) 0))

-- `e` at the front of the bytes.
unfoldable pub event_at : Str → Event
event_at buf = record {
  wd = word_at 0 buf;
  mask = word_at 4 buf;
  cookie = word_at 8 buf;
  len = word_at 12 buf;
  name = before_nul (take (word_at 12 buf) (drop 16 buf));
}

-- The events that the loop comes to, with at most `fuel` bytes left.
unfoldable pub events : ℕ → Str → List Event
unfolding event_at
events zero buf = []
events (suc fuel) [] = []
events (suc fuel) (b ∷ buf) =
    event_at (b ∷ buf) ∷ events fuel (drop (16 + (event_at (b ∷ buf)).len) (b ∷ buf))

-- `e->mask & flag`, for the flag that is this power of two.
abbrev pub has_bit : ℕ → ℕ → Bool
has_bit mask flag = (mask / flag) % 2 == 1

-- `wd_map_dir`, what was printed, and the two names of a move.
pub record State : Type 0 where
  pub dirs : ℕ → Str
  pub printed : Str
  pub fname : Option Str
  pub tname : Option Str

-- `concat`, of a directory and a name that are there.
abbrev pub concat : Str → Str → Str
concat dir name = dir ++ codes "/" ++ name

-- `%s`
abbrev pub shown : Option Str → Str
shown none = codes "(null)"
shown (some s) = s

module _ (watch : Str → ℕ) where
  -- `add_notify`, with `get_dir` and `add_watch_file` of lib.cpp.
  unfoldable pub add_notify : State → (path : Str) → (base : ℕ) → State
  add_notify s path base = record s { dirs = update s.dirs (watch path) (take (base + 3) path) }

  abbrev pub on_create : (dir : Str) → Event → State → State
  unfolding add_notify
  on_create dir e s =
      let s' = add_notify s (concat dir e.name) (length dir) in
      record s' {
        printed =
            s'.printed
            ++ codes "A new file '"
            ++ e.name
            ++ codes "' was created under '"
            ++ dir
            ++ codes "'\n";
      }

  abbrev pub on_delete : Event → State → State
  on_delete e s = record s {
    printed = s.printed ++ codes "A file '" ++ e.name ++ codes "' was deleted.\n";
  }

  abbrev pub on_moved_to : (dir : Str) → Event → State → State
  unfolding add_notify
  on_moved_to dir e s =
      let s' = add_notify s (concat dir e.name) (length dir) in
      record s' {
        tname = some (concat dir e.name);
        printed = s'.printed ++ codes "Move in to " ++ concat dir e.name ++ codes "\n";
      }

  abbrev pub on_moved_from : (dir : Str) → Event → State → State
  on_moved_from dir e s = record s {
    fname = some (concat dir e.name);
    printed = s.printed ++ codes "Move out from " ++ concat dir e.name ++ codes "\n";
  }

  abbrev pub on_move_self : State → State
  on_move_self s = record s {
    fname = none;
    tname = none;
    printed =
        s.printed
        ++ codes "The "
        ++ shown s.fname
        ++ codes " was renamed as "
        ++ shown s.tname
        ++ codes "\n";
  }

  abbrev pub when : Bool → (State → State) → State → State
  when true f s = f s
  when false f s = s

  -- The body of the loop.
  unfoldable pub handle : State → Event → State
  unfolding on_create on_moved_to
  handle s e =
      let dir = s.dirs e.wd in
      when (has_bit e.mask 2048) on_move_self (
        when (has_bit e.mask 64) (on_moved_from dir e) (
          when (has_bit e.mask 128) (on_moved_to dir e) (
            when (has_bit e.mask 512) (on_delete e)
              (when (has_bit e.mask 256) (on_create dir e) s))))

  unfoldable pub handle_all : State → List Event → State
  unfolding handle
  handle_all s [] = s
  handle_all s (e ∷ es) = handle_all (handle s e) es

  -- One round of `while (1)`, from what `read` put into the buffer.
  unfoldable pub on_read : (dirs : ℕ → Str) → (printed : Str) → (buf : Str) → State
  unfolding handle_all events
  on_read dirs printed buf =
      handle_all (record { dirs = dirs; printed = printed; fname = none; tname = none })
        (events (length buf) buf)
