-- ===== src/Sm.antt =====
-- A file as a shared mapping and the program that copies one: hw9/49-1/SM.c and main.c, which test/2
-- has too. The files are a store by name; a mapping is shared with the file, so what is written to it
-- is written to the file. `open` with the flags of main.c, `mmap` and `ftruncate` do not fail where
-- the file is there or is created.
pub mod Copied
mod Tests
use nsysu_system_programming.Prelude.{
  ℕ, Bool, true, false, not, Option, none, some, List, [], ◌∷◌, ◌++◌, ◌==◌, if◌then◌else◌, length,
  take, drop, replicate, Str, str_eq,
}

abbrev pub Files : Type 0
Files = Str → Option Str

abbrev pub put : Files → Str → Str → Files
put files name s other = if str_eq other name then some s else files other

-- `struct SM`: the descriptor, by the name of its file, the length, and whether `ptr` is a mapping.
pub record Sm : Type 0 where
  pub fd : Str
  pub len : ℕ
  pub ptr : Bool

-- `open` with or without O_CREAT.
abbrev pub open_file : Files → Str → (creates : Bool) → Option Files
open_file files name creates = elim (files name) [
  | none ↦ if creates then some (put files name []) else none
  | some s ↦ some files
]

abbrev pub content : Option Str → Str
content none = []
content (some s) = s

abbrev pub size : Files → Str → ℕ
size files name = length (content (files name))

-- `none` is the exit of `handle_error`.
abbrev pub mapped : Str → Option Files → Option (Sm × Files)
mapped name none = none
mapped name (some files) =
    some (record { fd = name; len = size files name; ptr = not (size files name == 0) }, files)

unfoldable pub new_sm : Files → Str → (creates : Bool) → Option (Sm × Files)
new_sm files name creates = mapped name (open_file files name creates)

-- `ftruncate`
abbrev pub resized : ℕ → Str → Str
resized n s = take n (s ++ replicate n 0)

unfoldable pub set_len : Files → Sm → ℕ → Sm × Files
set_len files sm s =
    (record sm { len = s; ptr = not (s == 0) }, put files sm.fd (resized s (content (files sm.fd))))

-- The descriptors that stay open behind a `delete_sm`.
unfoldable pub delete_sm : Sm → List Str
delete_sm sm = if sm.ptr then [] else sm.fd ∷ []

-- `memcpy(dst->ptr, src->ptr, n)` between two mappings of at least `n` bytes.
abbrev pub copy_bytes : Files → (dst src : Str) → ℕ → Files
copy_bytes files dst src n =
    put files dst (take n (content (files src)) ++ drop n (content (files dst)))

-- The files and the descriptors that are left open.
abbrev pub finish : Sm → Sm → Files → Files × List Str
finish src dst files = (copy_bytes files dst.fd src.fd src.len, delete_sm src ++ delete_sm dst)

abbrev pub with_dst : Sm → Option (Sm × Files) → Option (Files × List Str)
unfolding set_len
with_dst src none = none
with_dst src (some (dst, files)) =
    let (dst', files') = set_len files dst src.len in some (finish src dst' files')

abbrev pub with_src : Str → Option (Sm × Files) → Option (Files × List Str)
unfolding new_sm with_dst
with_src name none = none
with_src name (some (src, files)) = with_dst src (new_sm files name true)

-- `main` with two arguments.
unfoldable pub copy_main : Files → (src dst : Str) → Option (Files × List Str)
unfolding new_sm with_src
copy_main files src dst = with_src dst (new_sm files src false)
