-- ===== src/Copy.antt =====
-- The copying programs of hw1 over a store of files: hw1-1.c is `tee` and hw1-2.c is `cp`. Files that
-- are written to can be opened; what is written reaches the file when it is closed.
mod Tests
use nsysu_system_programming.Prelude.{
  ◌≡◌, sym, ap, ◌∙◌, Option, none, some, List, [], ◌∷◌, ◌++◌, append-nil, append_assoc,
  if◌then◌else◌, Str, codes, str_eq,
}
use nsysu_system_programming.Sm.{Files, put, content}

-- `while ((c = getc(in)) != EOF) putc(c, out);` on what is behind the bytes that `out` has.
unfoldable pub copy_chars : (out input : Str) → Str
copy_chars out [] = out
copy_chars out (c ∷ input) = copy_chars (out ++ (c ∷ [])) input

-- The second output of `tee`: the file, and what it begins with.
abbrev pub direction : Files → List Str → Option (Str × Str)
direction files (name ∷ a ∷ file ∷ []) =
    if str_eq a (codes "-a") then some (file, content (files file)) else none
direction files (name ∷ file ∷ []) = some (file, [])
direction files argv = none

abbrev pub tee_file : Files → (input : Str) → Option (Str × Str) → Files
unfolding copy_chars
tee_file files input none = files
tee_file files input (some (file, old)) = put files file (copy_chars old input)

-- The standard output of `tee`, and the files.
unfoldable pub tee : Files → List Str → (input : Str) → Str × Files
unfolding copy_chars tee_file
tee files argv input = (copy_chars [] input, tee_file files input (direction files argv))

pub data Copied : Type 0 where
  refused : Copied
  crashed : Files → Copied
  copied : Files → Copied

-- The output is empty from its `fopen` on, before the first byte of the input is read.
abbrev pub copy_file : Files → (out : Str) → Option Str → Copied
unfolding copy_chars
copy_file files out none = crashed (put files out [])
copy_file files out (some input) = copied (put files out (copy_chars [] input))

-- What the loop reads of the input: nothing if it is the output.
abbrev pub read_from : (in_name out : Str) → Option Str → Option Str
read_from in_name out none = none
read_from in_name out (some s) = some (if str_eq in_name out then [] else s)

unfoldable pub cp : Files → List Str → Copied
unfolding copy_file
cp files (name ∷ in_name ∷ out ∷ []) = copy_file files out (read_from in_name out (files in_name))
cp files argv = refused

copy_chars-append : (out input : Str) → copy_chars out input ≡ out ++ input
unfolding copy_chars
copy_chars-append out [] = sym (append-nil out)
copy_chars-append out (c ∷ input) =
    copy_chars-append (out ++ (c ∷ [])) input ∙ append_assoc out (c ∷ []) input

-- `tee -a` prints its input and appends it to the file, if there is one.
pub tee_lem :
    (files : Files) (name file input : Str)
    → tee files (name ∷ codes "-a" ∷ file ∷ []) input
      ≡ (input, put files file (content (files file) ++ input))
unfolding tee tee_file
tee_lem files name file input =
    ap (λ s. (s, put files file (copy_chars (content (files file)) input)))
      (copy_chars-append [] input)
    ∙ ap (λ s. (input, put files file s)) (copy_chars-append (content (files file)) input)

-- `cp` makes the second file a copy of the first one, and empties a file that is copied to itself.
pub cp_lem :
    (files : Files) (name in_name out s : Str)
    → files in_name ≡ some s
    → cp files (name ∷ in_name ∷ out ∷ [])
      ≡ copied (put files out (if str_eq in_name out then [] else s))
unfolding cp copy_file
cp_lem files name in_name out s h =
    ap (λ o. copy_file files out (read_from in_name out o)) h
    ∙ ap (λ t. copied (put files out t))
        (copy_chars-append [] (if str_eq in_name out then [] else s))
