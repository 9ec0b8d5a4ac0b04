-- ===== src/Popen/Command.antt =====
-- hw5/2/fmtcmd.cpp, and the functions of hw5/2/driver.c that read what a command prints and write what
-- it reads.
use native.Mathlib.Decide.{dec_lt}
use nsysu_system_programming.Prelude.{
  ltb, if◌then◌else◌, if_true, if_false, true, false, ℕ, suc, ◌*◌, ◌≤◌, ◌<◌, ◌≡◌, refl, sym, ap,
  ◌∙◌, Option, none, some, List, [], ◌∷◌, ◌++◌, append-nil, append_assoc, arith, length, take,
  length-append, Str, codes, take-all,
}
use nsysu_system_programming.Popen.Pages.{read_loop, read_loop_from}

abbrev pub page_size : ℕ
page_size = 4096

-- `format_cmd` for a token that is not `NULL`; `none` where `strncat` writes past the end of `__cmd`.
unfoldable pub format_cmd : Str → Str → Option Str
format_cmd cmd tok =
    let out = cmd ++ (codes " " ++ (tok ++ codes " ")) in
    if ltb (length out) page_size then some out else none

abbrev pub and_then : (Str → Option Str) → Option Str → Option Str
and_then f none = none
and_then f (some cmd) = f cmd

-- The rounds of the `do` loop.
unfoldable pub format_all : Str → List Str → Option Str
unfolding format_cmd
format_all cmd [] = some cmd
format_all cmd (tok ∷ toks) = and_then (λ out. format_all out toks) (format_cmd cmd tok)

-- `__cmd` behind the loop, for the arguments before the first `NULL`. Where the first one is `NULL`,
-- `va_arg` goes past the arguments, which is undefined: `none`.
unfoldable pub command_line : Str → List Str → Option Str
unfolding format_all
command_line cmd [] = none
command_line cmd (tok ∷ toks) = format_all cmd (tok ∷ toks)

abbrev pub with_command {ℓ} : {A : Type ℓ} → A → Option Str → Option (Str × A)
with_command a none = none
with_command a (some cmd) = some (cmd, a)

-- `read_##cmd`: the command that it opens and, for what the command prints, its own output and `buf`
-- for the next call. `none` where the behaviour is undefined.
unfoldable pub read_command :
    Str → List Str → (printed buf : Str) → Option (Str × Option (Str × Str))
unfolding command_line read_loop
read_command cmd args printed buf =
    with_command (read_loop page_size (suc (length printed)) printed buf) (command_line cmd args)

-- Each argument between spaces.
abbrev pub spaced : List Str → Str
spaced [] = []
spaced (tok ∷ toks) = codes " " ++ (tok ++ (codes " " ++ spaced toks))

one_more :
    (cmd tok : Str) (toks : List Str)
    → (cmd ++ (codes " " ++ (tok ++ codes " "))) ++ spaced toks ≡ cmd ++ spaced (tok ∷ toks)
one_more cmd tok toks =
    append_assoc cmd (codes " " ++ (tok ++ codes " ")) (spaced toks)
    ∙ ap (λ t. cmd ++ (codes " " ++ t)) (append_assoc tok (codes " ") (spaced toks))

format_all-fits :
    (cmd : Str) (toks : List Str)
    → length (cmd ++ spaced toks) < page_size
    → format_all cmd toks ≡ some (cmd ++ spaced toks)
unfolding format_all format_cmd
format_all-fits cmd [] h = ap some (sym (append-nil cmd))
format_all-fits cmd (tok ∷ toks) h =
    let out = cmd ++ (codes " " ++ (tok ++ codes " ")) in
    let same = one_more cmd tok toks in
    let sizes = ap length same in
    let within : length (out ++ spaced toks) < page_size = omega (arith, sizes, h) in
    let fits : length out < page_size = omega (arith, within, length-append out (spaced toks)) in
    let small : ltb (length out) page_size ≡ true = ground (arith, fits) in
    ap (and_then (λ o. format_all o toks)) (if_true none small)
    ∙ format_all-fits out toks within
    ∙ ap some same

format_all-full :
    (cmd : Str) (toks : List Str)
    → length cmd < page_size
    → page_size ≤ length (cmd ++ spaced toks)
    → format_all cmd toks ≡ none
unfolding format_all format_cmd
format_all-full cmd [] h full = absurd (omega (arith, h, full, ap length (append-nil cmd)))
format_all-full cmd (tok ∷ toks) h full =
    let out = cmd ++ (codes " " ++ (tok ++ codes " ")) in
    let sizes = ap length (one_more cmd tok toks) in
    let beyond : page_size ≤ length (out ++ spaced toks) = omega (arith, sizes, full) in
    elim (dec_lt (length out) page_size) [
      | yes fits ↦
          let small : ltb (length out) page_size ≡ true = ground (arith, fits) in
          ap (and_then (λ o. format_all o toks)) (if_true none small)
          ∙ format_all-full out toks fits beyond
      | no over ↦
          let large : ltb (length out) page_size ≡ false = ground (arith, over) in
          ap (and_then (λ o. format_all o toks)) (if_false (some out) large)
    ]

-- The command is `cmd` followed by each argument between spaces, where that and its NUL fit in a page,
-- and all that it prints is printed, but in whole pages: less than a page of other bytes follows it.
-- Where they do not fit, and where there is no argument, the behaviour is undefined.
pub read_command_lem :
    (cmd first : Str) (args : List Str) (printed buf : Str)
    → length cmd < page_size
    → length buf ≡ page_size
    → (length (cmd ++ spaced (first ∷ args)) < page_size
        → (filling : Str) × (pages : ℕ) × (next : Str) × (read_command cmd
              (first ∷ args)
              printed
              buf
            ≡ some (cmd ++ spaced (first ∷ args), some (printed ++ filling, next)))
          × (length filling < page_size)
          × (length (printed ++ filling) ≡ pages * page_size)
          × (length next ≡ page_size))
      × (page_size ≤ length (cmd ++ spaced (first ∷ args))
          → read_command cmd (first ∷ args) printed buf ≡ none)
      × (read_command cmd [] printed buf ≡ none)
unfolding read_command command_line
read_command_lem cmd first args printed buf room h =
    let r =
      read_loop_from page_size (suc (length printed)) printed buf (omega arith) h (omega arith) in
    let out = read_loop page_size (suc (length printed)) printed buf in
    (
      λ fits. (
        r.2.filling,
        r.2.pages,
        r.0.1,
        ap (with_command out) (format_all-fits cmd (first ∷ args) fits)
            ∙ ap (λ o. some (cmd ++ spaced (first ∷ args), o)) r.1
            ∙ ap (λ t. some (cmd ++ spaced (first ∷ args), some (t, r.0.1))) r.2.text,
        r.2.rest_of_page,
        ap length (sym r.2.text) ∙ r.2.whole,
        r.2.page,
      ),
      λ full. ap (with_command out) (format_all-full cmd (first ∷ args) room full),
      refl,
    )

-- `write_##cmd`: the command, and what is written to it of the `len` bytes at `buf`.
unfoldable pub write_command : Str → List Str → (buf : Str) → (len : ℕ) → Option (Str × Str)
unfolding command_line
write_command cmd args buf len = with_command (take len buf) (command_line cmd args)

-- `sizeof(ctx)` of a text counts the NUL behind it, so that is written too.
pub write_command_lem :
    (cmd first text : Str) (args : List Str)
    → length (cmd ++ spaced (first ∷ args)) < page_size
    → write_command cmd (first ∷ args) (text ++ (0 ∷ [])) (suc (length text))
      ≡ some (cmd ++ spaced (first ∷ args), text ++ (0 ∷ []))
unfolding write_command command_line
write_command_lem cmd first text args fits =
    ap (with_command (take (suc (length text)) (text ++ (0 ∷ []))))
      (format_all-fits cmd (first ∷ args) fits)
    ∙ ap (λ t. some (cmd ++ spaced (first ∷ args), t))
        (take-all (suc (length text)) (text ++ (0 ∷ []))
          (omega (arith, length-append text (0 ∷ []))))
