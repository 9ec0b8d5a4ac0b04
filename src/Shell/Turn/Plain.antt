-- ===== src/Shell/Turn/Plain.antt =====
-- A line of plain words through the whole of hw4/part2: read, split, and started.
use mathlib.Core.Path.{subst}
use nsysu_system_programming.Prelude.{
  ℕ, ◌<◌, ◌≡◌, refl, sym, ap, ◌∙◌, ◌≢◌, Bool, true, false, not, ◌&&◌, ◌||◌, none, some, List, [],
  ◌∷◌, ◌++◌, arith, leb, ◌==◌, length, replicate, All, All-append, All-imp, Str, All-imp,
  All-replicate, before_nul,
}
use nsysu_system_programming.Prelude.{is_space}
use nsysu_system_programming.Shell.Strtok.Join.{join}
use nsysu_system_programming.Shell.Redirect.{redirect, redirect_to}
use nsysu_system_programming.Shell.Redirect.Loops.{
  array, locate, locate-later, bump, find_symbol-array, length-array,
}
use nsysu_system_programming.Shell.Args.{arg_list, fits, until_ampersand}
use nsysu_system_programming.Shell.Args.Words.{IsWord, spaces, arg_list-join, get_args-join}
use nsysu_system_programming.Shell.Turn.{ends_line, read_line, string_of, input_string, has_byte}

-- A byte that can be seen and means nothing to the shell.
abbrev pub is_plain : ℕ → Bool
is_plain c = leb 33 c && leb c 126 && not ((c == b'|') || (c == b'&') || (c == b'<') || (c == b'>'))

pub record IsPlain (w : Str) : Type 0 where
  pub some_byte : w ≢ []
  pub solid : All (λ c. is_plain c ≡ true) w

-- A byte of a line of such words: one that can be seen, or a space, but no ampersand.
abbrev pub is_text : ℕ → Bool
is_text c = leb 32 c && leb c 126 && not (c == b'&')

-- A command's words with `k` spaces in front and `n + 1` between them.
abbrev pub command_text : (k n : ℕ) → Str × List Str → Str
command_text k n (w, ws) = replicate k 32 ++ join (spaces n) (w ∷ ws)

abbrev pub words : Str × List Str → List Str
words (w, ws) = w ∷ ws

pub read_line-append :
    (line rest : Str)
    → All (λ c. is_text c ≡ true) line
    → read_line (line ++ (10 ∷ rest)) ≡ (line, rest)
unfolding read_line
read_line-append [] rest h = refl
read_line-append (c ∷ line) rest h =
    let inside : ends_line c ≡ false = ground (arith, h.0) in
    rw inside (rw (read_line-append line rest h.1) refl)

pub before_nul-text : (line : Str) → All (λ c. is_text c ≡ true) line → before_nul line ≡ line
before_nul-text [] h = refl
before_nul-text (c ∷ line) h =
    let inside : (c == 0) ≡ false = ground (arith, h.0) in
    rw inside (ap (λ zs. c ∷ zs) (before_nul-text line h.1))

pub input_string-append :
    (line rest : Str)
    → line ≢ []
    → All (λ c. is_text c ≡ true) line
    → input_string (line ++ (10 ∷ rest)) ≡ (some line, rest)
unfolding input_string
input_string-append [] rest full h = absurd (full refl)
input_string-append (c ∷ line) rest full h =
    ap (λ r. (string_of (before_nul r.0), r.1)) (read_line-append (c ∷ line) rest h)
    ∙ ap (λ zs. (string_of zs, rest)) (before_nul-text (c ∷ line) h)

pub join_nonempty : (sep w : Str) (ws : List Str) → w ≢ [] → join sep (w ∷ ws) ≢ []
join_nonempty sep w [] h e = h e
join_nonempty sep [] (v ∷ ws) h e = h refl
join_nonempty sep (c ∷ w) (v ∷ ws) h e = ground arith

pub append_nonempty : (xs ys : Str) → ys ≢ [] → xs ++ ys ≢ []
append_nonempty [] ys h e = h e
append_nonempty (x ∷ xs) ys h e = ground arith

pub has_byte-text : (line : Str) → All (λ c. is_text c ≡ true) line → has_byte b'&' line ≡ false
has_byte-text [] h = refl
has_byte-text (c ∷ line) h =
    let other : (c == b'&') ≡ false = ground (arith, h.0) in rw other (has_byte-text line h.1)

pub All-join :
    (P : ℕ → Type 0) (sep : Str) (ws : List Str) → All P sep → All (All P) ws → All P (join sep ws)
All-join P sep [] hsep h = tt
All-join P sep (w ∷ []) hsep h = h.0
All-join P sep (w ∷ v ∷ ws) hsep h =
    All-append P w _ h.0 (All-append P sep _ hsep (All-join P sep (v ∷ ws) hsep h.1))

-- What holds of a space and of every plain byte holds of a command's text.
pub All-command_text :
    (f : ℕ → Bool) (b : Bool) (k n : ℕ) (command : Str × List Str)
    → f 32 ≡ b
    → ((c : ℕ) → is_plain c ≡ true → f c ≡ b)
    → All IsPlain (words command)
    → All (λ c. f c ≡ b) (command_text k n command)
All-command_text f b k n (w, ws) space plain h =
    All-append (λ c. f c ≡ b) (replicate k 32) _ (All-replicate k 32 b f space)
      (All-join (λ c. f c ≡ b) (spaces n) (w ∷ ws) (space, All-replicate n 32 b f space)
        (All-imp IsPlain (All (λ c. f c ≡ b)) (w ∷ ws)
          (λ v hv. All-imp (λ c. is_plain c ≡ true) (λ c. f c ≡ b) v plain hv.solid) h))

-- What `redirect` leaves alone: no argument begins with a symbol.
redirect_to-array :
    (mode : ℕ) (xs : List Str)
    → locate mode xs ≡ none
    → redirect_to mode (array xs []) ≡ (array xs [], none)
unfolding redirect_to
redirect_to-array mode xs nowhere =
    rw
      (
        find_symbol-array xs (length (array xs [])) mode [] (length-array xs []) ∙ nowhere,
        redirect_to,
      )
      refl

locate-plain :
    (mode : ℕ) (xs : List Str)
    → ((c : ℕ) → is_plain c ≡ true → (c == mode) ≡ false)
    → All IsPlain xs
    → locate mode xs ≡ none
locate-plain mode [] other h = refl
locate-plain mode ([] ∷ xs) other h = absurd (h.0.some_byte refl)
locate-plain mode ((c ∷ w) ∷ xs) other h =
    locate-later mode (c ∷ w) xs (other c h.0.solid.0) ∙ ap bump (locate-plain mode xs other h.1)

pub redirect-plain :
    (xs : List Str) → All IsPlain xs → redirect (array xs []) ≡ (array xs [], none, none)
unfolding redirect
redirect-plain xs h =
    rw (redirect_to-array b'<' xs (locate-plain b'<' xs (λ c e. ground (arith, e)) h), redirect)
      (rw (redirect_to-array b'>' xs (locate-plain b'>' xs (λ c e. ground (arith, e)) h), redirect)
        refl)

until_ampersand-plain : (ws : List Str) → All IsPlain ws → until_ampersand ws ≡ ws
until_ampersand-plain [] h = refl
until_ampersand-plain ([] ∷ ws) h = absurd (h.0.some_byte refl)
until_ampersand-plain ((c ∷ w) ∷ ws) h =
    let other : (c == b'&') ≡ false = ground (arith, h.0.solid.0) in
    rw other (ap (λ zs. (c ∷ w) ∷ zs) (until_ampersand-plain ws h.1))

plain-IsWord : (w : Str) → IsPlain w → IsWord w
plain-IsWord w h = record {
  some_byte = h.some_byte;
  solid =
      All-imp (λ c. is_plain c ≡ true) (λ c. is_space c ≡ false) w (λ c e. ground (arith, e))
        h.solid;
}

pub arg_list-command_text :
    (blank : Str) (k n : ℕ) (command : Str × List Str)
    → All IsPlain (words command)
    → arg_list blank (command_text k n command) ≡ words command
arg_list-command_text blank k n (w, ws) h =
    arg_list-join blank n k w ws (All-imp IsPlain IsWord (w ∷ ws) plain-IsWord h)
    ∙ ap (λ zs. w ∷ zs) (until_ampersand-plain ws h.1)

-- Fewer than 512 words fit.
pub fits-command_text :
    (blank : Str) (k n : ℕ) (command : Str × List Str)
    → All IsPlain (words command)
    → length (words command) < 512
    → fits blank (command_text k n command) ≡ true
unfolding fits
fits-command_text blank k n (w, ws) h few =
    let taken = until_ampersand-plain ws h.1 in
    let number : length (w ∷ until_ampersand ws) < 512 =
      subst (λ (vs : List Str). length (w ∷ vs) < 512) (sym taken) few in
    let stored =
      (get_args-join blank n k w ws (All-imp IsPlain IsWord (w ∷ ws) plain-IsWord h)).0 number in
    rw (stored, fits) refl
