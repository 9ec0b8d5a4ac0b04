-- ===== src/Shell/Args/Words.antt =====
-- What `getArgs` of hw4/part2/parser.c makes of words with spaces between them.
use native.Mathlib.Decide.{dec_lt}
use nsysu_system_programming.Prelude.{
  ℕ, zero, suc, ◌+◌, ◌*◌, ◌≤◌, ◌<◌, ◌≡◌, refl, sym, ap, ◌∙◌, true, false, List, [], ◌∷◌, ◌++◌,
  arith, some, none, leb, length, replicate, All, All-imp, if_true, if_false, Str, if◌then◌else◌,
}
use nsysu_system_programming.Prelude.{is_space}
use nsysu_system_programming.Shell.Strtok.{tokens}
use nsysu_system_programming.Shell.Strtok.Join.{IsToken, join, tokens-join}
use nsysu_system_programming.Shell.Args.{
  is_delim, until_ampersand, take_args, skip_spaces, arg_list, room, get_args,
}

-- A word has a byte, and none of its bytes is a space for `isspace`.
abbrev pub IsWord : Str → Type 0
IsWord = IsToken is_space

-- `n` spaces and one more.
abbrev pub spaces : ℕ → Str
spaces n = 32 ∷ replicate n 32

word-IsToken : (w : Str) → IsWord w → IsToken is_delim w
word-IsToken w h = record {
  some_byte = h.some_byte;
  solid =
      All-imp (λ c. is_space c ≡ false) (λ c. is_delim c ≡ false) w (λ c e. ground (arith, e))
        h.solid;
}

replicate-All : (n : ℕ) → All (λ c. is_delim c ≡ true) (replicate n 32)
replicate-All zero = tt
replicate-All (suc n) = (refl, replicate-All n)

skip_spaces-join :
    (n k : ℕ) (w : Str) (ws : List Str)
    → IsWord w
    → skip_spaces (replicate k 32 ++ join (spaces n) (w ∷ ws)) ≡ join (spaces n) (w ∷ ws)
unfolding skip_spaces
skip_spaces-join n zero [] ws h = absurd (h.some_byte refl)
skip_spaces-join n zero (c ∷ w) [] h = if_false _ (h.solid).0
skip_spaces-join n zero (c ∷ w) (v ∷ ws) h = if_false _ (h.solid).0
skip_spaces-join n (suc k) w ws h = skip_spaces-join n k w ws h

join-cons :
    (sep w : Str) (ws : List Str)
    → IsWord w
    → (c : ℕ) × (rest : Str) × (join sep (w ∷ ws) ≡ c ∷ rest)
join-cons sep [] ws h = absurd (h.some_byte refl)
join-cons sep (c ∷ w) [] h = (c, w, refl)
join-cons sep (c ∷ w) (v ∷ ws) h = (c, _, refl)

-- The arguments of such a command.
pub arg_list-join :
    (blank : Str) (n k : ℕ) (w : Str) (ws : List Str)
    → All IsWord (w ∷ ws)
    → arg_list blank (replicate k 32 ++ join (spaces n) (w ∷ ws)) ≡ w ∷ until_ampersand ws
unfolding arg_list
arg_list-join blank n k w ws h =
    let (c, rest, shape) = join-cons (spaces n) w ws h.0 in
    rw (skip_spaces-join n k w ws h.0 ∙ shape, arg_list)
      (ap take_args (
        ap (tokens is_delim []) (sym shape)
        ∙ tokens-join is_delim 32 (replicate n 32) (w ∷ ws) refl (replicate-All n)
            (All-imp IsWord (IsToken is_delim) (w ∷ ws) word-IsToken h)))

room-fits : (count : ℕ) (ws : List Str) → count + length ws < 512 → room 512 4096 count ws ≡ true
unfolding room
room-fits count [] h = ground arith
room-fits count (w ∷ ws) h =
    let rest = room-fits (suc count) ws (omega arith) in
    let within : leb 512 count ≡ false = ground arith in rw within (rw rest (ground arith))

room-full :
    (count : ℕ) (ws : List Str)
    → count ≤ 512
    → 512 ≤ count + length ws
    → room 512 4096 count ws ≡ false
unfolding room
room-full count [] at h = ground arith
room-full count (w ∷ ws) at h = elim (dec_lt count 512) [
  | yes below ↦
      let rest = room-full (suc count) ws (omega arith) (omega arith) in
      let within : leb 512 count ≡ false = ground arith in rw within (rw rest (ground arith))
  | no beyond ↦
      let full : leb 512 count ≡ true = ground arith in
      let outside : leb (8 * suc count) 1024 ≡ false = ground arith in rw full (rw outside refl)
]

-- Words with spaces in front of them and between them. If fewer than 512 arguments are taken, they come
-- back as the arguments, up to the first one behind the command's name that begins with an ampersand;
-- the name is taken even if it does. If 512 or more are taken, `getArgs` writes outside of its block.
pub get_args-join :
    (blank : Str) (n k : ℕ) (w : Str) (ws : List Str)
    → All IsWord (w ∷ ws)
    → (length (w ∷ until_ampersand ws) < 512
        → get_args blank (replicate k 32 ++ join (spaces n) (w ∷ ws))
          ≡ some (w ∷ until_ampersand ws))
      × (512 ≤ length (w ∷ until_ampersand ws)
          → get_args blank (replicate k 32 ++ join (spaces n) (w ∷ ws)) ≡ none)
unfolding get_args
get_args-join blank n k w ws h =
    let (c, rest, shape) = join-cons (spaces n) w ws h.0 in
    let command = replicate k 32 ++ join (spaces n) (w ∷ ws) in
    let stored : get_args blank command ≡ (
        if room 512 4096 0 (arg_list blank command) then some (arg_list blank command) else none) =
      rw (skip_spaces-join n k w ws h.0 ∙ shape, get_args) refl in
    let args = arg_list-join blank n k w ws h in
    let result : get_args blank command ≡ (
        if room 512 4096 0 (w ∷ until_ampersand ws) then some (w ∷ until_ampersand ws) else none) =
      stored ∙ ap (λ l. if room 512 4096 0 l then some l else none) args in
    (
      λ few. result ∙ if_true none (room-fits 0 (w ∷ until_ampersand ws) (omega arith)),
      λ many.
          result
          ∙ if_false (some (w ∷ until_ampersand ws))
              (room-full 0 (w ∷ until_ampersand ws) (omega arith) (omega arith)),
    )
