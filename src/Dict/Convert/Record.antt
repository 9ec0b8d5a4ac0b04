-- ===== src/Dict/Convert/Record.antt =====
-- A record that convert.c of hw4/part3 writes is one line for lookup1.c.
use nsysu_system_programming.Prelude.{
  ℕ, zero, suc, ◌+◌, ◌-◌, ◌≤◌, ◌≡◌, refl, sym, ap, ◌∙◌, ◌≢◌, Bool, true, false, not, ◌&&◌, ◌||◌,
  none, some, [], ◌∷◌, ◌++◌, append_assoc, arith, ltb, ◌==◌, if◌then◌else◌, length, set, take, drop,
  replicate, All, length-append, All-append, All-imp, if_true, Str, str_eq, drop-append, All-imp,
  if_true, before_nul, before_nul-append,
}
use nsysu_system_programming.Shell.Strtok.{tokens}
use nsysu_system_programming.Shell.Strtok.Join.{IsToken, tokens-word, tokens_ended}
use nsysu_system_programming.Dict.Remote.{padded}
use nsysu_system_programming.Dict.Convert.{
  written_record, Result, has, is_blank, leading, skip_nuls, copied, text_behind, line_result,
}

-- A byte of a line.
abbrev pub is_inside : ℕ → Bool
is_inside c = not ((c == 0) || (c == 10))

-- A byte of a word.
abbrev pub is_word_byte : ℕ → Bool
is_word_byte c = not ((c == 0) || (c == 10) || (c == 32))

-- A word that its field has room for, with the space and the NUL.
pub record IsWord (w : Str) : Type 0 where
  pub some_byte : w ≢ []
  pub solid : All (λ c. is_word_byte c ≡ true) w
  pub fits : length w ≤ 30

-- A text that its field has room for with the NUL.
pub record IsText (t : Str) : Type 0 where
  pub solid : All (λ c. is_inside c ≡ true) t
  pub fits : length t ≤ 479

take-replicate : (n m : ℕ) → n ≤ m → take {A = ℕ} n (replicate m 0) ≡ replicate n 0
take-replicate zero m h = refl
take-replicate (suc n) zero h = absurd (omega arith)
take-replicate (suc n) (suc m) h = ap (λ (zs : Str). 0 ∷ zs) (take-replicate n m (omega arith))

take-padding :
    (n m : ℕ) (s : Str)
    → length s ≤ n
    → n ≤ m
    → take n (s ++ replicate m 0) ≡ s ++ replicate (n - length s) 0
take-padding n m [] short long =
    let all : n - 0 ≡ n = omega arith in rw all (take-replicate n m long)
take-padding zero m (c ∷ s) short long = absurd (omega arith)
take-padding (suc n) zero (c ∷ s) short long = absurd (omega arith)
take-padding (suc n) (suc m) (c ∷ s) short long =
    let count : suc n - suc (length s) ≡ n - length s = omega arith in
    rw count (ap (λ (zs : Str). c ∷ zs) (take-padding n (suc m) s (omega arith) (omega arith)))

-- The bytes of a record: the word, a space, NULs, the text, NULs, and the line's end.
abbrev pub tail_of : (k : ℕ) → Str → Str
tail_of k t = t ++ (replicate (suc k) 0 ++ (10 ∷ []))

abbrev pub bytes_of : (j k : ℕ) → (w t : Str) → Str
bytes_of j k w t = w ++ (32 ∷ (replicate (suc j) 0 ++ tail_of k t))

abbrev pub record_of : (w t : Str) → Str
record_of w t = bytes_of (30 - length w) (479 - length t) w t

pub written_record_lem :
    (w t : Str) → length w ≤ 30 → length t ≤ 479 → written_record w t ≡ some (record_of w t)
written_record_lem w t hw ht =
    let room : (ltb (length w + 1) 32 && ltb (length t) 480) ≡ true = ground arith in
    let word_count : 32 - length (w ++ (32 ∷ [])) ≡ suc (30 - length w) =
      omega (arith, length-append w (32 ∷ [])) in
    let text_count : 480 - length t ≡ suc (479 - length t) = omega arith in
    let word_field : padded 32 (w ++ (32 ∷ []))
        ≡ (w ++ (32 ∷ [])) ++ replicate (suc (30 - length w)) 0 =
      take-padding 32 32 (w ++ (32 ∷ [])) (omega (arith, length-append w (32 ∷ []))) (omega arith)
      ∙ ap (λ n. (w ++ (32 ∷ [])) ++ replicate n 0) word_count in
    let text_field : padded 480 t ≡ t ++ replicate (suc (479 - length t)) 0 =
      take-padding 480 480 t (omega arith) (omega arith)
      ∙ ap (λ n. t ++ replicate n 0) text_count in
    if_true none room
    ∙ ap some (
        ap (λ a. a ++ (padded 480 t ++ (10 ∷ []))) word_field
        ∙ ap (λ b. ((w ++ (32 ∷ [])) ++ replicate (suc (30 - length w)) 0) ++ (b ++ (10 ∷ [])))
            text_field
        ∙ ap (λ b. ((w ++ (32 ∷ [])) ++ replicate (suc (30 - length w)) 0) ++ b)
            (append_assoc t (replicate (suc (479 - length t)) 0) (10 ∷ []))
        ∙ append_assoc (w ++ (32 ∷ [])) (replicate (suc (30 - length w)) 0)
            (tail_of (479 - length t) t)
        ∙ append_assoc w (32 ∷ []) _)

set-append : (w rest : Str) (x v : ℕ) → set (w ++ (x ∷ rest)) (length w) v ≡ w ++ (v ∷ rest)
set-append [] rest x v = refl
set-append (c ∷ w) rest x v = ap (λ (zs : Str). c ∷ zs) (set-append w rest x v)

skip_nuls-replicate : (n : ℕ) (s : Str) → skip_nuls (replicate n 0 ++ s) ≡ skip_nuls s
skip_nuls-replicate zero s = refl
skip_nuls-replicate (suc n) s = skip_nuls-replicate n s

inside_nonzero : (t : Str) → All (λ c. is_inside c ≡ true) t → All (λ c. (c == 0) ≡ false) t
inside_nonzero t h =
    All-imp (λ c. is_inside c ≡ true) (λ c. (c == 0) ≡ false) t (λ c e. ground (arith, e)) h

copied_tail :
    (k : ℕ) (t : Str)
    → All (λ c. is_inside c ≡ true) t
    → copied (skip_nuls (tail_of k t)) ≡ has (drop 1 t)
copied_tail k [] h = ap copied (skip_nuls-replicate (suc k) (10 ∷ []))
copied_tail k (c ∷ t) h =
    let visible : (c == 0) ≡ false = ground (arith, h.0) in
    rw visible (ap has (before_nul-append t (replicate k 0 ++ (10 ∷ [])) (inside_nonzero t h.1)))

leading-word : (w rest : Str) → IsWord w → leading (w ++ rest) ≡ 0
leading-word [] rest h = absurd (h.some_byte refl)
leading-word (c ∷ w) rest h =
    let other : is_blank c ≡ false = ground (arith, h.solid.0) in rw other refl

text_behind_lem :
    (j k : ℕ) (w t : Str) → IsWord w → IsText t → text_behind w (bytes_of j k w t) ≡ has (drop 1 t)
text_behind_lem j k w t hw ht =
    let rest = replicate (suc j) 0 ++ tail_of k t in
    let place : leading (bytes_of j k w t) + length w ≡ length w =
      ap (λ n. n + length w) (leading-word w (32 ∷ rest) hw) ∙ omega arith in
    ap (λ i. copied (skip_nuls (drop (length w) (set (bytes_of j k w t) i 0)))) place
    ∙ ap (λ zs. copied (skip_nuls (drop (length w) zs))) (set-append w rest 32 0)
    ∙ ap (λ zs. copied (skip_nuls zs)) (drop-append w (0 ∷ rest))
    ∙ ap copied (skip_nuls-replicate (suc j) (tail_of k t))
    ∙ copied_tail k t ht.solid

-- The only token of a record is its word.
tokens-record :
    (j k : ℕ) (w t : Str) → IsWord w → tokens is_blank [] (before_nul (bytes_of j k w t)) ≡ w ∷ []
unfolding tokens
tokens-record j k w t hw =
    let rest = replicate j 0 ++ tail_of k t in
    let solid : IsToken is_blank w = record {
      some_byte = hw.some_byte;
      solid =
          All-imp (λ c. is_word_byte c ≡ true) (λ c. is_blank c ≡ false) w
            (λ c e. ground (arith, e)) hw.solid;
    } in
    let visible : All (λ c. (c == 0) ≡ false) (w ++ (32 ∷ [])) =
      All-append (λ c. (c == 0) ≡ false) w (32 ∷ [])
        (All-imp (λ c. is_word_byte c ≡ true) (λ c. (c == 0) ≡ false) w (λ c e. ground (arith, e))
          hw.solid)
        (refl, tt) in
    ap (λ zs. tokens is_blank [] (before_nul zs)) (sym (append_assoc w (32 ∷ []) (0 ∷ rest)))
    ∙ ap (tokens is_blank []) (before_nul-append (w ++ (32 ∷ [])) rest visible)
    ∙ tokens-word is_blank w [] (32 ∷ []) solid.solid
    ∙ tokens_ended is_blank 32 [] w [] solid refl tt

-- The line of a record: if its word is sought the search gives the text without its first byte, and
-- goes on to the next line otherwise.
pub line_result-record :
    (j k : ℕ) (sought w t : Str) (rest : Result)
    → IsWord w
    → IsText t
    → line_result sought
        (bytes_of j k w t)
        (tokens is_blank [] (before_nul (bytes_of j k w t)))
        rest
      ≡ (if str_eq w sought then has (drop 1 t) else rest)
line_result-record j k sought w t rest hw ht =
    ap (λ ts. line_result sought (bytes_of j k w t) ts rest) (tokens-record j k w t hw)
    ∙ ap (λ r. if str_eq w sought then r else rest) (text_behind_lem j k w t hw ht)
