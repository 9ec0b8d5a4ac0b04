-- ===== src/Dict/Convert/Trip.antt =====
-- The search of lookup1.c in what convert.c makes of a dictionary: hw4/part3 as a whole.
use nsysu_system_programming.Prelude.{
  ℕ, zero, suc, ◌-◌, ◌≤◌, ◌<◌, ◌≡◌, refl, sym, ap, ◌∙◌, ◌≢◌, true, false, some, List, [], ◌∷◌, ◌++◌,
  append-nil, append_assoc, arith, ◌==◌, if◌then◌else◌, ==-false, length, drop, replicate, All,
  length-append, All-append, All-imp, if_false, Str, str_eq, All-imp, if_false, All-replicate,
}
use nsysu_system_programming.Dict.Convert.{
  read_definition, both, convert_loop, convert, split_lines, Result, has, has_not, unavail,
  lookup_lines, lookup1,
}
use nsysu_system_programming.Dict.Convert.Record.{
  is_inside, is_word_byte, IsWord, IsText, bytes_of, record_of, written_record_lem,
  line_result-record,
}

-- A word and the lines of its definition.
pub record Entry : Type 0 where
  pub word : Str
  pub lines : List Str

abbrev pub text_of : List Str → Str
text_of [] = []
text_of (line ∷ lines) = line ++ text_of lines

pub record IsEntry (e : Entry) : Type 0 where
  pub word : IsWord e.word
  pub filled : All (λ line. line ≢ []) e.lines
  pub text : IsText (text_of e.lines)

-- The lines of the dictionary: a blank one behind each definition.
abbrev pub source_of : List Entry → List Str
source_of [] = []
source_of (e ∷ es) = e.word ∷ (e.lines ++ ([] ∷ source_of es))

abbrev pub file_of : List Entry → Str
file_of [] = []
file_of (e ∷ es) = record_of e.word (text_of e.lines) ++ file_of es

read_definition-lines :
    (text : Str) (lines rest : List Str)
    → All (λ line. line ≢ []) lines
    → read_definition text (lines ++ ([] ∷ rest)) ≡ some (text ++ text_of lines, rest)
unfolding read_definition
read_definition-lines text [] rest h = ap (λ t. some (t, rest)) (sym (append-nil text))
read_definition-lines text ([] ∷ lines) rest h = absurd (h.0 refl)
read_definition-lines text ((c ∷ line) ∷ lines) rest h =
    read_definition-lines (text ++ (c ∷ line)) lines rest h.1
    ∙ ap (λ t. some (t, rest)) (append_assoc text (c ∷ line) (text_of lines))

convert_loop-source :
    (fuel : ℕ) (es : List Entry)
    → All IsEntry es
    → length es < fuel
    → convert_loop fuel [] (source_of es) ≡ some (file_of es)
unfolding convert_loop
convert_loop-source zero es h enough = absurd (omega arith)
convert_loop-source (suc fuel) [] h enough = refl
convert_loop-source (suc fuel) (e ∷ es) h enough =
    rw (read_definition-lines [] e.lines (source_of es) h.0.filled, convert_loop)
      (ap (λ o. both o (convert_loop fuel [] (source_of es)))
          (written_record_lem e.word (text_of e.lines) h.0.word.fits h.0.text.fits)
        ∙ ap (both (some (record_of e.word (text_of e.lines))))
            (convert_loop-source fuel es h.1 (omega arith)))

length-source : (es : List Entry) → length es ≤ length (source_of es)
length-source [] = omega arith
length-source (e ∷ es) =
    let more = length-source es in omega (arith, length-append e.lines ([] ∷ source_of es))

split_lines-body :
    (body cur rest : Str)
    → All (λ c. (c == 10) ≡ false) body
    → split_lines cur (body ++ (10 ∷ rest)) ≡ (cur ++ (body ++ (10 ∷ []))) ∷ split_lines [] rest
unfolding split_lines
split_lines-body [] cur rest h = refl
split_lines-body (c ∷ body) cur rest h = rw h.0 (
    split_lines-body body (cur ++ (c ∷ [])) rest h.1
    ∙ ap (λ l. l ∷ split_lines [] rest) (append_assoc cur (c ∷ []) (body ++ (10 ∷ []))))

-- The bytes of a record in front of the line's end.
abbrev body_of : (j k : ℕ) → (w t : Str) → Str
body_of j k w t = w ++ (32 ∷ (replicate (suc j) 0 ++ (t ++ replicate (suc k) 0)))

append_four : (w x y z u : Str) → (w ++ (x ++ (y ++ z))) ++ u ≡ w ++ (x ++ (y ++ (z ++ u)))
append_four w x y z u =
    append_assoc w (x ++ (y ++ z)) u
    ∙ ap (λ a. w ++ a) (append_assoc x (y ++ z) u ∙ ap (λ a. x ++ a) (append_assoc y z u))

body_of-append :
    (j k : ℕ) (w t rest : Str) → body_of j k w t ++ (10 ∷ rest) ≡ bytes_of j k w t ++ rest
body_of-append j k w t rest =
    let nuls = replicate (suc k) 0 in
    append_four w (32 ∷ replicate (suc j) 0) t nuls (10 ∷ rest)
    ∙ ap (λ a. w ++ ((32 ∷ replicate (suc j) 0) ++ (t ++ a)))
        (sym (append_assoc nuls (10 ∷ []) rest))
    ∙ sym (append_four w (32 ∷ replicate (suc j) 0) t (nuls ++ (10 ∷ [])) rest)

one_line :
    (j k : ℕ) (w t : Str) → IsWord w → IsText t → All (λ c. (c == 10) ≡ false) (body_of j k w t)
one_line j k w t hw ht =
    All-append (λ c. (c == 10) ≡ false) w _
      (All-imp (λ c. is_word_byte c ≡ true) (λ c. (c == 10) ≡ false) w (λ c e. ground (arith, e))
        hw.solid)
      (
        refl,
        All-append (λ c. (c == 10) ≡ false) (replicate (suc j) 0) _
            (All-replicate (suc j) 0 false (λ c. c == 10) refl)
            (All-append (λ c. (c == 10) ≡ false) t _
              (All-imp (λ c. is_inside c ≡ true) (λ c. (c == 10) ≡ false) t
                (λ c e. ground (arith, e)) ht.solid)
              (All-replicate (suc k) 0 false (λ c. c == 10) refl)),
      )

-- What a search of the entries gives.
abbrev pub meaning : List Entry → Str → Result
meaning [] sought = has_not
meaning (e ∷ es) sought =
    let rest = meaning es sought in
    if str_eq e.word sought then has (drop 1 (text_of e.lines)) else rest

lookup_lines-file :
    (es : List Entry) (sought : Str)
    → All IsEntry es
    → lookup_lines sought (split_lines [] (file_of es)) ≡ meaning es sought
unfolding lookup_lines split_lines
lookup_lines-file [] sought h = refl
lookup_lines-file (e ∷ es) sought h =
    let j = 30 - length e.word in
    let t = text_of e.lines in
    let k = 479 - length t in
    let bytes = bytes_of j k e.word t in
    let first_line : split_lines [] (file_of (e ∷ es)) ≡ bytes ∷ split_lines [] (file_of es) =
      ap (split_lines []) (sym (body_of-append j k e.word t (file_of es)))
      ∙ split_lines-body (body_of j k e.word t) [] (file_of es)
          (one_line j k e.word t h.0.word h.0.text)
      ∙ ap (λ l. l ∷ split_lines [] (file_of es))
          (body_of-append j k e.word t [] ∙ append-nil bytes) in
    ap (lookup_lines sought) first_line
    ∙ line_result-record j k sought e.word t (lookup_lines sought (split_lines [] (file_of es)))
        h.0.word h.0.text
    ∙ ap (λ r. if str_eq e.word sought then has (drop 1 t) else r) (lookup_lines-file es sought h.1)

-- A dictionary of entries that fit their fields, with a blank line behind each, is converted, and the
-- search in the file finds the first entry of a word of more than one byte; but the text that it gives
-- lacks the first byte of the definition.
pub lookup1-convert :
    (es : List Entry) (sought : Str)
    → All IsEntry es
    → length sought ≢ 1
    → (file : Str) × (convert [] (source_of es) ≡ some file)
      × (lookup1 sought file ≡ meaning es sought)
unfolding convert lookup1
lookup1-convert es sought h long = (
  file_of es,
  convert_loop-source (suc (length (source_of es))) es h
      (let more = length-source es in omega arith),
  if_false unavail (==-false (length sought) 1 long) ∙ lookup_lines-file es sought h,
)
