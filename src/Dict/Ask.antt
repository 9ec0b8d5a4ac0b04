-- ===== src/Dict/Ask.antt =====
-- `main` of hw4/part3/main.c with the lookup of lookup1.c. The words are what `scanf` gives.
use nsysu_system_programming.Prelude.{
  true, ltb, if◌then◌else◌, if_true, ◌<◌, ℕ, zero, suc, ◌+◌, ◌≡◌, refl, sym, ap, ◌∙◌, ◌≢◌, some,
  List, [], ◌∷◌, ◌++◌, arith, length, replicate, All, All-imp, Str, codes, str_eq, All-imp,
  if_keeps, some_inj,
}
use nsysu_system_programming.Dict.Convert.{Result, has, has_not, unavail, crashes, convert, lookup1}
use nsysu_system_programming.Dict.Convert.Trip.{Entry, IsEntry, source_of, meaning, lookup1-convert}

-- How the rounds so far end: the loop goes on, DIE, the program crashes, or `scanf` writes past the 32
-- bytes of `tryit.word`, where the behaviour is undefined.
pub data Then : Type 0 where
  continues : Then
  dies : Then
  crashed : Then
  overflows : Then

abbrev pub prompt : Str
prompt = codes "What word do you want : "

-- What a round prints: the prompt, and what the `switch` prints.
abbrev pub line_for : Str → Result → Str
line_for word (has text) = prompt ++ (word ++ (codes " : " ++ (text ++ (10 ∷ []))))
line_for word has_not = prompt ++ (word ++ codes " : Not Found!\n")
line_for word unavail = prompt
line_for word crashes = prompt

-- The `switch`, with `rest` for the rounds behind it.
abbrev pub say : Str → Result → Str × Then → Str × Then
say word (has text) rest = (line_for word (has text) ++ rest.0, rest.1)
say word has_not rest = (line_for word has_not ++ rest.0, rest.1)
say word unavail rest = (prompt, dies)
say word crashes rest = (prompt, crashed)

-- The first `rounds` rounds of `while (1)`, where `word` is in `tryit.word`. Behind the end of the
-- input `scanf` leaves it there.
unfoldable pub main_rounds : (rounds : ℕ) → (word : Str) → List Str → (file : Str) → Str × Then
unfolding lookup1
main_rounds zero word words file = ([], continues)
main_rounds (suc rounds) word [] file =
    say word (lookup1 word file) (main_rounds rounds word [] file)
main_rounds (suc rounds) word (w ∷ words) file =
    let rest = main_rounds rounds w words file in
    if ltb (length w) 32 then say w (lookup1 w file) rest else (prompt, overflows)

abbrev pub IsAnswer : Result → Type 0
IsAnswer (has text) = Unit
IsAnswer has_not = Unit
IsAnswer unavail = ⊥
IsAnswer crashes = ⊥

say-IsAnswer :
    (word : Str) (r : Result) (rest : Str × Then)
    → IsAnswer r
    → say word r rest ≡ (line_for word r ++ rest.0, rest.1)
say-IsAnswer word (has text) rest h = refl
say-IsAnswer word has_not rest h = refl
say-IsAnswer word unavail rest h = absurd h
say-IsAnswer word crashes rest h = absurd h

meaning-IsAnswer : (es : List Entry) (word : Str) → IsAnswer (meaning es word)
meaning-IsAnswer [] word = tt
meaning-IsAnswer (e ∷ es) word =
    if_keeps IsAnswer (str_eq e.word word) tt (meaning-IsAnswer es word)

-- The answers to the words, in order.
abbrev pub answers : List Entry → List Str → Str
answers es [] = []
answers es (w ∷ ws) = line_for w (meaning es w) ++ answers es ws

-- The last word, or the one before them.
abbrev pub last_word : Str → List Str → Str
last_word word [] = word
last_word word (w ∷ ws) = last_word w ws

one_round :
    (es : List Entry) (word file : Str) (rest : Str × Then)
    → lookup1 word file ≡ meaning es word
    → say word (lookup1 word file) rest ≡ (line_for word (meaning es word) ++ rest.0, rest.1)
one_round es word file rest e =
    ap (λ r. say word r rest) e
    ∙ say-IsAnswer word (meaning es word) rest (meaning-IsAnswer es word)

-- The words that are asked for.
abbrev pub Found : List Entry → Str → Str → Type 0
Found es file word = lookup1 word file ≡ meaning es word

-- A word that the search can be asked for and that fits `tryit.word`.
abbrev pub IsAsked : Str → Type 0
IsAsked w = (length w ≢ 1) × (length w < 32)

repeated :
    (n : ℕ) (es : List Entry) (word file : Str)
    → Found es file word
    → main_rounds n word [] file ≡ (answers es (replicate n word), continues)
unfolding main_rounds
repeated zero es word file e = refl
repeated (suc n) es word file e =
    one_round es word file (main_rounds n word [] file) e
    ∙ ap (λ r. (line_for word (meaning es word) ++ r.0, r.1)) (repeated n es word file e)

rounds_from :
    (n : ℕ) (es : List Entry) (word : Str) (ws : List Str) (file : Str)
    → All (λ w. Found es file w × (length w < 32)) ws
    → Found es file (last_word word ws)
    → main_rounds (length ws + n) word ws file
      ≡ (answers es (ws ++ replicate n (last_word word ws)), continues)
unfolding main_rounds
rounds_from n es word [] file h last =
    let same : 0 + n ≡ n = omega arith in
    ap (λ k. main_rounds k word [] file) same ∙ repeated n es word file last
rounds_from n es word (w ∷ ws) file h last =
    let more : suc (length ws) + n ≡ suc (length ws + n) = omega arith in
    let small : ltb (length w) 32 ≡ true = ground (arith, h.0.1) in
    ap (λ k. main_rounds k word (w ∷ ws) file) more
    ∙ if_true (prompt, overflows) small
    ∙ one_round es w file (main_rounds (length ws + n) w ws file) h.0.0
    ∙ ap (λ r. (line_for w (meaning es w) ++ r.0, r.1)) (rounds_from n es w ws file h.1 last)

same_file :
    (es : List Entry) (word file : Str)
    → All IsEntry es
    → convert [] (source_of es) ≡ some file
    → length word ≢ 1
    → Found es file word
same_file es word file h made long =
    let r = lookup1-convert es word h long in ap (lookup1 word) (some_inj (sym made ∙ r.1)) ∙ r.2

-- Where the block that `getline` leaves at the end of the input is empty: a dictionary that fits its
-- fields, converted and then asked for words of fewer than 32 bytes, none of one byte. Each round prints,
-- in order, the definition of its word without its first byte, or that it was not found. Behind the end
-- of the input the loop goes on, and prints the answer to the last word in every further round.
pub main_rounds-convert :
    (n : ℕ) (es : List Entry) (word : Str) (ws : List Str)
    → All IsEntry es
    → All IsAsked ws
    → length (last_word word ws) ≢ 1
    → (file : Str) × (convert [] (source_of es) ≡ some file)
      × (main_rounds (length ws + n) word ws file
          ≡ (answers es (ws ++ replicate n (last_word word ws)), continues))
main_rounds-convert n es word ws h asked last_long =
    let r = lookup1-convert es (last_word word ws) h last_long in
    (
      r.0,
      r.1,
      rounds_from n es word ws r.0
          (All-imp IsAsked (λ w. Found es r.0 w × (length w < 32)) ws
            (λ w a. (same_file es w r.0 h r.1 a.0, a.1)) asked)
          (same_file es (last_word word ws) r.0 h r.1 last_long),
    )
