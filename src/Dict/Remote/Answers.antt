-- ===== src/Dict/Remote/Answers.antt =====
-- What the clients of hw11 print, over either kind of socket.
use nsysu_system_programming.Prelude.{
  ℕ, zero, suc, ◌≤◌, ◌<◌, min, ◌≡◌, refl, sym, ap, ◌∙◌, ◌≢◌, inl, inr, true, false, none, some,
  List, [], ◌∷◌, ◌++◌, append-nil, arith, ltb, ◌==◌, if◌then◌else◌, Bool-cases, length, take, drop,
  replicate, All, All-imp, if_true, Str, str_eq, All-imp, if_true, if_keeps, some_inj, before_nul,
}
use mathlib.Core.Path.{subst}
use nsysu_system_programming.Dict.{Dictrec, connect, lookup}
use nsysu_system_programming.Dict.Search.{definition, mapped, connect-mapped, lookup_lem}
use nsysu_system_programming.Dict.Remote.{
  not_found, text_of, written, serve_stream, padded, sent_whole, serve_datagram, received, receive,
  stream_lookup, datagram_lookup,
}

-- A C string of at most `n` bytes.
pub record IsText (n : ℕ) (s : Str) : Type 0 where
  pub solid : All (λ c. (c == 0) ≡ false) s
  pub fits : length s ≤ n

-- A record with a word and a text that leaves room for its NUL.
pub record IsRecord (r : Dictrec) : Type 0 where
  pub some_byte : r.word ≢ []
  pub text : IsText 479 r.text

-- What a search of the records tells the user.
abbrev pub meaning : List Dictrec → Str → Str
meaning [] word = not_found
meaning (r ∷ rs) word = let rest = meaning rs word in if str_eq word r.word then r.text else rest

not_found-IsText : IsText 479 not_found
not_found-IsText = record {
  solid =
      (refl, (refl, (refl, (refl, (refl, (refl, (refl, (refl, (refl, (refl, (refl, tt)))))))))));
  fits = omega arith;
}

text_of-definition :
    (rs : List Dictrec) (word : Str) → text_of (definition rs word) ≡ some (meaning rs word)
text_of-definition [] word = refl
text_of-definition (r ∷ rs) word = elim (Bool-cases (str_eq word r.word)) [
  | inl same ↦ rw same refl
  | inr other ↦ rw other (text_of-definition rs word)
]

meaning-IsText : (rs : List Dictrec) (word : Str) → All IsRecord rs → IsText 479 (meaning rs word)
meaning-IsText [] word h = not_found-IsText
meaning-IsText (r ∷ rs) word h =
    if_keeps (IsText 479) (str_eq word r.word) h.0.text (meaning-IsText rs word h.1)

-- A text and its NUL in the first `n` bytes, whatever follows.
field_lem :
    (n : ℕ) (s rest more : Str)
    → All (λ c. (c == 0) ≡ false) s
    → length s < n
    → before_nul (take n (s ++ (0 ∷ rest)) ++ more) ≡ s
field_lem zero s rest more h room = absurd (omega arith)
field_lem (suc n) [] rest more h room = refl
field_lem (suc n) (c ∷ s) rest more h room =
    rw h.0 (ap (λ (zs : Str). c ∷ zs) (field_lem n s rest more h.1 (omega arith)))

field_twice :
    (n : ℕ) (s rest fill more : Str)
    → All (λ c. (c == 0) ≡ false) s
    → length s < n
    → before_nul (take n (take n (s ++ (0 ∷ rest)) ++ fill) ++ more) ≡ s
field_twice zero s rest fill more h room = absurd (omega arith)
field_twice (suc n) [] rest fill more h room = refl
field_twice (suc n) (c ∷ s) rest fill more h room =
    rw h.0 (ap (λ (zs : Str). c ∷ zs) (field_twice n s rest fill more h.1 (omega arith)))

received_lem : (old text rest : Str) → IsText 479 text → received old (text ++ (0 ∷ rest)) ≡ text
received_lem old text rest h = field_lem 480 text rest _ h.solid (omega (arith, h.fits))

received-padded : (old text : Str) → IsText 479 text → received old (padded 480 text) ≡ text
received-padded old text h =
    ap (λ zs. before_nul (take 480 zs ++ drop (min 480 (length (padded 480 text))) old))
      (sym (append-nil (padded 480 text)))
    ∙ field_twice 480 text (replicate 479 0) [] _ h.solid (omega (arith, h.fits))

-- A word that fits its field with the NUL.
abbrev pub IsKey : Str → Type 0
IsKey word = (word ≢ []) × IsText 31 word

module _ (rs rest : List Dictrec) (h : All IsRecord rs) (old : Str) where
  words : All (λ (r : Dictrec). r.word ≢ []) rs
  words = All-imp IsRecord (λ r. r.word ≢ []) rs (λ r k. k.some_byte) h

  pub connected : connect 1 (mapped rs rest) ≡ some (suc (length rs))
  connected = connect-mapped rs rest words

  searched :
      (word : Str)
      → word ≢ []
      → text_of (lookup (suc (length rs)) (mapped rs rest) word) ≡ some (meaning rs word)
  searched word some_byte =
      let (n, up, answer) = lookup_lem rs rest word words some_byte in
      subst (λ m. text_of (lookup m (mapped rs rest) word) ≡ some (meaning rs word))
        (some_inj (sym up ∙ connected)) (ap text_of answer ∙ text_of-definition rs word)

  -- The answer of a stream server, with its NUL.
  pub stream_answer :
      (word : Str)
      → IsKey word
      → serve_stream (suc (length rs)) (mapped rs rest) (word ++ (0 ∷ []))
        ≡ some (meaning rs word ++ (0 ∷ []))
  unfolding serve_stream
  stream_answer word key =
      let n = suc (length rs) in
      let asked : before_nul (take 256 (word ++ (0 ∷ []))) ≡ word =
        ap before_nul (sym (append-nil (take 256 (word ++ (0 ∷ [])))))
        ∙ field_lem 256 word [] [] key.1.solid (omega (arith, key.1.fits)) in
      let fits : ltb (length word) 32 ≡ true = ground (arith, key.1.fits) in
      ap (λ w. if ltb (length w) 32 then written (text_of (lookup n (mapped rs rest) w)) else none)
        asked
      ∙ if_true none fits
      ∙ ap written (searched word key.0)

  -- The answer of the datagram server, whatever stands behind the word in its field.
  pub datagram_answer :
      (behind word : Str)
      → IsKey word
      → serve_datagram (suc (length rs)) (mapped rs rest) (take 32 (word ++ (0 ∷ behind)))
        ≡ some (padded 480 (meaning rs word))
  unfolding serve_datagram
  datagram_answer behind word key =
      ap (λ w. sent_whole (text_of (lookup (suc (length rs)) (mapped rs rest) w)))
        (field_twice 32 word behind (replicate 32 0) not_found key.1.solid
          (omega (arith, key.1.fits)))
      ∙ ap sent_whole (searched word key.0)

  -- Over a stream socket a word of 1 to 31 bytes is answered with the text of its first record, or
  -- "Not Found!" if it has none, by a server that has connected to the records; over datagrams too, whatever stands
  -- behind the word in its field.
  pub remote_lookups :
      (behind word : Str)
      → IsKey word
      → (stream_lookup (suc (length rs)) (mapped rs rest) old word ≡ some (meaning rs word))
        × (datagram_lookup (suc (length rs)) (mapped rs rest) old behind word
            ≡ some (meaning rs word))
  unfolding stream_lookup datagram_lookup
  remote_lookups behind word key = (
    ap (receive old) (stream_answer word key)
        ∙ ap some (received_lem old (meaning rs word) [] (meaning-IsText rs word h)),
    ap (receive old) (datagram_answer behind word key)
        ∙ ap some (received-padded old (meaning rs word) (meaning-IsText rs word h)),
  )
