-- ===== src/Dict/Remote/Client.antt =====
-- The loop of main.c of hw11 on words, one in a line, and the whole way to a server and back.
use nsysu_system_programming.Prelude.{
  ℕ, zero, suc, ◌<◌, ◌≡◌, refl, ap, ◌∙◌, ◌≢◌, false, Option, some, List, [], ◌∷◌, ◌++◌, arith, ◌==◌,
  length, All, length-append, All-append, All-imp, Str, codes, take-append, All-imp, before_nul,
  before_nul_self, fgets-line,
}
use nsysu_system_programming.Dict.{Dictrec, connect}
use nsysu_system_programming.Dict.Search.{mapped}
use nsysu_system_programming.Dict.Remote.{
  stream_lookup, datagram_lookup, strip, say, ask, client_loop, client_main,
}
use nsysu_system_programming.Dict.Remote.Answers.{
  IsText, IsRecord, IsKey, meaning, connected, remote_lookups,
}

-- A word that fits in a line with its end.
pub record IsAsked (word : Str) : Type 0 where
  pub some_byte : word ≢ []
  pub text : IsText 30 word
  pub one_line : All (λ c. (c == 10) ≡ false) word

-- The lines that the user types.
abbrev pub typed : List Str → Str
typed [] = []
typed (word ∷ ws) = word ++ (10 ∷ typed ws)

-- What the user sees, when each word has this text.
abbrev pub shown : (Str → Str) → List Str → Str
shown text [] = []
shown text (word ∷ ws) = word ++ codes " : " ++ text word ++ shown text ws

strip-append : (word : Str) → strip (word ++ (10 ∷ [])) ≡ some word
strip-append [] = refl
strip-append (c ∷ word) =
    let more : length (word ++ (10 ∷ [])) ≡ suc (length word) =
      omega (arith, length-append word (10 ∷ [])) in
    rw more (ap (λ zs. some (c ∷ zs)) (take-append word (10 ∷ [])))

-- One round on a line.
client_loop-line :
    (fuel : ℕ) (look : Str → Option Str) (word left : Str)
    → IsAsked word
    → client_loop (suc fuel) look (word ++ (10 ∷ left))
      ≡ ask look (some word) (client_loop fuel look left)
unfolding client_loop
client_loop-line fuel look [] left h = absurd (h.some_byte refl)
client_loop-line fuel look (c ∷ word) left h =
    let room : length (c ∷ word) < 31 = omega (arith, h.text.fits) in
    ap (λ r. ask look (strip (before_nul r.0)) (client_loop fuel look r.1))
      (fgets-line 31 (c ∷ word) left h.one_line room)
    ∙ ap (λ l. ask look (strip l) (client_loop fuel look left))
        (before_nul_self ((c ∷ word) ++ (10 ∷ []))
          (All-append (λ c. (c == 0) ≡ false) (c ∷ word) (10 ∷ []) h.text.solid (refl, tt)))
    ∙ ap (λ w. ask look w (client_loop fuel look left)) (strip-append (c ∷ word))

client_loop-typed :
    (fuel : ℕ) (look : Str → Option Str) (text : Str → Str) (ws : List Str)
    → All IsAsked ws
    → All (λ word. look word ≡ some (text word)) ws
    → length (typed ws) < fuel
    → client_loop fuel look (typed ws) ≡ some (shown text ws)
unfolding client_loop
client_loop-typed zero look text ws h answers enough = absurd (omega arith)
client_loop-typed (suc fuel) look text [] h answers enough = refl
client_loop-typed (suc fuel) look text (word ∷ ws) h answers enough =
    let shorter : length (typed ws) < fuel = omega (arith, length-append word (10 ∷ typed ws)) in
    client_loop-line fuel look word (typed ws) h.0
    ∙ ap (λ o. say word o (client_loop fuel look (typed ws))) answers.0
    ∙ ap (say word (some (text word))) (client_loop-typed fuel look text ws h.1 answers.1 shorter)

client_main-look :
    (look : Str → Option Str) (text : Str → Str) (ws : List Str)
    → All IsAsked ws
    → All (λ word. look word ≡ some (text word)) ws
    → client_main look (typed ws) ≡ some (shown text ws)
unfolding client_main
client_main-look look text ws h answers =
    client_loop-typed (suc (length (typed ws))) look text ws h answers (omega arith)

asked-IsKey : (word : Str) → IsAsked word → IsKey word
asked-IsKey word h =
    (h.some_byte, record { solid = h.text.solid; fits = omega (arith, h.text.fits) })

-- A user who types words of 1 to 30 bytes, one in a line, sees each of them with the text of its first
-- record or "Not Found!", in their order, and the loop ends with the input. The stream sockets and the
-- datagrams show the same.
pub client_main-typed :
    (rs rest : List Dictrec) (old behind : Str) (ws : List Str)
    → All IsRecord rs
    → All IsAsked ws
    → (connect 1 (mapped rs rest) ≡ some (suc (length rs)))
      × (client_main (stream_lookup (suc (length rs)) (mapped rs rest) old) (typed ws)
          ≡ some (shown (meaning rs) ws))
      × (client_main (datagram_lookup (suc (length rs)) (mapped rs rest) old behind) (typed ws)
          ≡ some (shown (meaning rs) ws))
client_main-typed rs rest old behind ws h asked =
    let n = suc (length rs) in
    let table = mapped rs rest in
    let both =
      All-imp IsAsked _ ws (λ word k. remote_lookups rs rest h old behind word (asked-IsKey word k))
        asked in
    (
      connected rs rest h old,
      client_main-look (stream_lookup n table old) (meaning rs) ws asked (
          All-imp _ (λ word. stream_lookup n table old word ≡ some (meaning rs word)) ws
            (λ word b. b.0) both),
      client_main-look (datagram_lookup n table old behind) (meaning rs) ws asked (
          All-imp _ (λ word. datagram_lookup n table old behind word ≡ some (meaning rs word)) ws
            (λ word b. b.1) both),
    )
