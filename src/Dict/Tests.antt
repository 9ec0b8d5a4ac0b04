-- ===== src/Dict/Tests.antt =====
-- The theorems on the dictionary of hw11 at a file of two records.
use nsysu_system_programming.Prelude.{
  ℕ, ◌≡◌, refl, ◌≢◌, false, none, some, List, [], ◌∷◌, arith, ◌==◌, All, codes, Str,
}
use nsysu_system_programming.Dict.{Dictrec, connect, lookup, found}
use nsysu_system_programming.Dict.Remote.{
  stream_lookup, datagram_lookup, client_main, serve_all, padded,
}
use nsysu_system_programming.Dict.Remote.Servers.{udp_loop, udp_loop_lem}
use nsysu_system_programming.Dict.Remote.Answers.{IsRecord, IsKey, meaning, remote_lookups}
use nsysu_system_programming.Dict.Remote.Client.{IsAsked, shown, client_main-typed}
use nsysu_system_programming.Dict.Convert.{convert, lookup1, has}
use nsysu_system_programming.Dict.Convert.Trip.{Entry, IsEntry, lookup1-convert}
use nsysu_system_programming.Dict.Ask.{main_rounds, answers, continues, main_rounds-convert}
use nsysu_system_programming.Dict.Search.{mapped, lookup_lem, lookup-empty}

abbrev two : List Dictrec
two = record { word = 1 ∷ []; text = 5 ∷ [] } ∷ record { word = 2 ∷ []; text = 6 ∷ [] } ∷ []

two-words : All (λ (r : Dictrec). r.word ≢ []) two
two-words = (λ e. ground arith, (λ e. ground arith, tt))

lookup_lem_run :
    (n : ℕ) × (connect 1 (mapped two []) ≡ some n)
    × (lookup n (mapped two []) (2 ∷ []) ≡ found (6 ∷ []))
lookup_lem_run = lookup_lem two [] (2 ∷ []) two-words (λ e. ground arith)

lookup-empty_run :
    (n : ℕ) × (connect 1 (mapped two []) ≡ some n) × (lookup n (mapped two []) [] ≡ found [])
lookup-empty_run = lookup-empty two [] two-words

two-IsRecord : All IsRecord two
two-IsRecord = (
  record {
    some_byte = λ e. ground arith;
    text = record { solid = (refl, tt); fits = omega arith };
  },
  (
    record {
      some_byte = λ e. ground arith;
      text = record { solid = (refl, tt); fits = omega arith };
    },
    tt,
  ),
)

remote_lookups_run :
    (stream_lookup 3 (mapped two []) [] (2 ∷ []) ≡ some (6 ∷ []))
    × (datagram_lookup 3 (mapped two []) [] (7 ∷ []) (2 ∷ []) ≡ some (6 ∷ []))
remote_lookups_run =
    remote_lookups two [] two-IsRecord [] (7 ∷ []) (2 ∷ [])
      (λ e. ground arith, record { solid = (refl, tt); fits = omega arith })

byte-IsAsked : (c : ℕ) → (c == 0) ≡ false → (c == 10) ≡ false → IsAsked (c ∷ [])
byte-IsAsked c visible inside = record {
  some_byte = λ e. ground arith;
  text = record { solid = (visible, tt); fits = omega arith };
  one_line = (inside, tt);
}

client_main-typed_example :
    (connect 1 (mapped two []) ≡ some 3)
    × (client_main (stream_lookup 3 (mapped two []) []) (3 ∷ 10 ∷ 1 ∷ 10 ∷ [])
        ≡ some (shown (meaning two) ((3 ∷ []) ∷ (1 ∷ []) ∷ [])))
    × (client_main (datagram_lookup 3 (mapped two []) [] []) (3 ∷ 10 ∷ 1 ∷ 10 ∷ [])
        ≡ some (shown (meaning two) ((3 ∷ []) ∷ (1 ∷ []) ∷ [])))
client_main-typed_example =
    client_main-typed two [] [] [] ((3 ∷ []) ∷ (1 ∷ []) ∷ []) two-IsRecord
      (byte-IsAsked 3 refl refl, (byte-IsAsked 1 refl refl, tt))

-- A read of 0 bytes, the end of the connection, is answered as the empty word is.
answers_the_end :
    serve_all 3 (mapped two []) (some [] ∷ none ∷ some (1 ∷ []) ∷ []) ≡ some (0 ∷ []) ∷ []
unfolding serve_all lookup
answers_the_end = refl

abbrev cat_entry : Entry
cat_entry = record { word = codes "cat"; lines = codes "A pet." ∷ [] }

cat-IsEntry : IsEntry cat_entry
cat-IsEntry = record {
  word = record {
    some_byte = λ e. ground arith;
    solid = (refl, (refl, (refl, tt)));
    fits = omega arith;
  };
  filled = (λ e. ground arith, tt);
  text = record { solid = (refl, (refl, (refl, (refl, (refl, (refl, tt)))))); fits = omega arith };
}

lookup1-convert_run :
    (file : Str) × (convert [] (codes "cat" ∷ codes "A pet." ∷ [] ∷ []) ≡ some file)
    × (lookup1 (codes "cat") file ≡ has (codes " pet."))
lookup1-convert_run =
    lookup1-convert (cat_entry ∷ []) (codes "cat") (cat-IsEntry, tt) (λ e. ground arith)

main_rounds-convert_example :
    (file : Str) × (convert [] (codes "cat" ∷ codes "A pet." ∷ [] ∷ []) ≡ some file)
    × (main_rounds 2 [] (codes "cat" ∷ []) file
        ≡ (answers (cat_entry ∷ []) (codes "cat" ∷ codes "cat" ∷ []), continues))
main_rounds-convert_example =
    main_rounds-convert 1 (cat_entry ∷ []) [] (codes "cat" ∷ []) (cat-IsEntry, tt)
      ((λ e. ground arith, omega arith), tt) (λ e. ground arith)

asked-IsKeys : All (λ (c : List Str × ℕ). All IsKey c.0) ((((2 ∷ []) ∷ (7 ∷ []) ∷ []), 2) ∷ [])
asked-IsKeys = (
  (
    (λ e. ground arith, record { solid = (refl, tt); fits = omega arith }),
    ((λ e. ground arith, record { solid = (refl, tt); fits = omega arith }), tt),
  ),
  tt,
)

udp_loop_lem_run :
    udp_loop 3 (mapped two []) (some (2 ∷ 0 ∷ []) ∷ []) ≡ some (padded 480 (6 ∷ [])) ∷ []
udp_loop_lem_run = udp_loop_lem two [] two-IsRecord [] ((2 ∷ []) ∷ []) (asked-IsKeys.0.0, tt)
