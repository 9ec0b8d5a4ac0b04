-- ===== src/Dict/Search.antt =====
-- What `my_connect` and `lookup` of hw11/part1/lookup5.c do on a file of records.
use nsysu_system_programming.Prelude.{
  ℕ, zero, suc, ◌+◌, ◌≡◌, refl, ap, ◌∙◌, ◌≢◌, inl, inr, false, some, List, [], ◌∷◌, ◌++◌, arith,
  if◌then◌else◌, Bool-cases, Option-cases, length, get_elem?, All, if_false, Str, str_eq, if_false,
}
use nsysu_system_programming.Dict.{
  Dictrec, empty_rec, is_empty, count_records, connect, Answer, found, notfound, lookup_from,
  lookup,
}

-- The text of the first record of the word.
abbrev pub definition : List Dictrec → Str → Answer
definition [] sought = notfound
definition (r ∷ rs) sought =
    let rest = definition rs sought in if str_eq sought r.word then found r.text else rest

-- The mapped table: the records of the file, at least one empty record, and what follows.
abbrev pub mapped : List Dictrec → List Dictrec → List Dictrec
mapped rs rest = rs ++ (empty_rec ∷ rest)

is_empty-word : (w : Str) → w ≢ [] → (is_empty w ≡ false) × (str_eq [] w ≡ false)
is_empty-word [] h = absurd (h refl)
is_empty-word (c ∷ w) h = (refl, refl)

count_records-mapped :
    (rs rest : List Dictrec) (n : ℕ)
    → All (λ (r : Dictrec). r.word ≢ []) rs
    → count_records n (mapped rs rest) ≡ some (n + length rs)
unfolding count_records
count_records-mapped [] rest n h = ap some (omega arith)
count_records-mapped (r ∷ rs) rest n h =
    rw (is_empty-word r.word h.0).0
      (count_records-mapped rs rest (suc n) h.1 ∙ ap some (omega arith))

lookup_from-cons :
    (n : ℕ) (r : Dictrec) (table : List Dictrec) (i : ℕ) (sought : Str)
    → lookup_from n (r ∷ table) (suc i) sought ≡ lookup_from n table i sought
unfolding lookup_from
lookup_from-cons zero r table i sought = refl
lookup_from-cons (suc n) r table i sought = elim (Option-cases (get_elem? table i)) [
  | inl e ↦ rw (e, lookup_from) refl
  | inr (cur, e) ↦ elim (Bool-cases (str_eq sought cur.word)) [
    | inl same ↦ rw (e, lookup_from) (rw (same, lookup_from) refl)
    | inr other ↦
        rw (e, lookup_from) (rw (other, lookup_from) (lookup_from-cons n r table (suc i) sought))
  ]
]

lookup_from-mapped :
    (rs rest : List Dictrec) (sought : Str)
    → lookup_from (suc (length rs)) (mapped rs rest) 0 sought
      ≡ definition (rs ++ (empty_rec ∷ [])) sought
unfolding lookup_from
lookup_from-mapped [] rest sought = refl
lookup_from-mapped (r ∷ rs) rest sought = elim (Bool-cases (str_eq sought r.word)) [
  | inl same ↦ rw same refl
  | inr other ↦ rw other (
      lookup_from-cons (suc (length rs)) r (mapped rs rest) 0 sought
      ∙ lookup_from-mapped rs rest sought)
]

definition-append :
    (rs : List Dictrec) (sought : Str)
    → sought ≢ []
    → definition (rs ++ (empty_rec ∷ [])) sought ≡ definition rs sought
definition-append [] [] h = absurd (h refl)
definition-append [] (c ∷ sought) h = refl
definition-append (r ∷ rs) sought h =
    ap (λ rest. if str_eq sought r.word then found r.text else rest) (definition-append rs sought h)

pub connect-mapped :
    (rs rest : List Dictrec)
    → All (λ (r : Dictrec). r.word ≢ []) rs
    → connect 1 (mapped rs rest) ≡ some (suc (length rs))
unfolding connect
connect-mapped rs rest h = count_records-mapped rs rest 1 h ∙ ap some (omega arith)

-- On a file of records with words, followed by an empty one, `my_connect` comes to its end, and every
-- search stays within the table. The search for a word gives the text of the first record of that
-- word, and NOTFOUND if there is none.
pub lookup_lem :
    (rs rest : List Dictrec) (sought : Str)
    → All (λ (r : Dictrec). r.word ≢ []) rs
    → sought ≢ []
    → (n : ℕ) × (connect 1 (mapped rs rest) ≡ some n)
      × (lookup n (mapped rs rest) sought ≡ definition rs sought)
unfolding connect lookup
lookup_lem rs rest sought h word = (
  suc (length rs),
  count_records-mapped rs rest 1 h ∙ ap some (omega arith),
  lookup_from-mapped rs rest sought ∙ definition-append rs sought word,
)

-- The empty text is always FOUND where the file's records have words, with an empty definition: the
-- search takes in the record that ends the table.
pub lookup-empty :
    (rs rest : List Dictrec)
    → All (λ (r : Dictrec). r.word ≢ []) rs
    → (n : ℕ) × (connect 1 (mapped rs rest) ≡ some n) × (lookup n (mapped rs rest) [] ≡ found [])
unfolding connect lookup
lookup-empty rs rest h = (
  suc (length rs),
  count_records-mapped rs rest 1 h ∙ ap some (omega arith),
  lookup_from-mapped rs rest [] ∙ empty_last rs h,
)
  where
    empty_last :
        (xs : List Dictrec)
        → All (λ (r : Dictrec). r.word ≢ []) xs
        → definition (xs ++ (empty_rec ∷ [])) [] ≡ found []
    empty_last [] hx = refl
    empty_last (x ∷ xs) hx = if_false _ (is_empty-word x.word hx.0).1 ∙ empty_last xs hx.1
