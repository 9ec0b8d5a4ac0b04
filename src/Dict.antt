-- ===== src/Dict.antt =====
-- The dictionary of hw11/part1/lookup5.c, which hw11/part2 and hw11/part3 have too: a file of records
-- that is mapped into memory, and a linear search in it.
pub mod Search
pub mod Remote
pub mod Convert
pub mod Ask
mod Tests
use nsysu_system_programming.Prelude.{
  ℕ, zero, suc, Bool, true, false, Option, none, some, List, [], ◌∷◌, if◌then◌else◌, get_elem?, Str,
  str_eq,
}

-- The two texts, each up to its NUL.
pub record Dictrec : Type 0 where
  pub word : Str
  pub text : Str

-- A record of NUL bytes.
abbrev pub empty_rec : Dictrec
empty_rec = record { word = []; text = [] }

abbrev pub is_empty : Str → Bool
is_empty [] = true
is_empty (c ∷ s) = false

-- The loop of `init_dict_table` over the records from the first on, which adds to `dict_len`; `none`
-- is an access behind the last record that is mapped.
unfoldable pub count_records : ℕ → List Dictrec → Option ℕ
count_records dict_len [] = none
count_records dict_len (r ∷ rs) =
    let rest = count_records (suc dict_len) rs in if is_empty r.word then some dict_len else rest

-- `my_connect`, from what `dict_len` is before; it begins at 1.
unfoldable pub connect : ℕ → List Dictrec → Option ℕ
unfolding count_records
connect dict_len table = count_records dict_len table

-- FOUND with the text that is copied, NOTFOUND, or an access behind the last record.
pub data Answer : Type 0 where
  found : (text : Str) → Answer
  notfound : Answer
  faulted : Answer

-- The loop of `lookup`, for `n` values of `i` from `i` on.
unfoldable pub lookup_from : ℕ → List Dictrec → ℕ → Str → Answer
lookup_from zero table i sought = notfound
lookup_from (suc n) table i sought =
    let rest = lookup_from n table (suc i) sought in
    elim (get_elem? table i) [
      | none ↦ faulted
      | some cur ↦ if str_eq sought cur.word then found cur.text else rest
    ]

unfoldable pub lookup : ℕ → List Dictrec → Str → Answer
unfolding lookup_from
lookup dict_len table sought = lookup_from dict_len table 0 sought
