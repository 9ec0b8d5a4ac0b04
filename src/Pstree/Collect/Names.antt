-- ===== src/Pstree/Collect/Names.antt =====
-- The cache of user names of `uid2user` (hw3/part2.c).
use mathlib.Core.Logic.{⊎_elim}
use nsysu_system_programming.Prelude.{
  true, false, Bool, ℕ, ◌-◌, ◌≤◌, ◌≡◌, refl, sym, ap, ◌∙◌, ◌⊎◌, inl, inr, Bool, Option, some, List,
  [], ◌∷◌, arith, ltb, Bool-cases, Option-cases, length, take, All, length-take, Str, ℤ, int_eq,
  int_eq_iff,
}
use nsysu_system_programming.Pstree.Table.{Proc}
use nsysu_system_programming.Pstree.Collect.{
  Cache, num_un, find_user, ask_user, lookup_user, uid2user, get_processes, table,
}

module _ (getpwuid : ℤ → Option Str) where
  -- Every entry holds the first 8 bytes of the name of its user, and the cache fits its array.
  pub record IsCache (un : Cache) : Type 0 where
    pub names : All (λ (e : ℤ × Str). e.1 ≡ take 8 (ask_user getpwuid e.0)) un
    pub room : length un ≤ num_un

  find_user-some :
      (un : Cache) (uid : ℤ) (name : Str)
      → All (λ (e : ℤ × Str). e.1 ≡ take 8 (ask_user getpwuid e.0)) un
      → find_user un uid ≡ some name
      → name ≡ take 8 (ask_user getpwuid uid)
  unfolding find_user
  find_user-some [] uid name h e = cc
  find_user-some ((u, n) ∷ un) uid name h e = elim (Bool-cases (int_eq u uid)) [
    | inl same ↦
        let here : n ≡ name = ground arith in
        sym here ∙ h.0 ∙ ap (λ v. take 8 (ask_user getpwuid v)) ((int_eq_iff u uid).0 same)
    | inr other ↦ find_user-some un uid name h.1 (ground arith)
  ]

  lookup_user-IsCache :
      (un : Cache) (uid : ℤ) → IsCache un → IsCache (lookup_user getpwuid un uid).1
  unfolding lookup_user
  lookup_user-IsCache un uid c = elim (Option-cases (find_user un uid)) [
    | inr (name, e) ↦ rw (e, lookup_user) c
    | inl e ↦ elim (Bool-cases (ltb (length un) num_un)) [
      | inl room ↦
          rw (e, lookup_user)
            (rw (room, lookup_user) (record { names = (refl, c.names); room = ground arith }))
      | inr full ↦ rw (e, lookup_user) (rw (full, lookup_user) c)
    ]
  ]

  lookup_user-name :
      (un : Cache) (uid : ℤ)
      → IsCache un
      → ((lookup_user getpwuid un uid).0 ≡ ask_user getpwuid uid)
        ⊎ ((lookup_user getpwuid un uid).0 ≡ take 8 (ask_user getpwuid uid))
  unfolding lookup_user
  lookup_user-name un uid c = elim (Option-cases (find_user un uid)) [
    | inr (name, e) ↦ inr (rw (e, lookup_user) (find_user-some un uid name c.names e))
    | inl e ↦ inl (rw (e, lookup_user))
  ]

  -- The name that `uid2user` copies out is that of the user, cut off after `len - 1` bytes, or after
  -- 8 bytes if it came from the cache; and the cache stays within its 128 entries, each with the
  -- first 8 bytes of the name of its user.
  pub uid2user_lem :
      (un : Cache) (uid : ℤ) (len : ℕ)
      → IsCache un
      → (((uid2user getpwuid un uid len).0 ≡ take (len - 1) (ask_user getpwuid uid))
          ⊎ ((uid2user getpwuid un uid len).0 ≡ take (len - 1) (take 8 (ask_user getpwuid uid))))
        × IsCache (uid2user getpwuid un uid len).1
  unfolding uid2user
  uid2user_lem un uid len c = (
    ⊎_elim (λ e. inl (ap (take (len - 1)) e)) (λ e. inr (ap (take (len - 1)) e))
        (lookup_user-name un uid c),
    lookup_user-IsCache un uid c,
  )

  pub length-uid2user :
      (un : Cache) (uid : ℤ) (len : ℕ) → length (uid2user getpwuid un uid len).0 ≤ len - 1
  unfolding uid2user
  length-uid2user un uid len = rw length-take (omega arith)

-- `GetProcesses` comes back with a table only if the input is "-" and has no line.
pub get_processes-table :
    (is_dash : Bool) (realloc : ℕ → Bool) (lines : List Str) (ps : List Proc)
    → get_processes is_dash realloc lines ≡ table ps
    → (is_dash ≡ true) × (lines ≡ []) × (ps ≡ [])
unfolding get_processes
get_processes-table false realloc lines ps h = ground arith
get_processes-table true realloc [] ps h = (refl, refl, ground arith)
get_processes-table true realloc (l ∷ ls) ps h = ground arith
