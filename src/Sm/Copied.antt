-- ===== src/Sm/Copied.antt =====
-- What main.c of hw9/49-1 leaves in the files.
use nsysu_system_programming.Prelude.{
  ℕ, ◌≡◌, refl, sym, ap, ◌∙◌, ◌≢◌, inl, inr, true, false, not, some, List, [], ◌∷◌, ◌++◌,
  append-nil, arith, ◌==◌, if◌then◌else◌, Bool-cases, Option-cases, length, take, drop, replicate,
  length-append, length-take, length-replicate, if_true, if_false, Str, str_eq, str_eq_iff,
  str_eq_self, drop-out, take-append, take-all, if_true, if_false, some_inj, none_ne_some,
}
use nsysu_system_programming.Sm.{
  Files, put, Sm, open_file, content, mapped, new_sm, resized, set_len, delete_sm, copy_bytes,
  with_dst, with_src, copy_main,
}

put_self : (files : Files) (name s : Str) → put files name s name ≡ some s
put_self files name s = if_true (files name) (str_eq_self name)

put_other :
    (files : Files) (name s other : Str) → other ≢ name → put files name s other ≡ files other
put_other files name s other h = elim (Bool-cases (str_eq other name)) [
  | inl e ↦ absurd (h ((str_eq_iff other name).0 e))
  | inr e ↦ if_false (some s) e
]

length-resized : (n : ℕ) (s : Str) → length (resized n s) ≡ n
length-resized n s = omega (
  arith,
  length-take n (s ++ replicate n 0),
  length-append s (replicate n 0),
  length-replicate {A = ℕ} n 0,
)

resized_self : (s : Str) → resized (length s) s ≡ s
resized_self s = take-append s (replicate (length s) 0)

module _ (src dst s : Str) where
  -- The source is whole behind the change of the destination's length, also if the two are one file.
  source_kept :
      (files : Files) (d : Str)
      → files src ≡ some s
      → files dst ≡ some d
      → content (put files dst (resized (length s) d) src) ≡ s
  source_kept files d hs hd = elim (Bool-cases (str_eq src dst)) [
    | inl e ↦
        let one : src ≡ dst = (str_eq_iff src dst).0 e in
        let same : d ≡ s = some_inj (sym hd ∙ (ap files (sym one) ∙ hs)) in
        ap content (if_true (files src) e) ∙ ap (resized (length s)) same ∙ resized_self s
    | inr e ↦ ap content (if_false (some (resized (length s) d)) e) ∙ ap content hs
  ]

  -- The files at the end, from those behind the two calls of `open`.
  abbrev sm_of : Str → ℕ → Sm
  sm_of name n = record { fd = name; len = n; ptr = not (n == 0) }

  copied_files :
      (files : Files) (d other : Str)
      → files src ≡ some s
      → files dst ≡ some d
      → copy_bytes (put files dst (resized (length s) d)) dst src (length s) other
        ≡ put files dst s other
  copied_files files d other hs hd =
      let resized_d = resized (length s) d in
      let grown = put files dst resized_d in
      let whole : take (length s) (content (grown src)) ++ drop (length s) (content (grown dst))
          ≡ s =
        ap (λ a. take (length s) a ++ drop (length s) (content (grown dst)))
          (source_kept files d hs hd)
        ∙ ap (λ a. take (length s) s ++ drop (length s) (content a)) (put_self files dst resized_d)
        ∙ ap (λ a. take (length s) s ++ a)
            (drop-out (length s) resized_d (omega (arith, length-resized (length s) d)))
        ∙ append-nil (take (length s) s)
        ∙ take-all (length s) s (omega arith) in
      elim (Bool-cases (str_eq other dst)) [ inl e ↦ rw e (ap some whole) | inr e ↦ rw e refl ]

  -- The descriptors that stay open.
  abbrev pub left_open : List Str
  left_open = if length s == 0 then src ∷ dst ∷ [] else []

  open_cases :
      (files : Files)
      → files src ≡ some s
      → (opened : Files) × (d : Str) × (open_file files dst true ≡ some opened)
        × (opened src ≡ some s)
        × (opened dst ≡ some d)
        × ((other : Str) → put opened dst s other ≡ put files dst s other)
  open_cases files hs = elim (Option-cases (files dst)) [
    | inr (d, hd) ↦ (files, d, rw (hd, open_file) refl, hs, hd, λ other. refl)
    | inl gone ↦
        let differ : src ≢ dst = λ one. none_ne_some (sym gone ∙ (ap files (sym one) ∙ hs)) in
        (
          put files dst [],
          [],
          rw (gone, open_file) refl,
          put_other files dst [] src differ ∙ hs,
          put_self files dst [],
          λ other. if_keeps_put files other,
        )
  ]
    where
      if_keeps_put : (f : Files) (other : Str) → put (put f dst []) dst s other ≡ put f dst s other
      if_keeps_put f other = elim (Bool-cases (str_eq other dst)) [
        | inl e ↦ rw e refl
        | inr e ↦ rw e refl
      ]

  -- Behind the two calls of `open` the program comes to its end.
  copy_main-opened :
      (files opened : Files) (d : Str)
      → files src ≡ some s
      → open_file files dst true ≡ some opened
      → opened dst ≡ some d
      → copy_main files src dst
        ≡ some (copy_bytes (put opened dst (resized (length s) d)) dst src (length s), left_open)
  unfolding copy_main new_sm with_src with_dst set_len delete_sm
  copy_main-opened files opened d hs ho hd =
      let first : open_file files src false ≡ some files = rw (hs, open_file) refl in
      ap (λ o. with_src dst (mapped src o)) first
      ∙ ap (λ n. with_dst (sm_of src n) (new_sm files dst true)) (ap (λ o. length (content o)) hs)
      ∙ ap (λ o. with_dst (sm_of src (length s)) (mapped dst o)) ho
      ∙ ap
          (λ o.
            some (
              copy_bytes (put opened dst (resized (length s) (content o))) dst src (length s),
              ends,
            ))
          hd
      ∙ ap (λ l. some (copy_bytes (put opened dst (resized (length s) d)) dst src (length s), l))
          left_eq
    where
      ends : List Str
      ends = delete_sm (sm_of src (length s)) ++ delete_sm (sm_of dst (length s))

      left_eq : ends ≡ left_open
      left_eq = elim (Bool-cases (length s == 0)) [ inl e ↦ rw e refl | inr e ↦ rw e refl ]

  -- If the source is there the program comes to its end with the destination, there before or not, as
  -- a copy of it, and every other file as it was; also when the two are one file. If the source is
  -- empty both descriptors stay open.
  pub copy_main_lem :
      (files : Files)
      → files src ≡ some s
      → (after : Files) × (copy_main files src dst ≡ some (after, left_open))
        × ((other : Str) → after other ≡ put files dst s other)
  copy_main_lem files hs =
      let (opened, d, ho, hs', hd, same) = open_cases files hs in
      (
        copy_bytes (put opened dst (resized (length s) d)) dst src (length s),
        copy_main-opened files opened d hs ho hd,
        λ other. copied_files opened d other hs' hd ∙ same other,
      )
