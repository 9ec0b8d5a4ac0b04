-- ===== src/Sh/Background.antt =====
-- The background and the wait of the first shell: is_background.c and run_command.c of hw2.
use nsysu_system_programming.Prelude.{
  ℕ, suc, ◌≡◌, refl, sym, ap, ◌∙◌, ◌≢◌, ◌⊎◌, inl, inr, Bool, true, false, none, some, List, [], ◌∷◌,
  ◌++◌, append_assoc, arith, Bool-cases, get_elem?, All, if_true, if_false, Str, codes, str_eq,
  str_eq_iff, decimal, if_true, if_false, decimal,
}
use nsysu_system_programming.Sh.{
  is_background, Report, failed, exited, signaled, stopped, continued, behind, parent_wait,
  drop_last, in_background, in_foreground, start, run_command,
}

abbrev pub ampersand : Str
ampersand = codes "&"

-- An argument is a lone ampersand.
abbrev pub Asks : List Str → Type 0
Asks argv = (i : ℕ) × (get_elem? argv i ≡ some ampersand)

is_background-cases :
    (argv : List Str)
    → ((is_background argv ≡ true) × Asks argv)
      ⊎ ((is_background argv ≡ false) × All (λ a. a ≢ ampersand) argv)
unfolding is_background
is_background-cases [] = inr (refl, tt)
is_background-cases (a ∷ argv) = elim (Bool-cases (str_eq a ampersand)) [
  | inl same ↦ inl (if_true _ same, (0, ap some ((str_eq_iff a ampersand).0 same)))
  | inr other ↦
      let differs : a ≢ ampersand = λ e. ground (arith, sym other ∙ (str_eq_iff a ampersand).1 e) in
      elim (is_background-cases argv) [
        | inl (yes_later, (i, there)) ↦ inl (if_false _ other ∙ yes_later, (suc i, there))
        | inr (not_later, none_later) ↦ inr (if_false _ other ∙ not_later, (differs, none_later))
      ]
]

drop_last-append : (xs : List Str) (a : Str) → drop_last (xs ++ (a ∷ [])) ≡ xs
drop_last-append [] a = refl
drop_last-append (x ∷ []) a = refl
drop_last-append (x ∷ y ∷ xs) a = ap (λ zs. x ∷ zs) (drop_last-append (y ∷ xs) a)

-- A command runs in the foreground with all of its arguments if none of them is an ampersand; if one
-- is, wherever it stands, the command runs in the background without its last argument, whichever
-- that is.
pub run_command_lem :
    (reports : List Report) (xs : List Str) (a : Str)
    → (All (λ w. w ≢ ampersand) (xs ++ (a ∷ []))
        × (run_command (some reports) (xs ++ (a ∷ []))
            ≡ in_foreground (xs ++ (a ∷ [])) (parent_wait reports)))
      ⊎ (Asks (xs ++ (a ∷ [])) × (run_command (some reports) (xs ++ (a ∷ [])) ≡ in_background xs))
unfolding run_command
run_command_lem reports xs a = elim (is_background-cases (xs ++ (a ∷ []))) [
  | inl (e, asks) ↦ inr (
    asks,
    ap (λ b. start b (xs ++ (a ∷ [])) reports) e ∙ ap in_background (drop_last-append xs a),
  )
  | inr (e, alone) ↦ inl (alone, ap (λ b. start b (xs ++ (a ∷ [])) reports) e)
]

-- The reports of a child that goes on.
abbrev pub IsQuiet : Report → Type 0
IsQuiet failed = ⊥
IsQuiet exited = ⊥
IsQuiet (signaled n) = ⊥
IsQuiet (stopped n) = Unit
IsQuiet continued = Unit

-- What the shell prints for a report.
abbrev pub note : Report → Str
note failed = []
note exited = []
note (signaled n) = codes "killed by signal " ++ decimal n ++ codes "\n"
note (stopped n) = codes "stopped by signal " ++ decimal n ++ codes "\n"
note continued = codes "continued\n"

abbrev pub notes : List Report → Str
notes [] = []
notes (r ∷ reports) = note r ++ notes reports

-- Only a failed `waitpid` ends the shell.
abbrev pub ends_shell : Report → Bool
ends_shell failed = true
ends_shell exited = false
ends_shell (signaled n) = false
ends_shell (stopped n) = false
ends_shell continued = false

waited-last :
    (r : Report) (rest : List Report)
    → IsQuiet r
      ⊎ (parent_wait (r ∷ rest) ≡ some (record { text = note r; shell_exits = ends_shell r }))
unfolding parent_wait
waited-last failed rest = inr refl
waited-last exited rest = inr refl
waited-last (signaled n) rest = inr refl
waited-last (stopped n) rest = inl tt
waited-last continued rest = inl tt

behind_quiet :
    (r : Report) (rest : List Report)
    → IsQuiet r
    → parent_wait (r ∷ rest) ≡ behind (note r) (parent_wait rest)
unfolding parent_wait
behind_quiet failed rest h = absurd h
behind_quiet exited rest h = absurd h
behind_quiet (signaled n) rest h = absurd h
behind_quiet (stopped n) rest h = refl
behind_quiet continued rest h = refl

-- The wait goes on through all reports of a child that was stopped or continued, and ends with the
-- first other one, whatever would come behind it: it has printed a note on each in their order, and
-- the shell goes on unless the call failed.
pub parent_wait_lem :
    (quiet rest : List Report) (r : Report)
    → All IsQuiet quiet
    → (IsQuiet r → ⊥)
    → (parent_wait quiet ≡ none)
      × (parent_wait (quiet ++ (r ∷ rest))
          ≡ some (record { text = notes quiet ++ note r; shell_exits = ends_shell r }))
unfolding parent_wait
parent_wait_lem [] rest r h last = elim (waited-last r rest) [
  | inl q ↦ absurd (last q)
  | inr e ↦ (refl, e)
]
parent_wait_lem (q ∷ quiet) rest r h last =
    let (waits, ends) = parent_wait_lem quiet rest r h.1 last in
    (
      behind_quiet q quiet h.0 ∙ ap (behind (note q)) waits,
      behind_quiet q (quiet ++ (r ∷ rest)) h.0
          ∙ ap (behind (note q)) ends
          ∙ ap (λ zs. some (record { text = zs; shell_exits = ends_shell r }))
              (sym (append_assoc (note q) (notes quiet) (note r))),
    )
