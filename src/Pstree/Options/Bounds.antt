-- ===== src/Pstree/Options/Bounds.antt =====
-- The bounds that `main` of hw3/part2.c keeps for the buffers and tables of `PrintTree`.
use nsysu_system_programming.Prelude.{
  ℕ, ◌≤◌, ◌<◌, ◌≡◌, refl, inl, inr, Bool, List, [], ◌∷◌, arith, leb, ◌==◌, Bool-cases, if_keeps,
  Str, ℤ, pos, negsuc, atoi,
}
use nsysu_system_programming.Pstree.Print.{max_line}
use nsysu_system_programming.Pstree.Options.{
  Settings, Parsed, settings, invalid_graph, no_user, usage, set_graph, set_depth, apply_option,
  parse_options, columns,
}

-- The row of `TreeChars` exists, and at least one level is printed.
pub record IsValid (s : Settings) : Type 0 where
  pub graph_in : s.graph < 4
  pub deep : 1 ≤ s.max_depth

abbrev IsValidParsed : Parsed → Type 0
IsValidParsed (settings s) = IsValid s
IsValidParsed invalid_graph = Unit
IsValidParsed (no_user u) = Unit
IsValidParsed usage = Unit

set_graph-IsValid : (s : Settings) (n : ℤ) → IsValid s → IsValidParsed (set_graph s n)
set_graph-IsValid s (pos n) v = elim (Bool-cases (leb 4 n)) [
  | inl big ↦ rw big tt
  | inr small ↦ rw small (record { graph_in = ground arith; deep = v.deep })
]
set_graph-IsValid s (negsuc n) v = tt

set_depth-IsValid : (s : Settings) (n : ℤ) → IsValid s → IsValid (set_depth s n)
set_depth-IsValid s (pos n) v = ground arith
set_depth-IsValid s (negsuc n) v = record { graph_in = v.graph_in; deep = omega arith }

apply_option-IsValid :
    (getpwnam : Str → Bool) (s : Settings) (ch : ℕ) (optarg : Str)
    → IsValid s
    → IsValidParsed (apply_option getpwnam s ch optarg)
unfolding apply_option
apply_option-IsValid getpwnam s ch optarg v = if_keeps IsValidParsed (ch == b'f') (omega arith) (
    if_keeps IsValidParsed (ch == b'g') (set_graph-IsValid s (atoi optarg) v) (
      if_keeps IsValidParsed (ch == b'l') (set_depth-IsValid s (atoi optarg) v) (
        if_keeps IsValidParsed (ch == b'H') (omega arith) (
          if_keeps IsValidParsed (ch == b'n') (omega arith) (
            if_keeps IsValidParsed (ch == b'r') (omega arith) (
              if_keeps IsValidParsed (ch == b'p') (omega arith) (
                if_keeps IsValidParsed (ch == b's') (omega arith) (
                  if_keeps IsValidParsed (ch == b'u')
                    (if_keeps IsValidParsed (getpwnam optarg) (omega arith) tt)
                    (if_keeps IsValidParsed (ch == b'U') (omega arith)
                      (if_keeps IsValidParsed (ch == b'w') (omega arith) tt))))))))))

-- Options that do not end the program leave a valid graphics row and at least one level.
pub parse_options-IsValid :
    (getpwnam : Str → Bool) (s s' : Settings) (opts : List (ℕ × Str))
    → IsValid s
    → parse_options getpwnam s opts ≡ settings s'
    → IsValid s'
unfolding parse_options
parse_options-IsValid getpwnam s s' [] v e = ground arith
parse_options-IsValid getpwnam s s' ((ch, optarg) ∷ rest) v e =
    go (apply_option getpwnam s ch optarg) refl (apply_option-IsValid getpwnam s ch optarg v)
      (λ t. parse_options-IsValid getpwnam t s' rest)
  where
    go :
        (p : Parsed)
        → apply_option getpwnam s ch optarg ≡ p
        → IsValidParsed p
        → ((t : Settings) → IsValid t → parse_options getpwnam t rest ≡ settings s' → IsValid s')
        → IsValid s'
    go (settings t) h vt ih = ih t vt (rw (h, parse_options) at e)
    go invalid_graph h vt ih = absurd (cc (rw (h, parse_options) at e))
    go (no_user u) h vt ih = absurd (cc (rw (h, parse_options) at e))
    go usage h vt ih = absurd (cc (rw (h, parse_options) at e))

-- `Columns` is at least 1 and below `MAXLINE`, whatever the options and the window are, so the
-- write to `out[Columns - 1]` stays within `out`.
pub columns_bounds :
    (s : Settings) (ws_col : ℕ) → (1 ≤ columns s ws_col) × (columns s ws_col < max_line)
unfolding columns
columns_bounds s ws_col = ground arith
