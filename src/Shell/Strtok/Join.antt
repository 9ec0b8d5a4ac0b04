-- ===== src/Shell/Strtok/Join.antt =====
-- The tokens of texts that were joined, and what tokens are in any text.
use nsysu_system_programming.Prelude.{
  ℕ, ◌≡◌, refl, sym, ap, ◌∙◌, ◌≢◌, inl, inr, Bool, true, false, List, [], ◌∷◌, ◌++◌, append-nil,
  append_assoc, arith, if◌then◌else◌, Bool-cases, All, All-append, Str,
}
use nsysu_system_programming.Shell.Strtok.{flush, tokens}

pub record IsToken (is_delim : ℕ → Bool) (w : Str) : Type 0 where
  pub some_byte : w ≢ []
  pub solid : All (λ c. is_delim c ≡ false) w

-- The words with the separator between each two.
abbrev pub join : Str → List Str → Str
join sep [] = []
join sep (w ∷ []) = w
join sep (w ∷ v ∷ ws) = w ++ (sep ++ join sep (v ∷ ws))

-- The bytes of a text that are no delimiters.
abbrev pub without : (ℕ → Bool) → Str → Str
without is_delim [] = []
without is_delim (c ∷ s) = let rest = without is_delim s in if is_delim c then rest else c ∷ rest

abbrev pub concat : List Str → Str
concat [] = []
concat (w ∷ ws) = w ++ concat ws

module _ (is_delim : ℕ → Bool) where
  flush-word : (w : Str) (rest : List Str) → w ≢ [] → flush w rest ≡ w ∷ rest
  flush-word [] rest h = absurd (h refl)
  flush-word (c ∷ w) rest h = refl

  pub tokens-word :
      (w cur s : Str)
      → All (λ c. is_delim c ≡ false) w
      → tokens is_delim cur (w ++ s) ≡ tokens is_delim (cur ++ w) s
  unfolding tokens
  tokens-word [] cur s h = ap (λ zs. tokens is_delim zs s) (sym (append-nil cur))
  tokens-word (c ∷ w) cur s h = rw h.0 (
      tokens-word w (cur ++ (c ∷ [])) s h.1
      ∙ ap (λ zs. tokens is_delim zs s) (append_assoc cur (c ∷ []) w))

  -- Delimiters in front of a text give no token.
  pub tokens_skip :
      (gap s : Str)
      → All (λ c. is_delim c ≡ true) gap
      → tokens is_delim [] (gap ++ s) ≡ tokens is_delim [] s
  unfolding tokens
  tokens_skip [] s h = refl
  tokens_skip (c ∷ gap) s h = rw h.0 (tokens_skip gap s h.1)

  pub tokens_ended :
      (d : ℕ) (gap w s : Str)
      → IsToken is_delim w
      → is_delim d ≡ true
      → All (λ c. is_delim c ≡ true) gap
      → tokens is_delim w ((d ∷ gap) ++ s) ≡ w ∷ tokens is_delim [] s
  unfolding tokens
  tokens_ended d gap w s h hd hgap = rw hd (
      flush-word w (tokens is_delim [] (gap ++ s)) h.some_byte
      ∙ ap (λ zs. w ∷ zs) (tokens_skip gap s hgap))

  pub tokens-join :
      (d : ℕ) (gap : Str) (ws : List Str)
      → is_delim d ≡ true
      → All (λ c. is_delim c ≡ true) gap
      → All (IsToken is_delim) ws
      → tokens is_delim [] (join (d ∷ gap) ws) ≡ ws
  unfolding tokens
  tokens-join d gap [] hd hgap h = refl
  tokens-join d gap (w ∷ []) hd hgap h =
      ap (tokens is_delim []) (sym (append-nil w))
      ∙ (tokens-word w [] [] h.0.solid ∙ flush-word w [] h.0.some_byte)
  tokens-join d gap (w ∷ v ∷ ws) hd hgap h =
      tokens-word w [] ((d ∷ gap) ++ join (d ∷ gap) (v ∷ ws)) h.0.solid
      ∙ (tokens_ended d gap w (join (d ∷ gap) (v ∷ ws)) h.0 hd hgap
          ∙ ap (λ zs. w ∷ zs) (tokens-join d gap (v ∷ ws) hd hgap h.1))

  flush-IsToken :
      (w : Str) (rest : List Str)
      → All (λ c. is_delim c ≡ false) w
      → All (IsToken is_delim) rest
      → All (IsToken is_delim) (flush w rest)
  flush-IsToken [] rest h hrest = hrest
  flush-IsToken (c ∷ w) rest h hrest = (record { some_byte = λ e. ground arith; solid = h }, hrest)

  -- Every token of a text is a nonempty run of bytes that are no delimiters.
  pub tokens-IsToken :
      (cur s : Str)
      → All (λ c. is_delim c ≡ false) cur
      → All (IsToken is_delim) (tokens is_delim cur s)
  unfolding tokens
  tokens-IsToken cur [] h = flush-IsToken cur [] h tt
  tokens-IsToken cur (c ∷ s) h = elim (Bool-cases (is_delim c)) [
    | inl e ↦ rw e (flush-IsToken cur (tokens is_delim [] s) h (tokens-IsToken [] s tt))
    | inr e ↦ rw e (
        tokens-IsToken (cur ++ (c ∷ [])) s
          (All-append (λ c. is_delim c ≡ false) cur (c ∷ []) h (e, tt)))
  ]

  concat-flush : (w : Str) (rest : List Str) → concat (flush w rest) ≡ w ++ concat rest
  concat-flush [] rest = refl
  concat-flush (c ∷ w) rest = refl

  -- The tokens hold every byte of a text that is no delimiter, in its order.
  pub concat-tokens : (cur s : Str) → concat (tokens is_delim cur s) ≡ cur ++ without is_delim s
  unfolding tokens
  concat-tokens cur [] = concat-flush cur []
  concat-tokens cur (c ∷ s) = elim (Bool-cases (is_delim c)) [
    | inl e ↦
        rw e (concat-flush cur (tokens is_delim [] s) ∙ ap (λ zs. cur ++ zs) (concat-tokens [] s))
    | inr e ↦
        rw e (concat-tokens (cur ++ (c ∷ [])) s ∙ append_assoc cur (c ∷ []) (without is_delim s))
  ]
