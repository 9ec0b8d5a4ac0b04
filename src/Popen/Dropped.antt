-- ===== src/Popen/Dropped.antt =====
-- What `drop` of hw5/2/dict.cpp closes.
use native.Mathlib.Decide.{ℕ_discrete}
use nsysu_system_programming.Prelude.{
  ℕ, ◌≡◌, refl, sym, ap, ◌∙◌, ◌≢◌, inl, inr, none, some, List, [], ◌∷◌, some_inj, none_ne_some,
}
use nsysu_system_programming.Popen.Table.{
  lookup, erase, Distinct, lookup-erase_ne, lookup-erase_self,
}
use nsysu_system_programming.Popen.Streams.{
  Streams, after_close, fclose_open, other_key, after_close-Streams,
}
use nsysu_system_programming.Popen.Calls.{cons_cases, lookup_ne, lookup_here}
use nsysu_system_programming.Popen.{Stream, Process, Pid, and_then, close_all}

-- What the loop of `drop` leaves of the descriptors.
pub record Dropped (t : List (ℕ × Pid)) (p q : Process) : Type 0 where
  pub gone :
      (k : ℕ) (n : Pid) (s : Stream)
      → lookup k t ≡ some n
      → lookup k p.streams ≡ some s
      → lookup s.fd q.fds ≡ none
  pub kept :
      (d : ℕ)
      → ((k : ℕ) (n : Pid) (s : Stream)
          → lookup k t ≡ some n
          → lookup k p.streams ≡ some s
          → d ≢ s.fd)
      → lookup d q.fds ≡ lookup d p.fds
  pub absent : (d : ℕ) → lookup d p.fds ≡ none → lookup d q.fds ≡ none

absent-erase {ℓ} :
    {A : Type ℓ} (d k : ℕ) (t : List (ℕ × A)) → lookup d t ≡ none → lookup d (erase k t) ≡ none
absent-erase d k t h = elim (ℕ_discrete d k) [
  | yes same ↦ ap (λ i. lookup i (erase k t)) same ∙ lookup-erase_self k t
  | no differs ↦ lookup-erase_ne d k t differs ∙ h
]

abbrev pub Knows : List (ℕ × Pid) → Process → Type 0
Knows t p = (k : ℕ) (n : Pid) → lookup k t ≡ some n → (s : Stream) × (lookup k p.streams ≡ some s)

not_first :
    (fp k : ℕ) (n : Pid) (t : List (ℕ × Pid)) → lookup fp t ≡ none → lookup k t ≡ some n → k ≢ fp
not_first fp k n t h e same = none_ne_some (sym h ∙ ap (λ i. lookup i t) (sym same) ∙ e)

pub close_all_lem :
    (t : List (ℕ × Pid)) (p : Process)
    → Streams p
    → Distinct t
    → Knows t p
    → (q : Process) × (close_all t p ≡ some q) × Dropped t p q
unfolding close_all Distinct lookup
close_all_lem [] p v d known = (
  p,
  refl,
  record { gone = λ k n s e h. absurd (none_ne_some e); kept = λ i h. refl; absent = λ i h. h },
)
close_all_lem ((fp, n) ∷ t) p v d known =
    let first = known fp n (lookup_here fp n t) in
    let s = first.0 in
    let rest =
      close_all_lem t (after_close fp s p) (after_close-Streams fp s p first.1 v) d.1 (λ k m e.
        let differs = not_first fp k m t d.0 e in
        let was = known k m (lookup_ne k fp n t differs ∙ e) in
        (was.0, lookup-erase_ne k fp p.streams differs ∙ was.1)) in
    (
      rest.0,
      ap (and_then (close_all t)) (fclose_open fp s p first.1) ∙ rest.1,
      record {
        gone = λ k m u e h. elim (cons_cases k fp n m t e) [
          | inl (same, _) ↦ rest.2.absent u.fd (
              ap (λ z. lookup (Stream.fd z) (erase s.fd p.fds))
                (some_inj (sym h ∙ ap (λ i. lookup i p.streams) same ∙ first.1))
              ∙ lookup-erase_self s.fd p.fds)
          | inr (differs, old) ↦ rest.2.gone k m u old (lookup-erase_ne k fp p.streams differs ∙ h)
        ];
        kept = λ i no.
            rest.2.kept i (λ k m u e h.
              no k m u (lookup_ne k fp n t (not_first fp k m t d.0 e) ∙ e)
                (other_key k fp u p.streams h).1)
            ∙ lookup-erase_ne i s.fd p.fds (no fp n s (lookup_here fp n t) first.1);
        absent = λ i h. rest.2.absent i (absent-erase i s.fd p.fds h);
      },
    )
