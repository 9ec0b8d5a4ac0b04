-- ===== src/Popen/Calls.antt =====
-- The calls of `my_popen` and `my_pclose` of hw5/2/popen.c that a process makes.
use native.Mathlib.Decide.{ℕ_discrete}
use nsysu_system_programming.Prelude.{
  ℕ, ◌≡◌, sym, ap, ◌∙◌, ◌≢◌, ◌⊎◌, inl, inr, Bool, true, false, not, none, some, List, [], ◌∷◌,
  arith, ==_iff, ==_self, ==-false, Option-cases, if_true, if_false, if_true, if_false, some_inj,
  none_ne_some,
}
use mathlib.Core.Path.{subst}
use nsysu_system_programming.Popen.Table.{
  lookup, erase, insert, lookup-erase_ne, erase-absent, lookup-insert, insert-Distinct,
  erase-Distinct,
}
use nsysu_system_programming.Popen.Streams.{
  Streams, IsValid, Named, after_close, other_key, after_close-Streams,
}
use nsysu_system_programming.Popen.{
  End, Stream, Process, Pid, reads_pipe, writes_pipe, with_pipe, end_at,
}

-- What `pipe` and `fdopen` give is not in use.
pub record Fresh (fd : ℕ × ℕ) (fp : ℕ) (p : Process) : Type 0 where
  pub two : fd.0 ≢ fd.1
  pub read_free : lookup fd.0 p.fds ≡ none
  pub write_free : lookup fd.1 p.fds ≡ none
  pub fp_free : lookup fp p.streams ≡ none

-- The stream that `my_popen` makes, and the parent after it.
abbrev pub new_stream : Bool → ℕ × ℕ → Stream
new_stream is_write fd = record { fd = end_at fd is_write; pending = [] }

abbrev pub own_end : Bool → ℕ → End
own_end false id = reads_pipe id
own_end true id = writes_pipe id

abbrev pub opened : Bool → (id : ℕ) → ℕ × ℕ → ℕ → Pid → Process → Process
opened is_write id fd fp n p = record p {
  fds = erase (end_at fd (not is_write)) (with_pipe id fd p).fds;
  streams = (fp, new_stream is_write fd) ∷ p.streams;
  dict = insert fp n p.dict;
}

pub opened-fds :
    (is_write : Bool) (id : ℕ) (fd : ℕ × ℕ) (fp : ℕ) (n : Pid) (p : Process)
    → Fresh fd fp p
    → (opened is_write id fd fp n p).fds ≡ (end_at fd is_write, own_end is_write id) ∷ p.fds
unfolding erase
opened-fds false id fd fp n p f = ground (arith, f.two, erase-absent fd.1 p.fds f.write_free)
opened-fds true id fd fp n p f = ground (arith, f.two, erase-absent fd.0 p.fds f.read_free)

pub end_free :
    (is_write : Bool) (fd : ℕ × ℕ) (fp : ℕ) (p : Process)
    → Fresh fd fp p
    → lookup (end_at fd is_write) p.fds ≡ none
end_free false fd fp p f = f.read_free
end_free true fd fp p f = f.write_free

-- An entry behind another one.
pub cons_cases {ℓ} :
    {A : Type ℓ} (k i : ℕ) (a b : A) (t : List (ℕ × A))
    → lookup k ((i, a) ∷ t) ≡ some b
    → ((k ≡ i) × (a ≡ b)) ⊎ ((k ≢ i) × (lookup k t ≡ some b))
unfolding lookup
cons_cases k i a b t e = elim (ℕ_discrete k i) [
  | yes same ↦ inl (same, some_inj (sym (if_true _ ((==_iff k i).1 same)) ∙ e))
  | no differs ↦ inr (differs, sym (if_false _ (==-false k i differs)) ∙ e)
]

pub lookup_ne {ℓ} :
    {A : Type ℓ} (k i : ℕ) (a : A) (t : List (ℕ × A)) → k ≢ i → lookup k ((i, a) ∷ t) ≡ lookup k t
unfolding lookup
lookup_ne k i a t h = if_false _ (==-false k i h)

pub lookup_here {ℓ} :
    {A : Type ℓ} (k : ℕ) (a : A) (t : List (ℕ × A)) → lookup k ((k, a) ∷ t) ≡ some a
unfolding lookup
lookup_here k a t = if_true _ (==_self k)

opened-Streams :
    (is_write : Bool) (id : ℕ) (fd : ℕ × ℕ) (fp : ℕ) (n : Pid) (p : Process)
    → Fresh fd fp p
    → Streams p
    → Streams (opened is_write id fd fp n p)
opened-Streams is_write id fd fp n p f v =
    let new = opened-fds is_write id fd fp n p f in
    let free = end_free is_write fd fp p f in
    let not_new : (k : ℕ) (t : Stream) → lookup k p.streams ≡ some t → t.fd ≢ end_at fd is_write =
      λ k t e same.
        none_ne_some (sym free ∙ ap (λ d. lookup d p.fds) (sym same) ∙ (v.open_fd k t e).1) in
    record {
      open_fd = λ k t e. elim (cons_cases k fp (new_stream is_write fd) t p.streams e) [
        | inl (same, is_new) ↦ (
          own_end is_write id,
          subst
              (λ u.
                lookup (Stream.fd u) (opened is_write id fd fp n p).fds
                ≡ some (own_end is_write id))
              is_new
              (ap (lookup (end_at fd is_write)) new ∙ lookup_here (end_at fd is_write) _ p.fds),
        )
        | inr (differs, old) ↦
            let was = v.open_fd k t old in
            (
              was.0,
              ap (lookup t.fd) new
                  ∙ lookup_ne t.fd (end_at fd is_write) _ p.fds (not_new k t old)
                  ∙ was.1,
            )
      ];
      apart = λ k j t u e g same. elim (cons_cases k fp (new_stream is_write fd) t p.streams e) [
        | inl (here, is_new) ↦ elim (cons_cases j fp (new_stream is_write fd) u p.streams g) [
          | inl (there, _) ↦ here ∙ sym there
          | inr (_, old) ↦ absurd (not_new j u old (sym same ∙ sym (ap (λ z. Stream.fd z) is_new)))
        ]
        | inr (_, old) ↦ elim (cons_cases j fp (new_stream is_write fd) u p.streams g) [
          | inl (_, is_new) ↦ absurd (not_new k t old (same ∙ sym (ap (λ z. Stream.fd z) is_new)))
          | inr (_, old2) ↦ v.apart k j t u old old2 same
        ]
      ];
    }

pub dict_free :
    (fd : ℕ × ℕ) (fp : ℕ) (p : Process) → Fresh fd fp p → IsValid p → lookup fp p.dict ≡ none
dict_free fd fp p f v = elim (Option-cases (lookup fp p.dict)) [
  | inl e ↦ e
  | inr (n, e) ↦ absurd (none_ne_some (sym f.fp_free ∙ (v.known fp n e).1))
]

pub opened-IsValid :
    (is_write : Bool) (id : ℕ) (fd : ℕ × ℕ) (fp : ℕ) (n : Pid) (p : Process)
    → Fresh fd fp p
    → IsValid p
    → IsValid (opened is_write id fd fp n p)
opened-IsValid is_write id fd fp n p f v =
    let entry = lookup-insert fp n p.dict (dict_free fd fp p f v) in
    record {
      streams_ok = opened-Streams is_write id fd fp n p f v.streams_ok;
      once = insert-Distinct fp n p.dict v.once;
      known = λ k m e. elim (cons_cases k fp n m p.dict (sym (ap (lookup k) entry) ∙ e)) [
        | inl (same, _) ↦ (
          new_stream is_write fd,
          ap (λ i. lookup i (opened is_write id fd fp n p).streams) same
              ∙ lookup_here fp (new_stream is_write fd) p.streams,
        )
        | inr (differs, old) ↦
            let was = v.known k m old in
            (was.0, lookup_ne k fp (new_stream is_write fd) p.streams differs ∙ was.1)
      ];
    }

pub opened-Named :
    (is_write : Bool) (id : ℕ) (fd : ℕ × ℕ) (fp : ℕ) (n : Pid) (p : Process)
    → Fresh fd fp p
    → IsValid p
    → Named p
    → Named (opened is_write id fd fp n p)
opened-Named is_write id fd fp n p f v named k s e =
    let entry = lookup-insert fp n p.dict (dict_free fd fp p f v) in
    elim (cons_cases k fp (new_stream is_write fd) s p.streams e) [
      | inl (same, _) ↦ (
        n,
        ap (lookup k) entry ∙ ap (λ i. lookup i ((fp, n) ∷ p.dict)) same ∙ lookup_here fp n p.dict,
      )
      | inr (differs, old) ↦
          let was = named k s old in
          (was.0, ap (lookup k) entry ∙ lookup_ne k fp n p.dict differs ∙ was.1)
    ]

-- The process after `my_pclose`.
abbrev pub closed : ℕ → Stream → Process → Process
closed fp s p = record (after_close fp s p) { dict = erase fp p.dict }

pub closed-IsValid :
    (fp : ℕ) (s : Stream) (p : Process)
    → lookup fp p.streams ≡ some s
    → IsValid p
    → IsValid (closed fp s p)
closed-IsValid fp s p here v =
    let w = after_close-Streams fp s p here v.streams_ok in
    record {
      streams_ok = record { open_fd = w.open_fd; apart = w.apart };
      once = erase-Distinct fp p.dict v.once;
      known = λ k m e.
          let before = other_key k fp m p.dict e in
          let was = v.known k m before.1 in
          (was.0, lookup-erase_ne k fp p.streams before.0 ∙ was.1);
    }

pub closed-Named : (fp : ℕ) (s : Stream) (p : Process) → Named p → Named (closed fp s p)
closed-Named fp s p named k t e =
    let before = other_key k fp t p.streams e in
    let was = named k t before.1 in (was.0, lookup-erase_ne k fp p.dict before.0 ∙ was.1)
