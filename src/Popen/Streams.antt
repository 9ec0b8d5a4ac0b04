-- ===== src/Popen/Streams.antt =====
-- The streams of a process that calls hw5/2/popen.c.
use native.Mathlib.Decide.{ℕ_discrete}
use nsysu_system_programming.Prelude.{ℕ, ◌≡◌, sym, ap, ◌∙◌, ◌≢◌, some, List, ◌++◌, none_ne_some}
use nsysu_system_programming.Popen.Table.{
  lookup, erase, Distinct, lookup-erase_ne, lookup-erase_self,
}
use nsysu_system_programming.Popen.{End, Stream, Process, Pid, flush, closing, fclose}

-- Every stream has an open descriptor of its own.
pub record Streams (p : Process) : Type 0 where
  pub open_fd :
      (k : ℕ) (s : Stream) → lookup k p.streams ≡ some s → (f : End) × (lookup s.fd p.fds ≡ some f)
  pub apart :
      (k j : ℕ) (s t : Stream)
      → lookup k p.streams ≡ some s
      → lookup j p.streams ≡ some t
      → s.fd ≡ t.fd
      → k ≡ j

-- The streams are so, and `dict` has each of its streams once, all of them open.
pub record IsValid (p : Process) : Type 0 where
  pub streams_ok : Streams p
  pub once : Distinct p.dict
  pub known :
      (k : ℕ) (n : Pid) → lookup k p.dict ≡ some n → (s : Stream) × (lookup k p.streams ≡ some s)

-- `dict` has every stream that is open.
abbrev pub Named : Process → Type 0
Named p =
    (k : ℕ) (s : Stream) → lookup k p.streams ≡ some s → (n : Pid) × (lookup k p.dict ≡ some n)

-- The process after `fclose` of an open stream.
abbrev pub after_close : ℕ → Stream → Process → Process
after_close fp s p = record p {
  fds = erase s.fd p.fds;
  streams = erase fp p.streams;
  flushed = p.flushed ++ flush (lookup s.fd p.fds) s.pending;
}

pub fclose_open :
    (fp : ℕ) (s : Stream) (p : Process)
    → lookup fp p.streams ≡ some s
    → fclose fp p ≡ some (after_close fp s p)
unfolding fclose
fclose_open fp s p e = ap (closing fp p) e

pub other_key {ℓ} :
    {A : Type ℓ} (k i : ℕ) (a : A) (t : List (ℕ × A))
    → lookup k (erase i t) ≡ some a
    → (k ≢ i) × (lookup k t ≡ some a)
other_key k i a t e = elim (ℕ_discrete k i) [
  | yes same ↦
      absurd
        (none_ne_some (sym (lookup-erase_self i t) ∙ ap (λ m. lookup m (erase i t)) (sym same) ∙ e))
  | no differs ↦ (differs, sym (lookup-erase_ne k i t differs) ∙ e)
]

pub after_close-Streams :
    (fp : ℕ) (s : Stream) (p : Process)
    → lookup fp p.streams ≡ some s
    → Streams p
    → Streams (after_close fp s p)
after_close-Streams fp s p here v = record {
  open_fd = λ k t e.
      let before = other_key k fp t p.streams e in
      let was = v.open_fd k t before.1 in
      (
        was.0,
        lookup-erase_ne t.fd s.fd p.fds (λ same. before.0 (v.apart k fp t s before.1 here same))
            ∙ was.1,
      );
  apart = λ k j t u e f same.
      v.apart k j t u (other_key k fp t p.streams e).1 (other_key j fp u p.streams f).1 same;
}
