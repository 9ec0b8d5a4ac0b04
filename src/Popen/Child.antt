-- ===== src/Popen/Child.antt =====
-- The child that `my_popen` of hw5/2/popen.c starts, and its descriptors.
use native.Mathlib.Decide.{ℕ_discrete}
use mathlib.Core.Path.{subst}
use nsysu_system_programming.Prelude.{
  ℕ, ◌≡◌, sym, ap, ◌∙◌, ◌≢◌, Bool, true, false, not, none, some, List, [], ◌∷◌, ◌==◌, if◌then◌else◌,
  ==_iff, ==-false, if_true, if_false, Str, codes, if_true, if_false, none_ne_some,
}
use nsysu_system_programming.Popen.Table.{lookup, erase, lookup-erase_ne, lookup-erase_self}
use nsysu_system_programming.Popen.Streams.{Streams, IsValid}
use nsysu_system_programming.Popen.Calls.{Fresh, own_end, lookup_ne, lookup_here, end_free}
use nsysu_system_programming.Popen.{
  End, Stream, Process, Pid, in_child, executes, and_then, child, drop, dup2, hook_up, bit, copy_to,
  reads_pipe, writes_pipe, with_pipe, end_at, my_popen,
}
use nsysu_system_programming.Popen.Dropped.{close_all_lem}

-- `hook_up` with the end that is kept, the end that is closed, and the standard descriptor.
abbrev hook : (mine gone std : ℕ) → List (ℕ × End) → List (ℕ × End)
hook mine gone std t =
    let rest = erase gone t in if mine == std then rest else erase mine (dup2 mine std rest)

record Hooked (mine gone std : ℕ) (f : End) (t u : List (ℕ × End)) : Type 0 where
  has_std : lookup std u ≡ some f
  no_mine : mine ≢ std → lookup mine u ≡ none
  no_gone : gone ≢ std → lookup gone u ≡ none
  as_before : (d : ℕ) → d ≢ mine → d ≢ gone → d ≢ std → lookup d u ≡ lookup d t

hook-Hooked :
    (mine gone std : ℕ) (f : End) (t : List (ℕ × End))
    → mine ≢ gone
    → lookup mine t ≡ some f
    → Hooked mine gone std f t (hook mine gone std t)
unfolding dup2
hook-Hooked mine gone std f t apart has =
    let left : lookup mine (erase gone t) ≡ some f = lookup-erase_ne mine gone t apart ∙ has in
    elim (ℕ_discrete mine std) [
      | yes same ↦
          subst (Hooked mine gone std f t)
            (sym (if_true (erase mine (dup2 mine std (erase gone t))) ((==_iff mine std).1 same)))
            (record {
              has_std = ap (λ i. lookup i (erase gone t)) (sym same) ∙ left;
              no_mine = λ h. absurd (h same);
              no_gone = λ h. lookup-erase_self gone t;
              as_before = λ d h k l. lookup-erase_ne d gone t k;
            })
      | no differs ↦
          let behind = erase std (erase gone t) in
          subst (Hooked mine gone std f t)
            (sym (
              if_false (erase gone t) (==-false mine std differs)
              ∙ ap (λ o. erase mine (copy_to std o (erase gone t))) left))
            (record {
              has_std =
                  lookup-erase_ne std mine ((std, f) ∷ behind) (λ e. differs (sym e))
                  ∙ lookup_here std f behind;
              no_mine = λ h. lookup-erase_self mine ((std, f) ∷ behind);
              no_gone = λ h.
                  lookup-erase_ne gone mine ((std, f) ∷ behind) (λ e. apart (sym e))
                  ∙ lookup_ne gone std f behind h
                  ∙ lookup-erase_ne gone std (erase gone t) h
                  ∙ lookup-erase_self gone t;
              as_before = λ d h k l.
                  lookup-erase_ne d mine ((std, f) ∷ behind) h
                  ∙ lookup_ne d std f behind l
                  ∙ lookup-erase_ne d std (erase gone t) l
                  ∙ lookup-erase_ne d gone t k;
            })
    ]

-- The descriptors that the new program gets.
pub record HookedUp (is_write : Bool) (id : ℕ) (fd : ℕ × ℕ) (p q : Process) : Type 0 where
  pub standard : lookup (bit (not is_write)) q.fds ≡ some (own_end (not is_write) id)
  pub ends_closed :
      (b : Bool) → end_at fd b ≢ bit (not is_write) → lookup (end_at fd b) q.fds ≡ none
  pub streams_closed :
      (k : ℕ) (n : Pid) (s : Stream)
      → lookup k p.dict ≡ some n
      → lookup k p.streams ≡ some s
      → s.fd ≢ bit (not is_write)
      → lookup s.fd q.fds ≡ none
  pub others :
      (d : ℕ)
      → d ≢ fd.0
      → d ≢ fd.1
      → d ≢ bit (not is_write)
      → ((k : ℕ) (n : Pid) (s : Stream)
          → lookup k p.dict ≡ some n
          → lookup k p.streams ≡ some s
          → d ≢ s.fd)
      → lookup d q.fds ≡ lookup d p.fds

with_pipe_ne :
    (id : ℕ) (fd : ℕ × ℕ) (p : Process) (d : ℕ)
    → d ≢ fd.0
    → d ≢ fd.1
    → lookup d (with_pipe id fd p).fds ≡ lookup d p.fds
with_pipe_ne id fd p d h k =
    lookup_ne d fd.0 (reads_pipe id) ((fd.1, writes_pipe id) ∷ p.fds) h
    ∙ lookup_ne d fd.1 (writes_pipe id) p.fds k

-- The descriptor of a stream is none of the new ones.
stream_apart :
    (b : Bool) (fd : ℕ × ℕ) (fp k : ℕ) (s : Stream) (p : Process)
    → Fresh fd fp p
    → Streams p
    → lookup k p.streams ≡ some s
    → s.fd ≢ end_at fd b
stream_apart b fd fp k s p f v e same =
    none_ne_some
      (sym (end_free b fd fp p f) ∙ ap (λ d. lookup d p.fds) (sym same) ∙ (v.open_fd k s e).1)

with_pipe-Streams :
    (id : ℕ) (fd : ℕ × ℕ) (fp : ℕ) (p : Process)
    → Fresh fd fp p
    → Streams p
    → Streams (with_pipe id fd p)
with_pipe-Streams id fd fp p f v = record {
  open_fd = λ k s e.
      let was = v.open_fd k s e in
      (
        was.0,
        with_pipe_ne id fd p s.fd (stream_apart false fd fp k s p f v e)
              (stream_apart true fd fp k s p f v e)
            ∙ was.1,
      );
  apart = v.apart;
}

own_end-lookup :
    (b : Bool) (id : ℕ) (fd : ℕ × ℕ) (p : Process)
    → fd.0 ≢ fd.1
    → lookup (end_at fd b) (with_pipe id fd p).fds ≡ some (own_end b id)
own_end-lookup false id fd p h = lookup_here fd.0 (reads_pipe id) ((fd.1, writes_pipe id) ∷ p.fds)
own_end-lookup true id fd p h =
    lookup_ne fd.1 fd.0 (reads_pipe id) ((fd.1, writes_pipe id) ∷ p.fds) (λ e. h (sym e))
    ∙ lookup_here fd.1 (writes_pipe id) p.fds

either_end :
    (P : ℕ → Type 0) (fd : ℕ × ℕ) (w b : Bool)
    → P (end_at fd (not w))
    → P (end_at fd w)
    → P (end_at fd b)
either_end P fd false false mine gone = gone
either_end P fd false true mine gone = mine
either_end P fd true false mine gone = mine
either_end P fd true true mine gone = gone

ends_apart : (w : Bool) (fd : ℕ × ℕ) → fd.0 ≢ fd.1 → end_at fd (not w) ≢ end_at fd w
ends_apart false fd h e = h (sym e)
ends_apart true fd h e = h e

-- The command of `my_popen` runs under `sh -c`. Its standard input (`"w"`), or output (`"r"`), is the
-- end of the new pipe that the stream of the parent does not have. The descriptors of the pipe are
-- closed, as are those of all streams that earlier calls gave, if they are not the standard
-- descriptor itself, and the other descriptors are as they were.
pub my_popen-in_child :
    (command : Str) (type id : ℕ) (fd : ℕ × ℕ) (fp : ℕ) (p : Process)
    → Fresh fd fp p
    → IsValid p
    → (q : Process) × (my_popen command type id fd fp in_child p
        ≡ executes (codes "sh" ∷ codes "-c" ∷ command ∷ []) q)
      × HookedUp (not (type == 114)) id fd p q
unfolding my_popen drop hook_up
my_popen-in_child command type id fd fp p f v =
    let w = not (type == 114) in
    let piped = with_pipe id fd p in
    let dropped =
      close_all_lem p.dict piped (with_pipe-Streams id fd fp p f v.streams_ok) v.once v.known in
    let t = (dropped.0).fds in
    let free : (b : Bool) (k : ℕ) (n : Pid) (s : Stream)
        → lookup k p.dict ≡ some n
        → lookup k p.streams ≡ some s
        → end_at fd b ≢ s.fd =
      λ b k n s e h same. stream_apart b fd fp k s p f v.streams_ok h (sym same) in
    let hooked =
      hook-Hooked (end_at fd (not w)) (end_at fd w) (bit (not w)) (own_end (not w) id) t
        (ends_apart w fd f.two)
        (dropped.2.kept (end_at fd (not w)) (free (not w))
          ∙ own_end-lookup (not w) id fd p f.two) in
    (
      record (dropped.0) { dict = []; fds = hook_up w fd t },
      ap (λ o. child command w fd (and_then (λ q. some (record q { dict = [] })) o)) dropped.1,
      record {
        standard = hooked.has_std;
        ends_closed = λ b.
            either_end (λ d. d ≢ bit (not w) → lookup d (hook_up w fd t) ≡ none) fd w b
              hooked.no_mine hooked.no_gone;
        streams_closed = λ k n s e h differs.
            hooked.as_before s.fd (λ same. free (not w) k n s e h (sym same))
              (λ same. free w k n s e h (sym same)) differs
            ∙ dropped.2.gone k n s e h;
        others = λ d h k l no.
            hooked.as_before d (either_end (λ i. d ≢ i) fd false (not w) k h)
              (either_end (λ i. d ≢ i) fd false w k h) l
            ∙ dropped.2.kept d no
            ∙ with_pipe_ne id fd p d h k;
      },
    )
