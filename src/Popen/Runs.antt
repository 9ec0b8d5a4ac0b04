-- ===== src/Popen/Runs.antt =====
-- A process that calls `my_popen` and `my_pclose` of hw5/2/popen.c again and again.
use nsysu_system_programming.Prelude.{
  ℕ, zero, suc, ◌≡◌, refl, sym, ap, ◌∙◌, inl, inr, Bool, not, Option, none, some, List, [], ◌∷◌,
  ◌++◌, append-nil, ◌==◌, ==_self, Option-cases, if_true, Str, if_true, none_ne_some,
}
use mathlib.Core.Path.{subst}
use nsysu_system_programming.Popen.Table.{lookup, erase, erase-absent, lookup-insert}
use nsysu_system_programming.Popen.Streams.{IsValid, Named, fclose_open}
use nsysu_system_programming.Popen.Calls.{
  Fresh, own_end, opened, opened-fds, new_stream, opened-IsValid, closed, closed-IsValid,
  opened-Named, closed-Named, dict_free, lookup_here, end_free,
}
use nsysu_system_programming.Popen.{
  End, Stream, Process, Pid, minus_one, pid, in_parent, Popened, executes, undefined, returns,
  flush, end_at, my_popen, my_pclose, Closed, closed_with, pclose_of, wait_loop, waitpid,
  that_child, Children,
}

-- The states of a process that opens and closes streams, from one state on.
pub data Reach (first : Process) : Process → Type 0 where
  start : Reach first first
  popen :
      (command : Str) (type id : ℕ) (fd : ℕ × ℕ) (fp : ℕ) (n : Pid) {p q : Process}
      → Reach first p
      → Fresh fd fp p
      → my_popen command type id fd fp (in_parent n) p ≡ returns fp q
      → Reach first q
  pclose :
      (fp interrupts : ℕ) (cs : Children) (c : Closed) {p : Process}
      → Reach first p
      → my_pclose fp interrupts cs p ≡ some c
      → Reach first c.process

abbrev returned : Process → Popened → Process
returned d (executes argv p) = d
returned d undefined = d
returned d (returns fp p) = p

abbrev closed_process : Process → Option Closed → Process
closed_process d none = d
closed_process d (some c) = c.process

-- `my_pclose` of a stream that `dict` has.
pub my_pclose_known :
    (fp interrupts : ℕ) (cs : Children) (n : Pid) (s : Stream) (p : Process)
    → lookup fp p.dict ≡ some n
    → lookup fp p.streams ≡ some s
    → my_pclose fp interrupts cs p
      ≡ some (record {
        pstat = (wait_loop interrupts n cs).0;
        children = (wait_loop interrupts n cs).1;
        process = closed fp s p;
      })
unfolding my_pclose
my_pclose_known fp interrupts cs n s p e h =
    ap (pclose_of fp interrupts cs p) e
    ∙ ap (closed_with fp (wait_loop interrupts n cs)) (fclose_open fp s p h)

my_pclose_unknown :
    (fp interrupts : ℕ) (cs : Children) (p : Process)
    → lookup fp p.dict ≡ none
    → my_pclose fp interrupts cs p ≡ none
unfolding my_pclose
my_pclose_unknown fp interrupts cs p e = ap (pclose_of fp interrupts cs p) e

-- What holds of the process after `my_pclose` of any stream, it holds of the one after the call.
after_pclose :
    (P : Process → Type 0) (fp interrupts : ℕ) (cs : Children) (c : Closed) (p : Process)
    → my_pclose fp interrupts cs p ≡ some c
    → IsValid p
    → ((s : Stream) → lookup fp p.streams ≡ some s → P (closed fp s p))
    → P c.process
after_pclose P fp interrupts cs c p e v h = elim (Option-cases (lookup fp p.dict)) [
  | inl lacks ↦ absurd (none_ne_some (sym (my_pclose_unknown fp interrupts cs p lacks) ∙ e))
  | inr (n, has) ↦
      let s = v.known fp n has in
      subst P (ap (closed_process p) (sym (my_pclose_known fp interrupts cs n s.0 p has s.1) ∙ e))
        (h s.0 s.1)
]

-- From a process whose open streams are all in `dict`: whatever streams it opens and closes, and however
-- the waiting is interrupted, `dict` names each stream that is open, once, and no other, and each has an
-- open descriptor that no other stream has.
pub Reach-IsValid :
    (first p : Process) → Reach first p → IsValid first → Named first → IsValid p × Named p
unfolding my_popen
Reach-IsValid first p start v named = (v, named)
Reach-IsValid first p (popen command type id fd fp n {p = before} r f e) v named =
    let was = Reach-IsValid first before r v named in
    let w = not (type == 114) in
    subst (λ q. IsValid q × Named q) (ap (returned before) e)
      (opened-IsValid w id fd fp n before f was.0, opened-Named w id fd fp n before f was.0 was.1)
Reach-IsValid first p (pclose fp interrupts cs c {p = before} r e) v named =
    let was = Reach-IsValid first before r v named in
    after_pclose (λ q. IsValid q × Named q) fp interrupts cs c before e was.0
      (λ s here. (closed-IsValid fp s before here was.0, closed-Named fp s before was.1))

interrupted_wait :
    (interrupts m status : ℕ) (n : Pid) (cs : Children)
    → wait_loop (suc interrupts) n ((m, status) ∷ cs) ≡ (status, cs)
unfolding wait_loop waitpid
interrupted_wait zero m status n cs = refl
interrupted_wait (suc interrupts) m status n cs = interrupted_wait interrupts m status minus_one cs

own_status :
    (i status : ℕ) (cs : Children)
    → lookup i cs ≡ some status
    → wait_loop 0 (pid i) cs ≡ (status, erase i cs)
unfolding wait_loop waitpid
own_status i status cs e = ap (that_child i cs) e

flush_nothing : (f : Option End) → flush f [] ≡ []
flush_nothing none = refl
flush_nothing (some f) = refl

erase_here {ℓ} :
    {A : Type ℓ} (k : ℕ) (a : A) (t : List (ℕ × A)) → lookup k t ≡ none → erase k ((k, a) ∷ t) ≡ t
unfolding erase
erase_here k a t h = if_true ((k, a) ∷ erase k t) (==_self k) ∙ erase-absent k t h

-- The process is the same after a stream is opened and closed.
closed-opened :
    (is_write : Bool) (id : ℕ) (fd : ℕ × ℕ) (fp : ℕ) (n : Pid) (p : Process)
    → Fresh fd fp p
    → IsValid p
    → closed fp (new_stream is_write fd) (opened is_write id fd fp n p) ≡ p
closed-opened is_write id fd fp n p f v =
    let after = opened is_write id fd fp n p in
    let done = closed fp (new_stream is_write fd) after in
    let no_entry = dict_free fd fp p f v in
    let same_fds : done.fds ≡ p.fds =
      ap (erase (end_at fd is_write)) (opened-fds is_write id fd fp n p f)
      ∙ erase_here (end_at fd is_write) (own_end is_write id) p.fds (end_free is_write fd fp p f) in
    let same_streams : done.streams ≡ p.streams =
      erase_here fp (new_stream is_write fd) p.streams f.fp_free in
    let same_dict : done.dict ≡ p.dict =
      ap (erase fp) (lookup-insert fp n p.dict no_entry) ∙ erase_here fp n p.dict no_entry in
    let same_flushed : done.flushed ≡ p.flushed =
      ap (λ d. p.flushed ++ d) (flush_nothing (lookup (end_at fd is_write) after.fds))
      ∙ append-nil p.flushed in
    ap (λ x. record done { fds = x }) same_fds
    ∙ ap (λ x. record done { fds = p.fds; streams = x }) same_streams
    ∙ ap (λ x. record done { fds = p.fds; streams = p.streams; dict = x }) same_dict
    ∙ ap (λ x. record p { flushed = x }) same_flushed

-- `my_popen` of `n`, which is child `i`, and then `my_pclose` give back the process as it was. Without
-- an interruption the result is the exit status of the child, the only one that is waited for. When a
-- signal interrupts the waiting, it is the status of whatever child ends first, and that one is waited
-- for.
pub my_pclose-my_popen :
    (command : Str) (type id : ℕ) (fd : ℕ × ℕ) (fp i status interrupts : ℕ) (first : ℕ × ℕ)
    (cs : Children) (p q : Process)
    → Fresh fd fp p
    → IsValid p
    → my_popen command type id fd fp (in_parent (pid i)) p ≡ returns fp q
    → lookup i (first ∷ cs) ≡ some status
    → (my_pclose fp 0 (first ∷ cs) q
        ≡ some (record { pstat = status; children = erase i (first ∷ cs); process = p }))
      × (my_pclose fp (suc interrupts) (first ∷ cs) q
          ≡ some (record { pstat = first.1; children = cs; process = p }))
unfolding my_popen
my_pclose-my_popen command type id fd fp i status interrupts first cs p q f v e has =
    let w = not (type == 114) in
    let after = opened w id fd fp (pid i) p in
    let entry : lookup fp after.dict ≡ some (pid i) =
      ap (lookup fp) (lookup-insert fp (pid i) p.dict (dict_free fd fp p f v))
      ∙ lookup_here fp (pid i) p.dict in
    let stream = lookup_here fp (new_stream w fd) p.streams in
    let result : (k : ℕ) (r : ℕ × Children)
        → wait_loop k (pid i) (first ∷ cs) ≡ r
        → my_pclose fp k (first ∷ cs) q
          ≡ some (record { pstat = r.0; children = r.1; process = p }) =
      λ k r h.
        ap (my_pclose fp k (first ∷ cs)) (sym (ap (returned p) e))
        ∙ my_pclose_known fp k (first ∷ cs) (pid i) (new_stream w fd) after entry stream
        ∙ ap
            (λ z.
              some (record {
                pstat = z.0;
                children = z.1;
                process = closed fp (new_stream w fd) after;
              }))
            h
        ∙ ap (λ z. some (record { pstat = r.0; children = r.1; process = z }))
            (closed-opened w id fd fp (pid i) p f v) in
    (
      result 0 (status, erase i (first ∷ cs)) (own_status i status (first ∷ cs) has),
      result (suc interrupts) (first.1, cs)
          (interrupted_wait interrupts first.0 first.1 (pid i) cs),
    )
