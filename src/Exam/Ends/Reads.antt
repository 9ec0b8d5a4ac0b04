-- ===== src/Exam/Ends/Reads.antt =====
-- The steps of the reader towards the ends of test/3.
use mathlib.Core.Path.{subst}
use nsysu_system_programming.Prelude.{
  ℕ, suc, ◌<◌, ◌≡◌, refl, sym, true, false, some, List, [], ◌∷◌, arith, length, All, Str,
}
use nsysu_system_programming.Exam.{
  Job, a_block, the_end, Reader, reading, testing, tested, storing, sizing, posting, finished,
  Writer, asking, asked, loading, copying, writing, looping, gone, System, passes_on, read_step,
  reader_step,
}
use nsysu_system_programming.Exam.Ends.{Ends, LenOk, GoneOk, Posted, Keeps, sem_wait-Keeps}

Posted-suc : (w : Writer) (sem : ℕ) → Posted w (suc sem)
Posted-suc asking sem = omega arith
Posted-suc (asked true) sem = tt
Posted-suc (asked false) sem = omega arith
Posted-suc loading sem = tt
Posted-suc (copying n) sem = tt
Posted-suc (writing d) sem = tt
Posted-suc looping sem = tt
Posted-suc gone sem = tt

-- While the length is not 0 the writer is not over.
GoneOk-running : (w : Writer) (len other : ℕ) → 0 < len → GoneOk w len → GoneOk w other
GoneOk-running asking len other h k = tt
GoneOk-running (asked b) len other h k = tt
GoneOk-running loading len other h k = tt
GoneOk-running (copying n) len other h k = tt
GoneOk-running (writing d) len other h k = tt
GoneOk-running looping len other h k = tt
GoneOk-running gone len other h k = absurd (omega (arith, h, k))

read_step-Ends :
    (ds : List Str) (s : System)
    → ds ≡ s.input
    → Ends reading s.writer s
    → Keeps (some (read_step ds s))
read_step-Ends [] s e v = record {
  len_ok = (tt, v.len_ok);
  gone_ok = v.gone_ok;
  last_post = tt;
  some_bytes = v.some_bytes;
}
read_step-Ends (d ∷ ds) s e v =
    let more = subst (All (λ d. 0 < length d)) (sym e) v.some_bytes in
    record { len_ok = (more.0, v.len_ok); gone_ok = v.gone_ok; last_post = tt; some_bytes = more.1 }

passing :
    (j : Job) (s : System) (sem : ℕ)
    → LenOk (sizing j) s.len
    → GoneOk s.writer s.len
    → All (λ d. 0 < length d) s.input
    → Ends (passes_on j) s.writer (record s { sem = sem })
passing (a_block d) s sem h g i = record { len_ok = h; gone_ok = g; last_post = tt; some_bytes = i }
passing the_end s sem h g i = record { len_ok = h; gone_ok = g; last_post = tt; some_bytes = i }

pub reader_step-Ends : (r : Reader) (s : System) → Ends r s.writer s → Keeps (reader_step r s)
unfolding reader_step
reader_step-Ends reading s v = read_step-Ends s.input s refl v
reader_step-Ends (testing j) s v = record {
  len_ok = v.len_ok;
  gone_ok = v.gone_ok;
  last_post = tt;
  some_bytes = v.some_bytes;
}
reader_step-Ends (tested j true) s v =
    sem_wait-Keeps s.sem (record s { reader = passes_on j })
      (λ k e.
        let p = passing j s k v.len_ok v.gone_ok v.some_bytes in
        record {
          len_ok = p.len_ok;
          gone_ok = p.gone_ok;
          last_post = p.last_post;
          some_bytes = p.some_bytes;
        })
reader_step-Ends (tested j false) s v =
    let p = passing j s s.sem v.len_ok v.gone_ok v.some_bytes in
    record {
      len_ok = p.len_ok;
      gone_ok = p.gone_ok;
      last_post = p.last_post;
      some_bytes = p.some_bytes;
    }
reader_step-Ends (storing d) s v = record {
  len_ok = v.len_ok;
  gone_ok = v.gone_ok;
  last_post = tt;
  some_bytes = v.some_bytes;
}
reader_step-Ends (sizing (a_block d)) s v = record {
  len_ok = v.len_ok.0;
  gone_ok = GoneOk-running s.writer s.len (length d) v.len_ok.1 v.gone_ok;
  last_post = tt;
  some_bytes = v.some_bytes;
}
reader_step-Ends (sizing the_end) s v = record {
  len_ok = refl;
  gone_ok = GoneOk-running s.writer s.len 0 v.len_ok.1 v.gone_ok;
  last_post = tt;
  some_bytes = v.some_bytes;
}
reader_step-Ends (posting (a_block d)) s v = record {
  len_ok = v.len_ok;
  gone_ok = v.gone_ok;
  last_post = tt;
  some_bytes = v.some_bytes;
}
reader_step-Ends (posting the_end) s v = record {
  len_ok = v.len_ok;
  gone_ok = v.gone_ok;
  last_post = Posted-suc s.writer s.sem;
  some_bytes = v.some_bytes;
}
reader_step-Ends finished s v = tt
