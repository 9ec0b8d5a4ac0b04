-- ===== src/Exam/Ends/Writes.antt =====
-- The steps of the writer towards the ends of test/3.
use mathlib.Core.Path.{subst}
use native.Mathlib.Decide.{ℕ_discrete}
use nsysu_system_programming.Prelude.{
  ℕ, ◌<◌, sym, ◌≢◌, Bool, true, false, some, ltb, if◌then◌else◌, ==_iff, ==-false, take,
}
use nsysu_system_programming.Exam.{
  Reader, reading, testing, tested, storing, sizing, posting, finished, Writer, asking, asked,
  loading, copying, writing, looping, gone, System, writer_step,
}
use nsysu_system_programming.Exam.Ends.{Ends, LenOk, Posted, LastPost, Keeps, sem_wait-Keeps}

abbrev SameReader : (r : Reader) (v w : Writer) (sem : ℕ) → Type 0
SameReader r v w sem = (Posted v sem → Posted w sem) → LastPost r v sem → LastPost r w sem

same_reader : (r : Reader) (v w : Writer) (sem : ℕ) → SameReader r v w sem
same_reader reading v w sem f h = tt
same_reader (testing j) v w sem f h = tt
same_reader (tested j b) v w sem f h = tt
same_reader (storing d) v w sem f h = tt
same_reader (sizing j) v w sem f h = tt
same_reader (posting j) v w sem f h = tt
same_reader finished v w sem f h = f h

-- A writer that is not about to ask.
no_more : (r : Reader) (w : Writer) (sem : ℕ) → Posted w sem → LastPost r w sem
no_more reading w sem h = tt
no_more (testing j) w sem h = tt
no_more (tested j b) w sem h = tt
no_more (storing d) w sem h = tt
no_more (sizing j) w sem h = tt
no_more (posting j) w sem h = tt
no_more finished w sem h = h

Posted-asked : (b : Bool) (sem : ℕ) → 0 < sem → Posted (asked b) sem
Posted-asked true sem h = tt
Posted-asked false sem h = h

asked-Posted : (sem : ℕ) → Posted asking sem → Posted (asked (ltb 0 sem)) sem
asked-Posted sem h = Posted-asked (ltb 0 sem) sem h

-- The loop goes on only while the length is not 0, so the reader is not over.
loop_LastPost : (r : Reader) (len sem : ℕ) → LenOk r len → len ≢ 0 → LastPost r asking sem
loop_LastPost reading len sem h k = tt
loop_LastPost (testing j) len sem h k = tt
loop_LastPost (tested j b) len sem h k = tt
loop_LastPost (storing d) len sem h k = tt
loop_LastPost (sizing j) len sem h k = tt
loop_LastPost (posting j) len sem h k = tt
loop_LastPost finished len sem h k = absurd (k h)

pub writer_step-Ends : (w : Writer) (s : System) → Ends s.reader w s → Keeps (writer_step w s)
unfolding writer_step
writer_step-Ends asking s v = record {
  len_ok = v.len_ok;
  gone_ok = tt;
  last_post =
      same_reader s.reader asking (asked (ltb 0 s.sem)) s.sem (asked-Posted s.sem) v.last_post;
  some_bytes = v.some_bytes;
}
writer_step-Ends (asked true) s v = record {
  len_ok = v.len_ok;
  gone_ok = tt;
  last_post = no_more s.reader loading s.sem tt;
  some_bytes = v.some_bytes;
}
writer_step-Ends (asked false) s v =
    sem_wait-Keeps s.sem (record s { writer = loading })
      (λ k e. record {
        len_ok = v.len_ok;
        gone_ok = tt;
        last_post = no_more s.reader loading k tt;
        some_bytes = v.some_bytes;
      })
writer_step-Ends loading s v = record {
  len_ok = v.len_ok;
  gone_ok = tt;
  last_post = no_more s.reader (copying s.len) s.sem tt;
  some_bytes = v.some_bytes;
}
writer_step-Ends (copying n) s v = record {
  len_ok = v.len_ok;
  gone_ok = tt;
  last_post = no_more s.reader (writing (take n s.buf)) s.sem tt;
  some_bytes = v.some_bytes;
}
writer_step-Ends (writing d) s v = record {
  len_ok = v.len_ok;
  gone_ok = tt;
  last_post = no_more s.reader looping s.sem tt;
  some_bytes = v.some_bytes;
}
writer_step-Ends looping s v = elim (ℕ_discrete s.len 0) [
  | yes over ↦
      subst (λ b. Keeps (some (record s { writer = if b then gone else asking })))
        (sym ((==_iff s.len 0).1 over))
        (record {
          len_ok = v.len_ok;
          gone_ok = over;
          last_post = no_more s.reader gone s.sem tt;
          some_bytes = v.some_bytes;
        })
  | no goes_on ↦
      subst (λ b. Keeps (some (record s { writer = if b then gone else asking })))
        (sym (==-false s.len 0 goes_on))
        (record {
          len_ok = v.len_ok;
          gone_ok = tt;
          last_post = loop_LastPost s.reader s.len s.sem v.len_ok goes_on;
          some_bytes = v.some_bytes;
        })
]
writer_step-Ends gone s v = tt
