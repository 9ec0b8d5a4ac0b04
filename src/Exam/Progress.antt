-- ===== src/Exam/Progress.antt =====
-- What the threads of test/3 keep to in every order of their steps, and where they stop.
use mathlib.Core.Path.{subst}
use nsysu_system_programming.Prelude.{
  ℕ, zero, suc, ◌≤◌, ◌<◌, ◌≡◌, refl, ap, ◌∙◌, ◌⊎◌, inl, inr, true, false, none, some, List, arith,
  length, All, Str,
}
use nsysu_system_programming.Exam.Invariant.{WriterOk}
use nsysu_system_programming.Exam.Invariant.Kept.{Reach-Holds}
use nsysu_system_programming.Exam.Ends.{Ends, LenOk, GoneOk, LastPost}
use nsysu_system_programming.Exam.Ends.Kept.{Reach-Ends}
use nsysu_system_programming.Exam.{
  Job, Reader, reading, testing, tested, storing, sizing, posting, finished, Writer, asking, asked,
  loading, copying, writing, looping, gone, System, Thread, the_reader, the_writer, passes_on,
  sem_wait, reader_step, writer_step, step, Reach,
}

-- A length that the writer is about to copy.
abbrev pub asked_for : Writer → ℕ
asked_for asking = 0
asked_for (asked b) = 0
asked_for loading = 0
asked_for (copying n) = n
asked_for (writing d) = 0
asked_for looping = 0
asked_for gone = 0

asked_for_fits : (w : Writer) (len : ℕ) → WriterOk w len → asked_for w ≤ 4096
asked_for_fits asking len h = omega arith
asked_for_fits (asked true) len h = omega arith
asked_for_fits (asked false) len h = omega arith
asked_for_fits loading len h = omega arith
asked_for_fits (copying n) len h = h
asked_for_fits (writing d) len h = omega arith
asked_for_fits looping len h = omega arith
asked_for_fits gone len h = omega arith

-- For blocks of at most 4096 bytes, and in every order of the steps, the semaphore is 0 or 1, the
-- buffer has 4096 bytes, and the writer never copies more than these, although the length is at first
-- that of -1.
pub bounds_lem :
    (ds : List Str) (s : System)
    → All (λ d. length d ≤ 4096) ds
    → Reach ds s
    → (s.sem ≤ 1) × (length s.buf ≡ 4096) × (asked_for s.writer ≤ length s.buf)
bounds_lem ds s fits r =
    let v = Reach-Holds ds s fits r in
    (v.one, v.whole, omega (arith, asked_for_fits s.writer s.len v.by_writer, v.whole))

abbrev pub Moves : System → Type 0
Moves s = (m : Thread) × (t : System) × (step m s ≡ some t)

-- The reader waits for the semaphore that it found busy, and the writer for the one that it did not
-- find ready.
abbrev pub Deadlock : System → Type 0
Deadlock s = (j : Job) × (s.reader ≡ tested j true) × (s.writer ≡ asked false) × (s.sem ≡ 0)

-- A thread has a step, or it is over, or it waits for the semaphore.
abbrev ReaderStops : Reader → (sem : ℕ) → Type 0
ReaderStops r sem = (r ≡ finished) ⊎ ((j : Job) × (r ≡ tested j true) × (sem ≡ 0))

abbrev WriterStops : Writer → (sem : ℕ) → Type 0
WriterStops w sem = (w ≡ gone) ⊎ ((w ≡ asked false) × (sem ≡ 0))

waits_or_not : (n : ℕ) (s : System) → (n ≡ 0) ⊎ ((t : System) × (sem_wait n s ≡ some t))
waits_or_not zero s = inl refl
waits_or_not (suc n) s = inr (_, refl)

reader_moves :
    (r : Reader) (s : System) → ReaderStops r s.sem ⊎ ((t : System) × (reader_step r s ≡ some t))
unfolding reader_step
reader_moves reading s = inr (_, refl)
reader_moves (testing j) s = inr (_, refl)
reader_moves (tested j true) s = elim (waits_or_not s.sem (record s { reader = passes_on j })) [
  | inl e ↦ inl (inr (j, refl, e))
  | inr t ↦ inr t
]
reader_moves (tested j false) s = inr (_, refl)
reader_moves (storing d) s = inr (_, refl)
reader_moves (sizing j) s = inr (_, refl)
reader_moves (posting j) s = inr (_, refl)
reader_moves finished s = inl (inl refl)

writer_moves :
    (w : Writer) (s : System) → WriterStops w s.sem ⊎ ((t : System) × (writer_step w s ≡ some t))
unfolding writer_step
writer_moves asking s = inr (_, refl)
writer_moves (asked true) s = inr (_, refl)
writer_moves (asked false) s = elim (waits_or_not s.sem (record s { writer = loading })) [
  | inl e ↦ inl (inr (refl, e))
  | inr t ↦ inr t
]
writer_moves loading s = inr (_, refl)
writer_moves (copying n) s = inr (_, refl)
writer_moves (writing d) s = inr (_, refl)
writer_moves looping s = inr (_, refl)
writer_moves gone s = inl (inl refl)

-- Where neither has a step.
both_stop :
    (r : Reader) (w : Writer) (s : System)
    → Ends r w s
    → ReaderStops r s.sem
    → WriterStops w s.sem
    → ((r ≡ finished) × (w ≡ gone))
      ⊎ ((j : Job) × (r ≡ tested j true) × (w ≡ asked false) × (s.sem ≡ 0))
both_stop r w s v (inl e) (inl f) = inl (e, f)
both_stop r w s v (inr (j, e, g)) (inr (f, h)) = inr (j, e, f, g)
both_stop r w s v (inl e) (inr (f, h)) =
    let posted =
      subst (λ q. LastPost q (asked false) s.sem) e
        (subst (λ q. LastPost r q s.sem) f v.last_post) in
    absurd (omega (arith, posted, h))
both_stop r w s v (inr (j, e, g)) (inl f) =
    let some_left = subst (λ q. LenOk q s.len) e v.len_ok in
    let over = subst (λ q. GoneOk q s.len) f v.gone_ok in absurd (omega (arith, some_left.1, over))

-- Where no block is empty, in every order of the steps, one of the two has a step, or both are over, or
-- they are in a deadlock: the reader waits for the semaphore that it found busy, which the writer has
-- taken since, and the writer waits for it too.
pub stops_lem :
    (ds : List Str) (s : System)
    → All (λ d. 0 < length d) ds
    → Reach ds s
    → Moves s
      ⊎ (((s.reader ≡ finished) × (s.writer ≡ gone))
          ⊎ (Deadlock s × (step the_reader s ≡ none) × (step the_writer s ≡ none)))
unfolding step reader_step writer_step
stops_lem ds s bytes r = elim (reader_moves s.reader s) [
  | inr (t, e) ↦ inl (the_reader, t, e)
  | inl reader_stops ↦ elim (writer_moves s.writer s) [
    | inr (t, e) ↦ inl (the_writer, t, e)
    | inl writer_stops ↦
        elim (both_stop s.reader s.writer s (Reach-Ends ds s bytes r) reader_stops writer_stops) [
          | inl over ↦ inr (inl over)
          | inr (j, e, f, g) ↦ inr (
              inr (
                (j, e, f, g),
                ap (λ q. reader_step q s) e
                    ∙ ap (λ n. sem_wait n (record s { reader = passes_on j })) g,
                ap (λ q. writer_step q s) f
                    ∙ ap (λ n. sem_wait n (record s { writer = loading })) g,
              ))
        ]
  ]
]
