-- ===== src/Sysv/Masks.antt =====
-- What the operations of hw7/22-4/systemv.c leave of the mask and the dispositions.
use nsysu_system_programming.Prelude.{
  ℕ, ◌≡◌, refl, ◌⊎◌, inl, inr, true, false, not, ◌&&◌, ◌||◌, arith, ◌==◌, if◌then◌else◌, Bool-cases,
}
use nsysu_system_programming.Sysv.{
  Disposition, sig_hold, Process, is_hold, my_sigset, my_sighold, my_sigrelse, my_sigpause,
}

-- `my_sigset` answers SIG_HOLD for a signal that was blocked, and with its old disposition for another.
-- With SIG_HOLD it blocks the signal, and leaves the other signals and all dispositions as they were.
-- With another disposition it sets that for the signal alone, but unblocks every signal.
pub my_sigset_lem :
    (sig : ℕ) (disp : Disposition) (p : Process)
    → ((my_sigset sig disp p).0 ≡ (if p.blocked sig then sig_hold else p.action sig))
      × (((is_hold disp ≡ true)
            × ((s : ℕ)
                → ((my_sigset sig disp p).1.blocked s ≡ (p.blocked s || (s == sig)))
                  × ((my_sigset sig disp p).1.action s ≡ p.action s)))
          ⊎ ((is_hold disp ≡ false)
              × ((s : ℕ)
                  → ((my_sigset sig disp p).1.blocked s ≡ false)
                    × ((my_sigset sig disp p).1.action s
                        ≡ (if s == sig then disp else p.action s)))))
unfolding my_sigset
my_sigset_lem sig disp p = elim (Bool-cases (is_hold disp)) [
  | inl hold ↦ elim (Bool-cases (p.blocked sig)) [
    | inl on ↦ (rw hold (rw on refl), inl (hold, λ s. (ground arith, ground arith)))
    | inr off ↦ (rw hold (rw off refl), inl (hold, λ s. (ground arith, ground arith)))
  ]
  | inr other ↦ elim (Bool-cases (p.blocked sig)) [
    | inl on ↦ (rw other (rw on refl), inr (other, λ s. (ground arith, ground arith)))
    | inr off ↦ (rw other (rw off refl), inr (other, λ s. (ground arith, ground arith)))
  ]
]

-- `my_sighold` blocks the signal and `my_sigrelse` unblocks it, and both leave every other signal; a
-- release after a hold gives the mask of before for a signal that was not blocked. The mask of
-- `my_sigpause` is that of a release.
pub my_sighold_lem :
    (sig s : ℕ) (p : Process)
    → ((my_sighold sig p).blocked s ≡ (p.blocked s || (s == sig)))
      × ((my_sigrelse sig p).blocked s ≡ (p.blocked s && not (s == sig)))
      × ((p.blocked sig ≡ true) ⊎ ((my_sigrelse sig (my_sighold sig p)).blocked s ≡ p.blocked s))
      × (my_sigpause sig p s ≡ (my_sigrelse sig p).blocked s)
unfolding my_sighold my_sigrelse my_sigpause
my_sighold_lem sig s p = (
  ground arith,
  ground arith,
  elim (Bool-cases (p.blocked sig)) [ inl on ↦ inl on | inr off ↦ inr (ground arith) ],
  refl,
)
