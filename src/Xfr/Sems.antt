-- ===== src/Xfr/Sems.antt =====
-- binary_sems.c: `reserveSem` around `semop`, whose results are given in order.
use mathlib.Core.List.{Memᴰ}
use nsysu_system_programming.Prelude.{
  ℕ, zero, suc, ◌≡◌, refl, ◌≢◌, ◌⊎◌, inl, inr, Bool, true, false, not, Option, none, some, List, [],
  ◌∷◌, ◌++◌, arith, if◌then◌else◌, replicate, ℤ, pos, negsuc,
}

-- `semop` comes back with 0, with -1 and `EINTR`, or with -1 and another error.
pub data Semop : Type 0 where
  done : Semop
  interrupted : Semop
  refused : (errno : ℕ) → Semop

-- `bsRetryOnEintr` is `retry`. `none` is a call that is still blocked after the results so far.
unfoldable pub reserve_sem : (retry : Bool) → List Semop → Option ℤ
reserve_sem retry [] = none
reserve_sem retry (done ∷ rs) = some (pos 0)
reserve_sem retry (interrupted ∷ rs) = if not retry then some (negsuc 0) else reserve_sem retry rs
reserve_sem retry (refused e ∷ rs) = some (negsuc 0)

-- With `bsRetryOnEintr` a reservation that signals interrupt any number of times comes out as if
-- none had come; without it the first interruption ends the call with -1. It comes back with -1 under
-- `bsRetryOnEintr` only after another error.
pub reserve_sem_lem :
    (n : ℕ) (rs : List Semop)
    → (reserve_sem true (replicate n interrupted ++ rs) ≡ reserve_sem true rs)
      × (reserve_sem false (replicate (suc n) interrupted ++ rs) ≡ some (negsuc 0))
      × ((reserve_sem true rs ≢ some (negsuc 0)) ⊎ ((errno : ℕ) × Memᴰ (refused errno) rs))
unfolding reserve_sem
reserve_sem_lem n rs = (retried n, refl, only_refused rs)
  where
    retried : (k : ℕ) → reserve_sem true (replicate k interrupted ++ rs) ≡ reserve_sem true rs
    retried zero = refl
    retried (suc k) = retried k

    only_refused :
        (xs : List Semop)
        → (reserve_sem true xs ≢ some (negsuc 0)) ⊎ ((errno : ℕ) × Memᴰ (refused errno) xs)
    only_refused [] = inl (λ e. ground arith)
    only_refused (done ∷ xs) = inl (λ e. ground arith)
    only_refused (interrupted ∷ xs) = elim (only_refused xs) [
      | inl fine ↦ inl fine
      | inr (errno, here) ↦ inr (errno, Memᴰ.tail here)
    ]
    only_refused (refused errno ∷ xs) = inr (errno, Memᴰ.head refl)

-- The result of a call on a semaphore, and its value afterwards.
abbrev pub applied : (succeeds : Bool) → (value next : ℕ) → ℤ × ℕ
applied true value next = (pos 0, next)
applied false value next = (negsuc 0, value)

-- `initSemAvailable`
unfoldable pub init_sem_available : (succeeds : Bool) → ℕ → ℤ × ℕ
init_sem_available succeeds value = applied succeeds value 1

-- `initSemInUse`
unfoldable pub init_sem_in_use : (succeeds : Bool) → ℕ → ℤ × ℕ
init_sem_in_use succeeds value = applied succeeds value 0

-- `releaseSem`, without SEM_UNDO.
unfoldable pub release_sem : (succeeds : Bool) → ℕ → ℤ × ℕ
release_sem succeeds value = applied succeeds value (suc value)

-- The `semop` of a reservation, which blocks while the value is 0.
unfoldable pub take_sem : ℕ → Option ℕ
take_sem zero = none
take_sem (suc value) = some value

-- Whatever the value was: a semaphore that is made available can be taken once and not again, until it
-- is released, and one that is made in use cannot be taken before it is released.
pub take_sem-init :
    (value : ℕ)
    → (take_sem (init_sem_available true value).1 ≡ some 0)
      × (take_sem (init_sem_in_use true value).1 ≡ none)
      × (take_sem (release_sem true (init_sem_in_use true value).1).1 ≡ some 0)
      × ((n : ℕ) → take_sem (release_sem true n).1 ≡ some n)
unfolding take_sem init_sem_available init_sem_in_use release_sem
take_sem-init value = (refl, refl, refl, λ n. refl)
