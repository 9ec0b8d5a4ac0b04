-- ===== src/Sysv.antt =====
-- The System V signal operations of hw7/22-4/systemv.c, on the mask and the dispositions of a process
-- of one thread. The signals are ones that may be caught and blocked, so that no call fails; what
-- sigprocmask, sigaction and the operations on sets do is what their manual pages say.
pub mod Masks
pub mod Main
mod Tests
use nsysu_system_programming.Prelude.{ℕ, Bool, true, false, not, ◌&&◌, ◌||◌, if◌then◌else◌, update}

pub data Disposition : Type 0 where
  sig_dfl : Disposition
  sig_ign : Disposition
  sig_hold : Disposition
  handler : (address : ℕ) → Disposition

-- `sa_handler` is that of the global `sa`, which is zero from the beginning and never assigned.
pub record Process : Type 0 where
  pub blocked : ℕ → Bool
  pub action : ℕ → Disposition
  pub sa_handler : Disposition

-- `sigprocmask` with `SIG_BLOCK` and with `SIG_UNBLOCK`.
abbrev pub block : (ℕ → Bool) → Process → Process
block mask p = record p { blocked = λ s. p.blocked s || mask s }

abbrev pub unblock : (ℕ → Bool) → Process → Process
unblock mask p = record p { blocked = λ s. p.blocked s && not (mask s) }

abbrev pub is_hold : Disposition → Bool
is_hold sig_hold = true
is_hold _ = false

-- `SYNC_SA` fetches the mask of the process into `sa.sa_mask`, and `sig` is added to it.
unfoldable pub my_sigset : ℕ → Disposition → Process → Disposition × Process
my_sigset sig disp p =
    let mask = update p.blocked sig true in
    if is_hold disp
    then (if p.blocked sig then (sig_hold, block mask p) else (p.action sig, block mask p))
    else (let q = unblock mask (record p { action = update p.action sig disp }) in
        if p.blocked sig then (sig_hold, q) else (p.action sig, q))

unfoldable pub my_sighold : ℕ → Process → Process
my_sighold sig p = record p { blocked = update p.blocked sig true }

unfoldable pub my_sigrelse : ℕ → Process → Process
my_sigrelse sig p = record p { blocked = update p.blocked sig false }

unfoldable pub my_sigignore : ℕ → Process → Process
my_sigignore sig p = record p { action = update p.action sig p.sa_handler }

-- The mask while `sigsuspend` waits; the mask of before is back when it returns.
unfoldable pub my_sigpause : ℕ → Process → ℕ → Bool
my_sigpause sig p = update p.blocked sig false
