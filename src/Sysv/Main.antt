-- ===== src/Sysv/Main.antt =====
-- main.c of hw7/22-4: a child that waits for a signal of its parent, set up with the operations of
-- systemv.c.
use nsysu_system_programming.Prelude.{
  ℕ, ◌≡◌, refl, ap, ◌∙◌, Bool, true, false, if◌then◌else◌, update, if_keeps,
}
use nsysu_system_programming.Sysv.{
  Disposition, sig_dfl, sig_ign, sig_hold, handler, Process, unblock, my_sigset, my_sighold,
  my_sigrelse, my_sigignore, my_sigpause,
}

abbrev pub sigusr1 : ℕ
sigusr1 = 10

-- What becomes of the child: it prints that it got the signal, the signal ends it, or it waits on.
pub data Fate : Type 0 where
  got_it : Fate
  killed : Fate
  waits : Fate

-- What a signal does to a process that `sigpause` holds, by its disposition.
abbrev pub on_arrival : Disposition → Fate
on_arrival sig_dfl = killed
on_arrival sig_ign = waits
on_arrival sig_hold = waits
on_arrival (handler address) = got_it

-- And to one that has not come to `sigpause` yet: behind a handler it waits for another signal.
abbrev pub on_early : Disposition → Fate
on_early sig_dfl = killed
on_early sig_ign = waits
on_early sig_hold = waits
on_early (handler address) = waits

-- `main` up to the `fork`.
unfoldable pub set_up : (has_argument : Bool) → (address : ℕ) → Process → Process
unfolding my_sigset my_sighold my_sigrelse my_sigignore
set_up has_argument address p =
    let held = my_sighold sigusr1 (my_sigset sigusr1 (handler address) p).1 in
    let released = my_sigrelse sigusr1 held in
    if has_argument then my_sigignore sigusr1 released else released

-- The child: the signal comes while `sigpause` waits or before it, and stays pending while it is
-- blocked.
unfoldable pub run_child : (paused : Bool) → Process → Fate
unfolding my_sigpause
run_child true p = if my_sigpause sigusr1 p sigusr1 then waits else on_arrival (p.action sigusr1)
run_child false p =
    if p.blocked sigusr1 then on_arrival (p.action sigusr1) else on_early (p.action sigusr1)

-- The process behind `sigset` with a handler.
abbrev handled : ℕ → Process → Process
handled address p =
    unblock (update p.blocked sigusr1 true)
      (record p { action = update p.action sigusr1 (handler address) })

my_sigset-handled :
    (address : ℕ) (p : Process) → (my_sigset sigusr1 (handler address) p).1 ≡ handled address p
unfolding my_sigset
my_sigset-handled address p =
    if_keeps (λ (r : Disposition × Process). r.1 ≡ handled address p) (p.blocked sigusr1) refl refl

abbrev released : Process → Process
released q = my_sigrelse sigusr1 (my_sighold sigusr1 q)

set_up-plain : (address : ℕ) (p : Process) → set_up false address p ≡ released (handled address p)
unfolding set_up
set_up-plain address p = ap released (my_sigset-handled address p)

set_up-ignoring :
    (address : ℕ) (p : Process)
    → set_up true address p ≡ my_sigignore sigusr1 (released (handled address p))
unfolding set_up
set_up-ignoring address p =
    ap (λ q. my_sigignore sigusr1 (released q)) (my_sigset-handled address p)

killed_ignoring :
    (paused : Bool) (address : ℕ) (p : Process)
    → p.sa_handler ≡ sig_dfl
    → run_child paused (my_sigignore sigusr1 (released (handled address p))) ≡ killed
unfolding run_child my_sighold my_sigrelse my_sigignore my_sigpause
killed_ignoring true address p h = ap on_arrival h
killed_ignoring false address p h = ap on_early h

-- For a process whose `sa` is still zero, and whatever else it has blocked: without an argument the
-- child gets the signal and says so, if it came to `sigpause` before the signal was sent, and waits on
-- if it did not; with an argument, which is to make it ignore the signal, the signal ends it.
pub run_child-set_up :
    (address : ℕ) (p : Process)
    → p.sa_handler ≡ sig_dfl
    → (run_child true (set_up false address p) ≡ got_it)
      × (run_child false (set_up false address p) ≡ waits)
      × ((paused : Bool) → run_child paused (set_up true address p) ≡ killed)
unfolding run_child my_sighold my_sigrelse my_sigpause
run_child-set_up address p zero_sa = (
  ap (run_child true) (set_up-plain address p),
  ap (run_child false) (set_up-plain address p),
  λ paused.
      ap (run_child paused) (set_up-ignoring address p) ∙ killed_ignoring paused address p zero_sa,
)
