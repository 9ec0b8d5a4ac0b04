-- ===== src/Svmsg/Server.antt =====
-- The loop of `main` in hw8/46-2/svmsg_file_server.c and its signal handler, on what happens to the
-- server: requests are what `msgrcv` gives, and each is served by a child of its own. `fork` succeeds.
use mathlib.Core.Path.{subst}
use nsysu_system_programming.Prelude.{
  ℕ, zero, suc, ◌+◌, ◌-◌, min, ◌≡◌, refl, sym, ap, ◌∙◌, Bool, true, false, ◌||◌, List, [], ◌∷◌,
  ◌++◌, append-nil, append_assoc, if◌then◌else◌, if_true, Str, if_true,
}

-- `struct requestMsg`
pub record Request : Type 0 where
  pub client_id : ℕ
  pub pathname : Str

-- What comes to the server, whose requests are of a type `R` (the server of hw9/52-3 has the same
-- loop): a request, an interruption of `msgrcv`, another error of it, the end of
-- a child, and the two signals.
pub data Happening (R : Type 0) : Type 0 where
  request : R → Happening R
  interrupted : Happening R
  broken : Happening R
  child_ends : Happening R
  sigchld : Happening R
  sigint : Happening R

-- The requests that were given to children, the children at work and those that ended and were not
-- waited for, and whether the queue is removed and the server is over.
pub record Server (R : Type 0) : Type 0 where
  pub served : List R
  pub working : ℕ
  pub zombies : ℕ
  pub removed : Bool
  pub is_over : Bool

-- `while (waitpid(-1, NULL, WNOHANG) > 0)`: the children that are left.
unfoldable pub reap : ℕ → ℕ
reap zero = 0
reap (suc zombies) = reap zombies

module _ {R : Type 0} where
  abbrev pub started : Server R
  started = record { served = []; working = 0; zombies = 0; removed = false; is_over = false }

  -- `__clean_serverId`
  unfoldable pub on_signal : (is_sigchld : Bool) → Server R → Server R
  unfolding reap
  on_signal true s = record s { zombies = reap s.zombies }
  on_signal false s = record s { removed = true; is_over = true }

  -- The end of the loop and what follows it.
  abbrev pub leave : Server R → Server R
  leave s = record s { removed = true; is_over = true }

  unfoldable pub serve_step : Happening R → Server R → Server R
  unfolding on_signal
  serve_step (request r) s = record s { served = s.served ++ (r ∷ []); working = suc s.working }
  serve_step interrupted s = s
  serve_step broken s = leave s
  serve_step child_ends s = record s {
    working = s.working - 1;
    zombies = s.zombies + min 1 s.working;
  }
  serve_step sigchld s = on_signal true s
  serve_step sigint s = on_signal false s

  -- Nothing happens any more once the server is over.
  unfoldable pub serve_loop : List (Happening R) → Server R → Server R
  unfolding serve_step
  serve_loop [] s = s
  serve_loop (h ∷ hs) s = let rest = serve_loop hs (serve_step h s) in if s.is_over then s else rest

  -- What ends the server.
  abbrev pub ends : Happening R → Bool
  ends (request r) = false
  ends interrupted = false
  ends broken = true
  ends child_ends = false
  ends sigchld = false
  ends sigint = true

  -- The requests up to what ends the server.
  abbrev pub requests : List (Happening R) → List R
  requests [] = []
  requests (request r ∷ hs) = r ∷ requests hs
  requests (interrupted ∷ hs) = requests hs
  requests (broken ∷ hs) = []
  requests (child_ends ∷ hs) = requests hs
  requests (sigchld ∷ hs) = requests hs
  requests (sigint ∷ hs) = []

  -- Something ends the server.
  abbrev pub any_end : List (Happening R) → Bool
  any_end [] = false
  any_end (h ∷ hs) = ends h || any_end hs

  serve_loop_over :
      (hs : List (Happening R)) (s : Server R) → s.is_over ≡ true → serve_loop hs s ≡ s
  unfolding serve_loop
  serve_loop_over [] s h = refl
  serve_loop_over (x ∷ hs) s h = if_true _ h

  -- The facts about a run from any state that is not over.
  record Outcome (hs : List (Happening R)) (s t : Server R) : Type 0 where
    served : t.served ≡ s.served ++ requests hs
    is_over : t.is_over ≡ any_end hs
    removed : t.removed ≡ any_end hs

  Outcome-step :
      (x : Happening R) (hs : List (Happening R)) (s : Server R)
      → s.is_over ≡ false
      → Outcome (x ∷ hs) s (serve_loop hs (serve_step x s))
      → Outcome (x ∷ hs) s (serve_loop (x ∷ hs) s)
  unfolding serve_loop
  Outcome-step x hs s h o =
      subst (λ b. Outcome (x ∷ hs) s (if b then s else serve_loop hs (serve_step x s))) (sym h) o

  Outcome-leave :
      (hs : List (Happening R)) (s : Server R) (x : Happening R)
      → requests (x ∷ hs) ≡ []
      → any_end (x ∷ hs) ≡ true
      → Outcome (x ∷ hs) s (serve_loop hs (leave s))
  Outcome-leave hs s x no_more last =
      subst (Outcome (x ∷ hs) s) (sym (serve_loop_over hs (leave s) refl)) (record {
        served = sym (ap (λ rs. s.served ++ rs) no_more ∙ append-nil s.served);
        is_over = sym last;
        removed = sym last;
      })

  serve_loop-from :
      (hs : List (Happening R)) (s : Server R)
      → s.is_over ≡ false
      → s.removed ≡ false
      → Outcome hs s (serve_loop hs s)
  unfolding serve_loop serve_step on_signal
  serve_loop-from [] s h k = record { served = sym (append-nil s.served); is_over = h; removed = k }
  serve_loop-from (request r ∷ hs) s h k =
      let o = serve_loop-from hs (serve_step (request r) s) h k in
      Outcome-step (request r) hs s h (record {
        served = o.served ∙ append_assoc s.served (r ∷ []) (requests hs);
        is_over = o.is_over;
        removed = o.removed;
      })
  serve_loop-from (interrupted ∷ hs) s h k =
      let o = serve_loop-from hs s h k in
      Outcome-step interrupted hs s h
        (record { served = o.served; is_over = o.is_over; removed = o.removed })
  serve_loop-from (broken ∷ hs) s h k =
      Outcome-step broken hs s h (Outcome-leave hs s broken refl refl)
  serve_loop-from (child_ends ∷ hs) s h k =
      let o = serve_loop-from hs (serve_step child_ends s) h k in
      Outcome-step child_ends hs s h
        (record { served = o.served; is_over = o.is_over; removed = o.removed })
  serve_loop-from (sigchld ∷ hs) s h k =
      let o = serve_loop-from hs (serve_step sigchld s) h k in
      Outcome-step sigchld hs s h
        (record { served = o.served; is_over = o.is_over; removed = o.removed })
  serve_loop-from (sigint ∷ hs) s h k =
      Outcome-step sigint hs s h (Outcome-leave hs s sigint refl refl)

  -- The server gives every request that comes before its end to a child, once and in their order,
  -- whatever interrupts it in between; it ends exactly at an error of `msgrcv` that is no interruption
  -- or at a SIGINT, and the queue is removed exactly if it ends.
  pub serve_loop_lem :
      (hs : List (Happening R))
      → ((serve_loop hs started).served ≡ requests hs)
        × ((serve_loop hs started).is_over ≡ any_end hs)
        × ((serve_loop hs started).removed ≡ any_end hs)
  serve_loop_lem hs =
      let o = serve_loop-from hs started refl refl in (o.served, o.is_over, o.removed)
