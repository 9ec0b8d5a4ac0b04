-- ===== src/Pstree/Root/Search.antt =====
-- What the searches of hw3/part2.c find.
use native.Mathlib.Decide.{dec_lt}
use mathlib.Core.List.{Memᴰ}
use nsysu_system_programming.Prelude.{
  ap, ℕ, zero, suc, ◌≤◌, ◌<◌, ◌≡◌, refl, ◌≢◌, ◌⊎◌, inl, inr, Bool, false, Option, none, some, List,
  [], ◌∷◌, ℤ, pos, negsuc, int_eq, int_eq_iff, arith, length, All, Bool-cases,
}
use nsysu_system_programming.Pstree.Table.{Proc, proc}
use nsysu_system_programming.Pstree.Root.{first_pid, get_root_pid, search_down, get_pid_index}

module _ (ps : List Proc) (pid : ℤ) where
  search_down-lt : (n i : ℕ) → search_down ps n pid ≡ some i → (i < n) × ((proc ps i).pid ≡ pid)
  unfolding search_down
  search_down-lt zero i h = cc
  search_down-lt (suc n) i h = ground (arith, search_down-lt n i, int_eq_iff (proc ps n).pid pid)

  -- No entry above the answer has the pid, nor any entry at all if there is no answer.
  abbrev IsAbove : Option ℕ → ℕ → Type 0
  IsAbove none j = Unit
  IsAbove (some i) j = i < j

  search_down-above : (n j : ℕ) → IsAbove (search_down ps n pid) j → j < n → (proc ps j).pid ≢ pid
  unfolding search_down
  search_down-above zero j a lt e = absurd (omega arith)
  search_down-above (suc n) j a lt e = elim (dec_lt j n) [
    | yes below ↦ ground (arith, search_down-above n j, int_eq_iff (proc ps n).pid pid)
    | no top ↦
        let at_top : j ≡ n = omega arith in
        ground (arith, int_eq_iff (proc ps n).pid pid, ap (λ (k : ℕ). (proc ps k).pid) at_top)
  ]

-- An index that `get_pid_index` answers is in the table and has the pid, and no process after it has.
pub get_pid_index-found :
    (ps : List Proc) (pid : ℤ) (i j : ℕ)
    → get_pid_index ps pid ≡ some i
    → (i < length ps)
      × ((proc ps i).pid ≡ pid)
      × ((j ≤ i) ⊎ ((length ps ≤ j) ⊎ ((proc ps j).pid ≢ pid)))
unfolding get_pid_index
get_pid_index-found ps pid i j h =
    let (lt, eq) = search_down-lt ps pid (length ps) i h in (lt, eq, last)
  where
    last : (j ≤ i) ⊎ ((length ps ≤ j) ⊎ ((proc ps j).pid ≢ pid))
    last = elim (dec_lt i j) [
      | no le ↦ inl (omega arith)
      | yes above ↦ elim (dec_lt j (length ps)) [
        | no out ↦ inr (inl (omega arith))
        | yes lt ↦ inr (inr (search_down-above ps pid (length ps) j (rw h above) lt))
      ]
    ]

-- `get_pid_index` answers -1 only if no process of the table has the pid.
pub get_pid_index-none :
    (ps : List Proc) (pid : ℤ) (j : ℕ)
    → get_pid_index ps pid ≡ none
    → j < length ps
    → (proc ps j).pid ≢ pid
unfolding get_pid_index
get_pid_index-none ps pid j h = search_down-above ps pid (length ps) j (rw h tt)

-- Each loop of `GetRootPid` answers with the pid of a process that passes its test, or no process
-- passes the test.
first_pid_lem :
    (test : Proc → Bool) (ps : List Proc)
    → ((a : ℤ) × (first_pid test ps ≡ some a) × ((p : Proc) × Memᴰ p ps × (p.pid ≡ a)))
      ⊎ ((first_pid test ps ≡ none) × All (λ p. test p ≡ false) ps)
unfolding first_pid
first_pid_lem test [] = inr (refl, tt)
first_pid_lem test (q ∷ ps) = elim (Bool-cases (test q)) [
  | inl e ↦ inl (q.pid, rw e, (q, Memᴰ.head refl, refl))
  | inr e ↦ elim (first_pid_lem test ps) [
    | inl (a, h, (p, m, eq)) ↦ inl (a, rw e h, (p, Memᴰ.tail m, eq))
    | inr (h, all) ↦ inr (rw e h, (e, all))
  ]
]

-- The loop answers `a` if every process that passes the test has the pid `a`, and one passes.
first_pid-of_mem :
    (a : ℤ) (ps : List Proc) (p : Proc)
    → Memᴰ p ps
    → p.pid ≡ a
    → first_pid (λ q. int_eq q.pid a) ps ≡ some a
unfolding first_pid
first_pid-of_mem a [] p m h = elim m [ ]
first_pid-of_mem a (q ∷ ps) p (Memᴰ.head e) h =
    ground (arith, int_eq_iff q.pid a, ap (λ (r : Proc). r.pid) e)
first_pid-of_mem a (q ∷ ps) p (Memᴰ.tail m) h =
    ground (arith, int_eq_iff q.pid a, first_pid-of_mem a ps p m h)

-- no process passes the test of any of the four loops
abbrev pub IsUnrooted : Proc → Type 0
IsUnrooted p = (p.pid ≢ pos 1) × (p.ppid ≢ pos 0) × (p.ppid ≢ pos 1) × (p.pid ≢ p.ppid)

All-IsUnrooted :
    (ps : List Proc)
    → All (λ p. int_eq p.pid (pos 1) ≡ false) ps
    → All (λ p. int_eq p.ppid (pos 0) ≡ false) ps
    → All (λ p. int_eq p.ppid (pos 1) ≡ false) ps
    → All (λ p. int_eq p.pid p.ppid ≡ false) ps
    → All IsUnrooted ps
All-IsUnrooted [] a b c d = tt
All-IsUnrooted (p ∷ ps) a b c d = (
  (
    λ e. ground (arith, int_eq_iff p.pid (pos 1)),
    λ e. ground (arith, int_eq_iff p.ppid (pos 0)),
    λ e. ground (arith, int_eq_iff p.ppid (pos 1)),
    λ e. ground (arith, int_eq_iff p.pid p.ppid),
  ),
  All-IsUnrooted ps a.1 b.1 c.1 d.1,
)

-- A process with pid 1 is the root wherever it stands in the table.
pub get_root_pid-one :
    (ps : List Proc) (p : Proc) → Memᴰ p ps → p.pid ≡ pos 1 → get_root_pid ps ≡ pos 1
unfolding get_root_pid
get_root_pid-one ps p m e = rw (first_pid-of_mem (pos 1) ps p m e)

-- `GetRootPid` answers with the pid of a process of the table, or with -1 and then no process passes
-- any of its four tests.
pub get_root_pid_lem :
    (ps : List Proc)
    → ((p : Proc) × Memᴰ p ps × (p.pid ≡ get_root_pid ps))
      ⊎ ((get_root_pid ps ≡ negsuc 0) × All IsUnrooted ps)
unfolding get_root_pid
get_root_pid_lem ps = elim (first_pid_lem (λ p. int_eq p.pid (pos 1)) ps) [
  | inl (a, h, (p, m, eq)) ↦ inl (p, m, rw h eq)
  | inr (h, none_one) ↦ elim (first_pid_lem (λ p. int_eq p.ppid (pos 0)) ps) [
    | inl (a, h0, (p, m, eq)) ↦ inl (p, m, rw (h, h0) eq)
    | inr (h0, none_zero) ↦ elim (first_pid_lem (λ p. int_eq p.ppid (pos 1)) ps) [
      | inl (a, h1, (p, m, eq)) ↦ inl (p, m, rw (h, h0, h1) eq)
      | inr (h1, none_init) ↦ elim (first_pid_lem (λ p. int_eq p.pid p.ppid) ps) [
        | inl (a, h2, (p, m, eq)) ↦ inl (p, m, rw (h, h0, h1, h2) eq)
        | inr (h2, none_self) ↦
            inr (rw (h, h0, h1, h2), All-IsUnrooted ps none_one none_zero none_init none_self)
      ]
    ]
  ]
]

search_down-cong :
    (ps qs : List Proc) (pid : ℤ) (n : ℕ)
    → ((i : ℕ) → (proc qs i).pid ≡ (proc ps i).pid)
    → search_down qs n pid ≡ search_down ps n pid
unfolding search_down
search_down-cong ps qs pid zero h = refl
search_down-cong ps qs pid (suc n) h = rw (h n, search_down-cong ps qs pid n h)

-- The search reads the length of the table and its pids alone.
pub get_pid_index-cong :
    (ps qs : List Proc) (pid : ℤ)
    → length qs ≡ length ps
    → ((i : ℕ) → (proc qs i).pid ≡ (proc ps i).pid)
    → get_pid_index qs pid ≡ get_pid_index ps pid
unfolding get_pid_index
get_pid_index-cong ps qs pid e h = rw e (search_down-cong ps qs pid (length ps) h)
