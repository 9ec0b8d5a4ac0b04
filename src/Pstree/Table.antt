-- ===== src/Pstree/Table.antt =====
-- `struct Proc` and the array `P` of hw3/part2.c. The array is a list, `NProc` is its length, and
-- the index -1 of `parent`, `child` and `sister` is `none`.
use native.Mathlib.Decide.{dec_lt, ℕ_discrete}
use nsysu_system_programming.Prelude.{
  [], ℕ, ◌<◌, ◌≡◌, refl, ◌≢◌, Bool, false, Option, none, List, Str, ℤ, pos, arith, length, get_or,
  set, length-set, get_or-set_self, get_or-set_ne, set-out, ap, ◌≤◌, ◌∙◌,
}

pub record Proc : Type 0 where
  pub uid : ℤ
  pub pid : ℤ
  pub ppid : ℤ
  pub pgid : ℤ
  pub name : Str
  pub cmd : Str
  pub print : Bool
  pub selected : Bool
  pub hidden : Bool
  pub parent : Option ℕ
  pub child : Option ℕ
  pub sister : Option ℕ
  pub thcount : ℕ

-- What a read out of the array gives. No function reads there: see the bounds of `get_pid_index`.
abbrev pub blank : Proc
blank = record {
  uid = pos 0;
  pid = pos 0;
  ppid = pos 0;
  pgid = pos 0;
  name = [];
  cmd = [];
  print = false;
  selected = false;
  hidden = false;
  parent = none;
  child = none;
  sister = none;
  thcount = 0;
}

-- `P[i]`
abbrev pub proc : List Proc → ℕ → Proc
proc ps i = get_or ps i blank

-- An assignment to fields of `P[i]`.
unfoldable pub modify : List Proc → ℕ → (Proc → Proc) → List Proc
modify ps i f = set ps i (f (proc ps i))

pub length-modify : (ps : List Proc) (i : ℕ) (f : Proc → Proc) → length (modify ps i f) ≡ length ps
unfolding modify
length-modify ps i f = length-set ps i (f (proc ps i))

modify-out : (ps : List Proc) (i : ℕ) (f : Proc → Proc) → length ps ≤ i → modify ps i f ≡ ps
unfolding modify
modify-out ps i f h = set-out ps i (f (proc ps i)) h

pub proc-modify_self :
    (ps : List Proc) (i : ℕ) (f : Proc → Proc)
    → i < length ps
    → proc (modify ps i f) i ≡ f (proc ps i)
unfolding modify
proc-modify_self ps i f h = get_or-set_self ps i (f (proc ps i)) blank h

pub proc-modify_ne :
    (ps : List Proc) (i j : ℕ) (f : Proc → Proc) → i ≢ j → proc (modify ps i f) j ≡ proc ps j
unfolding modify
proc-modify_ne ps i j f h = get_or-set_ne ps i j (f (proc ps i)) blank h

-- A field that an assignment does not name keeps its value in every entry.
pub field-modify :
    {A : Type 0} (ps : List Proc) (i : ℕ) (f : Proc → Proc) (g : Proc → A)
    → ((r : Proc) → g (f r) ≡ g r)
    → (j : ℕ) → g (proc (modify ps i f) j) ≡ g (proc ps j)
field-modify ps i f g keep j = elim (dec_lt i (length ps)) [
  | yes lt ↦ elim (ℕ_discrete i j) [
    | yes e ↦ rw (← e) (ap g (proc-modify_self ps i f lt) ∙ keep (proc ps i))
    | no ne ↦ ap g (proc-modify_ne ps i j f ne)
  ]
  | no out ↦ ap (λ (qs : List Proc). g (proc qs j)) (modify-out ps i f (omega arith))
]

-- `rs` differs from `qs` at most in the entry `k`, which is `r` there.
pub record Edited (qs rs : List Proc) (k : ℕ) (r : Proc) : Type 0 where
  pub size : length rs ≡ length qs
  pub here : proc rs k ≡ r
  pub other : (i : ℕ) → k ≢ i → proc rs i ≡ proc qs i

pub Edited-modify :
    {qs rs : List Proc} {k : ℕ} {r : Proc} (f : Proc → Proc)
    → k < length qs
    → Edited qs rs k r
    → Edited qs (modify rs k f) k (f r)
Edited-modify {qs} {rs} {k} {r} f lt e = record {
  size = length-modify rs k f ∙ e.size;
  here = proc-modify_self rs k f (rw e.size lt) ∙ ap f e.here;
  other = λ i ne. proc-modify_ne rs k i f ne ∙ e.other i ne;
}

pub Edited-refl : (qs : List Proc) (k : ℕ) {r : Proc} → proc qs k ≡ r → Edited qs qs k r
Edited-refl qs k e = record { size = refl; here = e; other = λ i ne. refl }
