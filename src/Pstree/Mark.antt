-- ===== src/Pstree/Mark.antt =====
-- `MarkChildren` and `MarkProcs` of hw3/part2.c: which processes will be printed. The walks take
-- fuel, and `none` is a walk that does not end.
pub mod Children
use nsysu_system_programming.Prelude.{
  [], ℕ, zero, suc, Bool, true, false, not, ◌&&◌, ◌||◌, Option, none, some, List, ◌∷◌, ◌==◌,
  if◌then◌else◌, length, Str, codes, str_eq, ℤ, int_eq,
}
use nsysu_system_programming.Pstree.Table.{Proc, proc, modify}

-- The options that the marking reads: `showall`, `soption`, `Uoption`, `Hoption`, `name`, `str`,
-- `ipid`, and `MyPid`.
pub record Filter : Type 0 where
  pub show_all : Bool
  pub soption : Bool
  pub uoption : Bool
  pub hoption : Bool
  pub user : Str
  pub text : Str
  pub ipid : ℤ
  pub my_pid : ℤ

-- `s` begins with `t`.
unfoldable pub starts_with : Str → Str → Bool
starts_with s [] = true
starts_with [] (y ∷ t) = false
starts_with (x ∷ s) (y ∷ t) = (x == y) && starts_with s t

-- `strstr(s, t) != NULL`
unfoldable pub contains : Str → Str → Bool
unfolding starts_with
contains [] t = starts_with [] t
contains (x ∷ s) t = starts_with (x ∷ s) t || contains s t

-- The test of `MarkProcs` for the options -u, -U, -p and -s.
pub matches : Filter → Proc → Bool
matches o p =
    str_eq p.name o.user
    || (o.uoption && not (str_eq p.name (codes "root")))
    || int_eq p.pid o.ipid
    || (o.soption && contains p.cmd o.text && not (int_eq p.pid o.my_pid))

pub set_print : List Proc → ℕ → List Proc
set_print ps i = modify ps i (λ r. record r { print = true })

-- The loop of `MarkChildren` over the sisters from `link` on, with the calls that it makes.
pub mark_from : ℕ → List Proc → Option ℕ → Option (List Proc)
unfolding set_print
mark_from zero ps link = none
mark_from (suc fuel) ps none = some ps
mark_from (suc fuel) ps (some c) =
    elim (mark_from fuel (set_print ps c) (proc (set_print ps c) c).child) [
      | none ↦ none
      | some qs ↦ mark_from fuel qs (proc qs c).sister
    ]

pub mark_children : ℕ → List Proc → ℕ → Option (List Proc)
unfolding mark_from
mark_children fuel ps me = mark_from fuel (set_print ps me) (proc (set_print ps me) me).child

-- The loop over the parents of a selected process.
pub mark_parents : ℕ → Bool → List Proc → Option ℕ → Option (List Proc)
mark_parents zero hide ps link = none
mark_parents (suc fuel) hide ps none = some ps
mark_parents (suc fuel) hide ps (some p) =
    let qs = modify ps p (λ r. record r { print = true; hidden = hide || r.hidden }) in
    mark_parents fuel hide qs (proc qs p).parent

-- One round of the loop of `MarkProcs`.
pub mark_one : ℕ → Filter → List Proc → ℕ → Option (List Proc)
unfolding set_print
mark_one fuel o ps me =
    if o.show_all
    then some (set_print ps me)
    else if matches o (proc ps me)
    then (let qs = modify ps me (λ r. record r { selected = true }) in
        elim (mark_parents fuel o.hoption qs (proc qs me).parent) [
          | none ↦ none
          | some rs ↦ mark_children fuel rs me
        ])
    else some ps

-- The loop, with `n` rounds left from `me` on.
pub mark_loop : ℕ → Filter → ℕ → ℕ → List Proc → Option (List Proc)
mark_loop fuel o zero me ps = some ps
mark_loop fuel o (suc n) me ps = elim (mark_one fuel o ps me) [
  | none ↦ none
  | some qs ↦ mark_loop fuel o n (suc me) qs
]

pub mark_procs : ℕ → Filter → List Proc → Option (List Proc)
mark_procs fuel o ps = mark_loop fuel o (length ps) 0 ps
