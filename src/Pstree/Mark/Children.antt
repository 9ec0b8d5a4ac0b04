-- ===== src/Pstree/Mark/Children.antt =====
-- `MarkChildren` (hw3/part2.c) ends on a table whose links unfold to a forest, and marks exactly the
-- process and its descendants.
use native.Mathlib.Decide.{ℕ_discrete}
use mathlib.Core.Logic.{⊎_elim}
use nsysu_system_programming.Prelude.{
  ℕ, zero, suc, ◌<◌, ◌≡◌, refl, sym, ap, ◌∙◌, ◌≢◌, ◌↔◌, ◌⊎◌, inl, inr, true, false, Option, some,
  List, arith, length,
}
use nsysu_system_programming.Pstree.Table.{
  Proc, proc, length-modify, proc-modify_self, proc-modify_ne, field-modify,
}
use nsysu_system_programming.Pstree.Forest.{
  Forest, nil, node, Shows, size, Every, In, in_below, in_after, Shows-frame, In-cases, In-at_node,
  In-or-not,
}
use nsysu_system_programming.Pstree.Mark.{set_print, mark_from, mark_children}

-- An entry with its mark taken off.
abbrev pub unmarked : Proc → Proc
unmarked r = record r { print = false }

-- `qs` differs from `ps` in the marks alone.
pub record SameButPrint (ps qs : List Proc) : Type 0 where
  pub size : length qs ≡ length ps
  pub entry : (i : ℕ) → unmarked (proc qs i) ≡ unmarked (proc ps i)

SameButPrint-trans :
    {ps qs rs : List Proc} → SameButPrint ps qs → SameButPrint qs rs → SameButPrint ps rs
SameButPrint-trans a b = record { size = b.size ∙ a.size; entry = λ i. b.entry i ∙ a.entry i }

Shows-SameButPrint :
    {ps qs : List Proc} (f : Forest) (link : Option ℕ)
    → SameButPrint ps qs
    → Shows ps link f
    → Shows qs link f
Shows-SameButPrint {ps} {qs} f link same =
    Shows-frame ps qs f link
      (λ i. (ap (λ (r : Proc). r.child) (same.entry i), ap (λ (r : Proc). r.sister) (same.entry i)))

set_print-SameButPrint : (ps : List Proc) (i : ℕ) → SameButPrint ps (set_print ps i)
unfolding set_print
set_print-SameButPrint ps i = record {
  size = length-modify ps i _;
  entry = field-modify ps i _ unmarked (λ r. refl);
}

-- What a marking of the processes `S` does to the table.
record Marks (S : ℕ → Type 0) (ps qs : List Proc) : Type 0 where
  same : SameButPrint ps qs
  marked : (i : ℕ) → S i → (proc qs i).print ≡ true
  kept : (i : ℕ) → (proc ps i).print ≡ true → (proc qs i).print ≡ true
  others : (i : ℕ) → ¬ S i → (proc qs i).print ≡ (proc ps i).print

set_print-Marks :
    (ps : List Proc) (me : ℕ) → me < length ps → Marks (λ i. i ≡ me) ps (set_print ps me)
unfolding set_print
set_print-Marks ps me lt = record {
  same = set_print-SameButPrint ps me;
  marked = λ i e. rw e here;
  kept = λ i p. elim (ℕ_discrete i me) [ yes e ↦ rw e here | no ne ↦ rw (other i ne) p ];
  others = λ i ne. ap (λ (r : Proc). r.print) (other i ne);
}
  where
    here : (proc (set_print ps me) me).print ≡ true
    here = ap (λ (r : Proc). r.print) (proc-modify_self ps me _ lt)

    other : (i : ℕ) → i ≢ me → proc (set_print ps me) i ≡ proc ps i
    other i ne = proc-modify_ne ps me i _ (λ e. ne (sym e))

-- One marking after another, of processes that together are those of `U`.
Marks-then :
    {S T U : ℕ → Type 0} {ps qs rs : List Proc}
    → ((i : ℕ) → U i → S i ⊎ T i)
    → ((i : ℕ) → S i → U i)
    → ((i : ℕ) → T i → U i)
    → Marks S ps qs
    → Marks T qs rs
    → Marks U ps rs
Marks-then split left right a b = record {
  same = SameButPrint-trans a.same b.same;
  marked = λ i u. elim (split i u) [ inl s ↦ b.kept i (a.marked i s) | inr t ↦ b.marked i t ];
  kept = λ i p. b.kept i (a.kept i p);
  others = λ i nu. b.others i (λ t. nu (right i t)) ∙ a.others i (λ s. nu (left i s));
}

Marks-nil : (ps : List Proc) → Marks (λ i. In i nil) ps ps
Marks-nil ps = record {
  same = record { size = refl; entry = λ i. refl };
  marked = λ i m. elim m [ ];
  kept = λ i p. p;
  others = λ i n. refl;
}

-- The claim of `mark_from_lem` at one fuel.
abbrev MarksFrom : ℕ → Type 0
MarksFrom fuel =
    (ps : List Proc) (link : Option ℕ) (f : Forest)
    → size f < fuel
    → Every (λ i. i < length ps) f
    → Shows ps link f
    → (qs : List Proc) × (mark_from fuel ps link ≡ some qs) × Marks (λ i. In i f) ps qs

-- The mark of `me`, then the loop over its children.
mark_below :
    (fuel : ℕ)
    → MarksFrom fuel
    → (ps : List Proc) (me : ℕ) (f : Forest) → size f < fuel
    → me < length ps
    → Every (λ i. i < length ps) f
    → Shows ps (proc ps me).child f
    → (qs : List Proc) × (mark_from fuel (set_print ps me) (proc (set_print ps me) me).child
        ≡ some qs)
      × Marks (λ i. (i ≡ me) ⊎ In i f) ps qs
mark_below fuel loop ps me f lt in_me in_f s =
    let first = set_print-Marks ps me in_me in
    let same = first.same in
    let link = ap (λ (r : Proc). r.child) (same.entry me) in
    let (qs, e, rest) =
      loop (set_print ps me) (proc (set_print ps me) me).child f lt (rw same.size in_f)
        (rw link (Shows-SameButPrint f _ same s)) in
    (qs, e, Marks-then (λ i u. u) (λ i. inl) (λ i. inr) first rest)

mark_from_lem : (fuel : ℕ) → MarksFrom fuel
unfolding mark_from
mark_from_lem zero ps link f lt every s = absurd (omega arith)
mark_from_lem (suc fuel) ps link nil lt every s = (ps, rw s, Marks-nil ps)
mark_from_lem (suc fuel) ps link (node c f g) lt every s =
    let (qs, e, first) =
      mark_below fuel (mark_from_lem fuel) ps c f (omega arith) every.0 every.1 s.1 in
    let same = first.same in
    let link' = ap (λ (r : Proc). r.sister) (same.entry c) in
    let (rs, e', rest) =
      mark_from_lem fuel qs (proc qs c).sister g (omega arith) (rw same.size every.2)
        (rw link' (Shows-SameButPrint g _ same s.2)) in
    (
      rs,
      rw (s.0, mark_from) (rw (e, mark_from) e'),
      Marks-then (λ i m. regroup (In-cases m)) (λ i. ⊎_elim (In-at_node f g) in_below)
          (λ i. in_after) first rest,
    )
  where
    regroup : {A B C : Type 0} → A ⊎ (B ⊎ C) → (A ⊎ B) ⊎ C
    regroup (inl a) = inl (inl a)
    regroup (inr (inl b)) = inl (inr b)
    regroup (inr (inr c)) = inr c

-- Where the children of `me` unfold to a forest of the table with fewer processes than the fuel,
-- `MarkChildren` ends and changes only marks: afterwards exactly the processes are marked that were
-- marked before, and `me` and its descendants.
pub mark_children_lem :
    (fuel : ℕ) (ps : List Proc) (me : ℕ) (f : Forest)
    → size f < fuel
    → me < length ps
    → Every (λ i. i < length ps) f
    → Shows ps (proc ps me).child f
    → (qs : List Proc) × (mark_children fuel ps me ≡ some qs)
      × SameButPrint ps qs
      × ((i : ℕ) → ((proc qs i).print ≡ true) ↔ (((proc ps i).print ≡ true) ⊎ ((i ≡ me) ⊎ In i f)))
unfolding mark_children
mark_children_lem fuel ps me f lt in_me in_f s =
    let (qs, e, m) = mark_below fuel (mark_from_lem fuel) ps me f lt in_me in_f s in
    (qs, e, m.same, λ i. (only m i, ⊎_elim (m.kept i) (m.marked i)))
  where
    only :
        {qs : List Proc}
        → Marks (λ i. (i ≡ me) ⊎ In i f) ps qs
        → (i : ℕ) → (proc qs i).print ≡ true
        → ((proc ps i).print ≡ true) ⊎ ((i ≡ me) ⊎ In i f)
    only m i p = elim (ℕ_discrete i me) [
      | yes e ↦ inr (inl e)
      | no ne ↦ elim (In-or-not i f) [
        | inl inside ↦ inr (inr inside)
        | inr out ↦ inl (sym (m.others i (⊎_elim ne out)) ∙ p)
      ]
    ]
