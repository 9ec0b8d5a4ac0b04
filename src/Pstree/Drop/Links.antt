-- ===== src/Pstree/Drop/Links.antt =====
-- `DropProcs` (hw3/part2.c) takes each link of a printed process to the first printed process of
-- the walk that it began, and changes nothing else but the mark of a hidden root.
use mathlib.Core.Path.{subst}
use native.Mathlib.Decide.{dec_lt, ℕ_discrete}
use nsysu_system_programming.Prelude.{
  ℕ, zero, suc, ◌+◌, ◌≤◌, ◌<◌, ◌≡◌, refl, sym, ap, ◌∙◌, inl, inr, Bool, true, false, ◌&&◌, ◌||◌,
  Option, none, some, List, [], ◌∷◌, arith, if◌then◌else◌, Bool-cases, if_true, length, get_or-out,
  pos, int_eq,
}
use nsysu_system_programming.Pstree.Table.{
  blank, Proc, proc, modify, field-modify, Edited, Edited-modify, Edited-refl,
}
use nsysu_system_programming.Pstree.Make.Kids.{Chain}
use nsysu_system_programming.Pstree.Drop.{
  skip, drop_links, hide_root, drop_one, drop_loop, drop_procs,
}

-- The first printed process among those of a walk.
abbrev pub first_printed : List Proc → List ℕ → Option ℕ
first_printed ps [] = none
first_printed ps (i ∷ l) = if (proc ps i).print then some i else first_printed ps l

-- `qs` has the marks of `ps`, and the sister links of its unprinted processes.
record Walks (ps qs : List Proc) : Type 0 where
  print : (i : ℕ) → (proc qs i).print ≡ (proc ps i).print
  sister : (i : ℕ) → (proc ps i).print ≡ false → (proc qs i).sister ≡ (proc ps i).sister

skip_lem :
    (fuel : ℕ) (ps qs : List Proc) (link : Option ℕ) (l : List ℕ)
    → Walks ps qs
    → length l < fuel
    → Chain ps link l
    → skip fuel qs link ≡ some (first_printed ps l)
unfolding skip
skip_lem zero ps qs link l w lt ch = absurd (omega arith)
skip_lem (suc fuel) ps qs link [] w lt ch = rw ch
skip_lem (suc fuel) ps qs link (c ∷ l) w lt ch = elim (Bool-cases (proc ps c).print) [
  | inl e ↦ rw ch.0 (rw (w.print c, e, skip))
  | inr e ↦ rw ch.0 (
      rw (w.print c, e, skip)
        (skip_lem fuel ps qs (proc qs c).sister l w (omega arith) (rw (w.sister c e) ch.1)))
]

-- What `DropProcs` makes of the entry `i`, whose links begin the walks `below` and `after`.
abbrev pub dropped : Bool → List Proc → (ℕ → List ℕ) → (ℕ → List ℕ) → ℕ → Proc
dropped roption ps below after i =
    let r = proc ps i in
    if r.print
    then record r {
      child = first_printed ps (below i);
      sister = first_printed ps (after i);
      hidden = (roption && int_eq r.pid (pos 1)) || r.hidden;
    }
    else r

module _ (fuel : ℕ) (roption : Bool) (ps : List Proc) (below after : ℕ → List ℕ)
    (chains : (i : ℕ)
      → Chain ps (proc ps i).child (below i) × Chain ps (proc ps i).sister (after i))
    (short : (i : ℕ) → (length (below i) < fuel) × (length (after i) < fuel)) where
  -- The first `k` entries are done, the others untouched.
  record Dropped (k : ℕ) (qs : List Proc) : Type 0 where
    size : length qs ≡ length ps
    done : (i : ℕ) → i < k → proc qs i ≡ dropped roption ps below after i
    left : (i : ℕ) → k ≤ i → proc qs i ≡ proc ps i

  dropped-print : (i : ℕ) → (dropped roption ps below after i).print ≡ (proc ps i).print
  dropped-print i = ground arith

  dropped-sister :
      (i : ℕ) → (proc ps i).print ≡ false → (dropped roption ps below after i) ≡ proc ps i
  dropped-sister i e = rw e

  Dropped-Walks : (k : ℕ) (qs : List Proc) → Dropped k qs → Walks ps qs
  Dropped-Walks k qs d = record {
    print = λ i. elim (dec_lt i k) [
      | yes lt ↦ rw (d.done i lt) (dropped-print i)
      | no ge ↦ ap (λ (r : Proc). r.print) (d.left i (omega arith))
    ];
    sister = λ i e. elim (dec_lt i k) [
      | yes lt ↦ ap (λ (r : Proc). r.sister) (d.done i lt ∙ dropped-sister i e)
      | no ge ↦ ap (λ (r : Proc). r.sister) (d.left i (omega arith))
    ];
  }

  -- The entry `k` with its links passed on, before a root is hidden.
  relinked : ℕ → Proc
  relinked k = record (proc ps k) {
    child = first_printed ps (below k);
    sister = first_printed ps (after k);
  }

  drop_links_lem :
      (k : ℕ) (qs : List Proc)
      → k < length ps
      → Dropped k qs
      → (rs : List Proc) × (drop_links fuel qs k ≡ some rs) × Edited qs rs k (relinked k)
  unfolding drop_links relinked
  drop_links_lem k qs lt d = (
    modify ts k (λ r. record r { sister = first_printed ps (after k) }),
    rw (first, drop_links) (rw (second, drop_links)),
    Edited-modify _ in_qs (Edited-modify _ in_qs (Edited-refl qs k at_k)),
  )
    where
      w : Walks ps qs
      w = Dropped-Walks k qs d

      at_k : proc qs k ≡ proc ps k
      at_k = d.left k (omega arith)

      in_qs : k < length qs
      in_qs = omega (arith, d.size)

      first : skip fuel qs (proc qs k).child ≡ some (first_printed ps (below k))
      first = skip_lem fuel ps qs _ (below k) w (short k).0 (rw at_k (chains k).0)

      ts : List Proc
      ts = modify qs k (λ r. record r { child = first_printed ps (below k) })

      w' : Walks ps ts
      w' = record {
        print = λ i. field-modify qs k _ (λ r. r.print) (λ r. refl) i ∙ w.print i;
        sister = λ i e. field-modify qs k _ (λ r. r.sister) (λ r. refl) i ∙ w.sister i e;
      }

      link : (proc ts k).sister ≡ (proc ps k).sister
      link = field-modify qs k _ (λ r. r.sister) (λ r. refl) k ∙ ap (λ (r : Proc). r.sister) at_k

      second : skip fuel ts (proc ts k).sister ≡ some (first_printed ps (after k))
      second = skip_lem fuel ps ts _ (after k) w' (short k).1 (rw link (chains k).1)

  hide_root_lem :
      (k : ℕ) (qs rs : List Proc)
      → k < length qs
      → (proc ps k).print ≡ true
      → Edited qs rs k (relinked k)
      → Edited qs (hide_root roption rs k) k (dropped roption ps below after k)
  unfolding hide_root relinked
  hide_root_lem k qs rs lt shown e =
      subst (Edited qs (hide_root roption rs k) k) (sym (if_true (proc ps k) shown))
        (elim (Bool-cases (roption && int_eq (proc ps k).pid (pos 1))) [
          | inl c ↦ rw (same, c) (Edited-modify (λ r. record r { hidden = true }) lt e)
          | inr c ↦ rw (same, c) e
        ])
    where
      same : (proc rs k).pid ≡ (proc ps k).pid
      same = ap (λ (r : Proc). r.pid) e.here

  Dropped-step :
      (k : ℕ) (qs rs : List Proc)
      → Dropped k qs
      → Edited qs rs k (dropped roption ps below after k)
      → Dropped (suc k) rs
  Dropped-step k qs rs d e = record {
    size = e.size ∙ d.size;
    done = λ i lt. elim (ℕ_discrete k i) [
      | yes here ↦ rw (← here) e.here
      | no ne ↦ e.other i ne ∙ d.done i (omega arith)
    ];
    left = λ i ge. e.other i (omega arith) ∙ d.left i (omega arith);
  }

  drop_one_lem :
      (k : ℕ) (qs : List Proc)
      → k < length ps
      → Dropped k qs
      → (rs : List Proc) × (drop_one fuel roption qs k ≡ some rs) × Dropped (suc k) rs
  unfolding drop_one
  drop_one_lem k qs lt d = elim (Bool-cases (proc ps k).print) [
    | inl shown ↦
        let (rs, e, edited) = drop_links_lem k qs lt d in
        (
          _,
          rw ((Dropped-Walks k qs d).print k, shown) (rw (e, drop_one)),
          Dropped-step k qs _ d (hide_root_lem k qs rs (omega (arith, d.size)) shown edited),
        )
    | inr unseen ↦ (
      qs,
      rw ((Dropped-Walks k qs d).print k, unseen),
      Dropped-step k qs qs d
          (Edited-refl qs k (d.left k (omega arith) ∙ sym (dropped-sister k unseen))),
    )
  ]

  drop_loop_lem :
      (n k : ℕ) (qs : List Proc)
      → k + n ≡ length ps
      → Dropped k qs
      → (rs : List Proc) × (drop_loop fuel roption n k qs ≡ some rs) × Dropped (length ps) rs
  unfolding drop_loop
  drop_loop_lem zero k qs e d =
      let here : k ≡ length ps = omega arith in (qs, refl, subst (λ m. Dropped m qs) here d)
  drop_loop_lem (suc n) k qs e d =
      let (rs, step, d') = drop_one_lem k qs (omega arith) d in
      let (ts, rest, done) = drop_loop_lem n (suc k) rs (omega arith) d' in
      (ts, rw (step, drop_loop) rest, done)

  -- Where every walk along sisters ends in fewer steps than the fuel, `DropProcs` ends. A printed
  -- process then has as child and as sister the first printed process of the walks that these began,
  -- is hidden if it is the root under -r, and is otherwise unchanged; so is every other process.
  pub drop_procs_lem :
      (qs : List Proc) × (drop_procs fuel roption ps ≡ some qs)
      × (length qs ≡ length ps)
      × ((i : ℕ) → proc qs i ≡ dropped roption ps below after i)
  unfolding drop_procs
  drop_procs_lem =
      let start : Dropped 0 ps = record {
        size = refl;
        done = λ i lt. absurd (omega arith);
        left = λ i ge. refl;
      } in
      let (qs, e, d) = drop_loop_lem (length ps) 0 ps (omega arith) start in
      (qs, e, d.size, λ i. everywhere qs d i)
    where
      everywhere :
          (qs : List Proc)
          → Dropped (length ps) qs
          → (i : ℕ) → proc qs i ≡ dropped roption ps below after i
      everywhere qs d i = elim (dec_lt i (length ps)) [
        | yes lt ↦ d.done i lt
        | no out ↦
            let outside = get_or-out ps i blank (omega arith) in
            get_or-out qs i blank (omega (arith, d.size))
            ∙ sym (dropped-sister i (ap (λ (r : Proc). r.print) outside) ∙ outside)
      ]
