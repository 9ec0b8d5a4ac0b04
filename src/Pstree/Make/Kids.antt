-- ===== src/Pstree/Make/Kids.antt =====
-- What `MakeTree` (hw3/part2.c) should link: the children of a process in the order of the table,
-- and the chain that a first child and its sisters make.
use native.Mathlib.Decide.{ℕ_discrete}
use nsysu_system_programming.Prelude.{
  ℕ, zero, suc, ◌≤◌, ◌<◌, ◌≡◌, refl, sym, ◌≢◌, ◌⊎◌, inl, inr, Option, none, some, List, [], ◌∷◌,
  ◌++◌, append-nil, arith, ◌==◌, if◌then◌else◌, Option-cases, length, All, length-append,
  All-append, All-imp,
}
use mathlib.Core.Path.{subst}
use mathlib.Core.List.{Memᴰ}
use mathlib.Core.List.Memᴰ
use nsysu_system_programming.Pstree.Table.{Proc, proc}
use nsysu_system_programming.Pstree.Make.{parent_of, last_sister}

-- `k`, if it is a child of `p`
own : List Proc → ℕ → ℕ → List ℕ
own ps p k = elim (parent_of ps k) [ none ↦ [] | some q ↦ if q == p then k ∷ [] else [] ]

-- the children of `p` among the first `k` processes
pub kids : List Proc → ℕ → ℕ → List ℕ
kids ps p zero = []
kids ps p (suc k) = kids ps p k ++ own ps p k

abbrev pub IsAsc : List ℕ → Type 0
IsAsc [] = Unit
IsAsc (x ∷ xs) = All (λ y. x < y) xs × IsAsc xs

-- the indices that a walk from `link` along the sisters visits
abbrev pub Chain : List Proc → Option ℕ → List ℕ → Type 0
Chain ps link [] = link ≡ none
Chain ps link (i ∷ l) = (link ≡ some i) × Chain ps (proc ps i).sister l

abbrev pub last : ℕ → List ℕ → ℕ
last c [] = c
last c (d ∷ l) = last d l

pub All-mem : (P : ℕ → Type 0) (xs : List ℕ) (x : ℕ) → All P xs → Memᴰ x xs → P x
All-mem P [] x h m = elim m [ ]
All-mem P (y ∷ xs) x h (Memᴰ.head e) = subst P (sym e) h.0
All-mem P (y ∷ xs) x h (Memᴰ.tail m) = All-mem P xs x h.1 m

pub All-last : (P : ℕ → Type 0) (c : ℕ) (l : List ℕ) → All P (c ∷ l) → P (last c l)
All-last P c [] h = h.0
All-last P c (d ∷ l) h = All-last P d l h.1

IsAsc-snoc : (xs : List ℕ) (k : ℕ) → All (λ x. x < k) xs → IsAsc xs → IsAsc (xs ++ k ∷ [])
IsAsc-snoc [] k h a = (tt, tt)
IsAsc-snoc (x ∷ xs) k h a = (All-append _ xs (k ∷ []) a.0 (h.0, tt), IsAsc-snoc xs k h.1 a.1)

lt-suc : (x k : ℕ) → x < k → x < suc k
lt-suc x k h = omega arith

module _ (ps : List Proc) (p : ℕ) where
  pub kids-zero : kids ps p 0 ≡ []
  unfolding kids
  kids-zero = refl

  own-cases :
      (k : ℕ)
      → ((own ps p k ≡ []) × (parent_of ps k ≢ some p))
        ⊎ ((own ps p k ≡ k ∷ []) × (parent_of ps k ≡ some p))
  unfolding own
  own-cases k = elim (Option-cases (parent_of ps k)) [
    | inl e ↦ inl (rw (e, own), λ h. cc)
    | inr (q, e) ↦ elim (ℕ_discrete q p) [
      | yes h ↦ inr (ground arith, ground arith)
      | no h ↦ inl (ground arith, λ g. ground arith)
    ]
  ]

  pub kids-lt : (k : ℕ) → All (λ i. i < k) (kids ps p k)
  unfolding kids
  kids-lt zero = tt
  kids-lt (suc k) =
      let older =
        All-imp (λ x. x < k) (λ x. x < suc k) (kids ps p k) (λ x h. lt-suc x k h) (kids-lt k) in
      elim (own-cases k) [
        | inl (e, _) ↦ rw (e, append-nil) older
        | inr (e, _) ↦ rw e (All-append _ (kids ps p k) (k ∷ []) older (omega arith, tt))
      ]

  pub kids-IsAsc : (k : ℕ) → IsAsc (kids ps p k)
  unfolding kids
  kids-IsAsc zero = tt
  kids-IsAsc (suc k) = elim (own-cases k) [
    | inl (e, _) ↦ rw (e, append-nil) (kids-IsAsc k)
    | inr (e, _) ↦ rw e (IsAsc-snoc (kids ps p k) k (kids-lt k) (kids-IsAsc k))
  ]

  pub kids-parent : (k : ℕ) → All (λ i. parent_of ps i ≡ some p) (kids ps p k)
  unfolding kids
  kids-parent zero = tt
  kids-parent (suc k) = elim (own-cases k) [
    | inl (e, _) ↦ rw (e, append-nil) (kids-parent k)
    | inr (e, h) ↦ rw e (All-append _ (kids ps p k) (k ∷ []) (kids-parent k) (h, tt))
  ]

  pub length-kids : (k : ℕ) → length (kids ps p k) ≤ k
  unfolding kids
  length-kids zero = omega arith
  length-kids (suc k) = elim (own-cases k) [
    | inl (e, _) ↦ rw (e, append-nil) (omega (arith, length-kids k))
    | inr (e, _) ↦ rw (e, length-append) (omega (arith, length-kids k))
  ]

  pub mem-kids : (k i : ℕ) → i < k → parent_of ps i ≡ some p → Memᴰ i (kids ps p k)
  unfolding kids
  mem-kids zero i h e = absurd (omega arith)
  mem-kids (suc k) i h e = elim (ℕ_discrete i k) [
    | no ne ↦ Memᴰ.append_left _ (mem-kids k i (omega arith) e)
    | yes here ↦ elim (own-cases k) [
      | inl (_, other) ↦ absurd (other (rw here at e))
      | inr (mine, _) ↦ rw mine (Memᴰ.append_right (kids ps p k) (Memᴰ.head here))
    ]
  ]

  pub kids-suc :
      (k : ℕ)
      → ((parent_of ps k ≢ some p) × (kids ps p (suc k) ≡ kids ps p k))
        ⊎ ((parent_of ps k ≡ some p) × (kids ps p (suc k) ≡ kids ps p k ++ k ∷ []))
  unfolding kids
  kids-suc k = elim (own-cases k) [
    | inl (e, h) ↦ inl (h, rw (e, append-nil))
    | inr (e, h) ↦ inr (h, rw e)
  ]

pub Chain-frame :
    (ps qs : List Proc) (link : Option ℕ) (l : List ℕ)
    → All (λ i. (proc qs i).sister ≡ (proc ps i).sister) l
    → Chain ps link l
    → Chain qs link l
Chain-frame ps qs link [] h c = c
Chain-frame ps qs link (i ∷ l) h c = (c.0, rw h.0 (Chain-frame ps qs _ l h.1 c.1))

pub last_sister_lem :
    (fuel : ℕ) (ps : List Proc) (c : ℕ) (l : List ℕ)
    → length l < fuel
    → Chain ps (some c) (c ∷ l)
    → last_sister fuel ps c ≡ some (last c l)
unfolding last_sister
last_sister_lem zero ps c l h ch = absurd (omega arith)
last_sister_lem (suc fuel) ps c [] h ch = rw (ch.1, last_sister)
last_sister_lem (suc fuel) ps c (d ∷ l) h ch =
    rw (ch.1.0, last_sister) (last_sister_lem fuel ps d l (omega arith) (refl, ch.1.1))

pub Chain-snoc :
    (ps qs : List Proc) (me c : ℕ) (l : List ℕ)
    → IsAsc (c ∷ l)
    → ((i : ℕ) → i ≢ last c l → (proc qs i).sister ≡ (proc ps i).sister)
    → (proc qs (last c l)).sister ≡ some me
    → (proc qs me).sister ≡ none
    → (link : Option ℕ) → Chain ps link (c ∷ l)
    → Chain qs link (c ∷ (l ++ me ∷ []))
Chain-snoc ps qs me c [] asc same at_last at_me link ch = (ch.0, (at_last, at_me))
Chain-snoc ps qs me c (d ∷ l) asc same at_last at_me link ch =
    let below : c < last d l = All-last (λ y. c < y) d l asc.0 in
    let kept = same c (omega arith) in
    (ch.0, rw kept (Chain-snoc ps qs me d l asc.1 same at_last at_me _ ch.1))
