-- ===== src/Seqnum/Ranges.antt =====
-- The ranges that the server of hw8/44-6 hands out do not overlap, as long as `seqNum` does not wrap.
use nsysu_system_programming.Prelude.{
  ℕ, zero, suc, ◌+◌, ◌%◌, ◌^◌, ◌≤◌, ◌<◌, ◌≡◌, refl, ap, ◌∙◌, true, false, some, List, [], ◌∷◌,
  arith, get_elem?,
}
use nsysu_system_programming.Seqnum.{Event, partial, request, Grant, serve_one, serve}

abbrev pub total : List Grant → ℕ
total [] = 0
total (g ∷ gs) = g.seq_len + total gs

-- All that the requests ask for.
abbrev pub asked : List Event → ℕ
asked [] = 0
asked (partial ∷ es) = asked es
asked (request pid n opens good written ∷ es) = n + asked es

-- Each range begins where the one before it ends.
abbrev pub IsConsecutive : ℕ → List Grant → Type 0
IsConsecutive n [] = Unit
IsConsecutive n (g ∷ gs) = (g.start ≡ n) × IsConsecutive (n + g.seq_len) gs

abbrev pub Covers : Grant → ℕ → Type 0
Covers g x = (g.start ≤ x) × (x < g.start + g.seq_len)

-- Where the requests ask for fewer than 2^32 numbers together with those that were handed out before:
-- the ranges follow on each other without a gap, whichever clients could not be reached, and `seqNum`
-- ends behind the last of them.
pub serve-IsConsecutive :
    (es : List Event) (n : ℕ)
    → n + asked es < 2 ^ 32
    → IsConsecutive n (serve n es).0 × ((serve n es).1 ≡ n + total (serve n es).0)
unfolding serve serve_one
serve-IsConsecutive [] n h = (tt, omega arith)
serve-IsConsecutive (partial ∷ es) n h = serve-IsConsecutive es n h
serve-IsConsecutive (request pid k false good written ∷ es) n h =
    serve-IsConsecutive es n (omega (arith, h))
serve-IsConsecutive (request pid k true false written ∷ es) n h =
    serve-IsConsecutive es n (omega (arith, h))
serve-IsConsecutive (request pid k true true written ∷ es) n h =
    let no_wrap : (n + k) % 2 ^ 32 ≡ n + k = omega (arith, h) in
    let (rest, last) = serve-IsConsecutive es (n + k) (omega (arith, h)) in
    rw no_wrap ((refl, rest), last ∙ omega arith)

Covers-later :
    (gs : List Grant) (n j x : ℕ) (g : Grant)
    → IsConsecutive n gs
    → get_elem? gs j ≡ some g
    → Covers g x
    → n ≤ x
Covers-later [] n j x g c e h = absurd (ground arith)
Covers-later (g' ∷ gs) n zero x g c e h = ground arith
Covers-later (g' ∷ gs) n (suc j) x g c e h =
    let further = Covers-later gs (n + g'.seq_len) j x g c.1 e h in omega arith

one_range :
    (gs : List Grant) (n i j x : ℕ) (g g' : Grant)
    → IsConsecutive n gs
    → get_elem? gs i ≡ some g
    → get_elem? gs j ≡ some g'
    → Covers g x
    → Covers g' x
    → i ≡ j
one_range [] n i j x g g' c ei ej hi hj = absurd (ground arith)
one_range (g0 ∷ gs) n zero zero x g g' c ei ej hi hj = refl
one_range (g0 ∷ gs) n zero (suc j) x g g' c ei ej hi hj =
    let further = Covers-later gs (n + g0.seq_len) j x g' c.1 ej hj in absurd (ground arith)
one_range (g0 ∷ gs) n (suc i) zero x g g' c ei ej hi hj =
    let further = Covers-later gs (n + g0.seq_len) i x g c.1 ei hi in absurd (ground arith)
one_range (g0 ∷ gs) n (suc i) (suc j) x g g' c ei ej hi hj =
    ap suc (one_range gs (n + g0.seq_len) i j x g g' c.1 ei ej hi hj)

-- Where the requests ask for fewer than 2^32 numbers altogether, no number is handed out twice: two
-- ranges that have a number in common are the same one.
pub serve_unique :
    (es : List Event) (i j x : ℕ) (g g' : Grant)
    → asked es < 2 ^ 32
    → get_elem? (serve 0 es).0 i ≡ some g
    → get_elem? (serve 0 es).0 j ≡ some g'
    → Covers g x
    → Covers g' x
    → i ≡ j
serve_unique es i j x g g' small =
    one_range (serve 0 es).0 0 i j x g g' (serve-IsConsecutive es 0 (omega arith)).0
