-- ===== src/Prelude/Lists.antt =====
-- Arrays as lists with native indices, under the library's names.
use Prim.Native.Nat.{ℕ, zero, suc, ◌+◌, ◌-◌, ◌≤◌, ◌<◌, min}
use mathlib.Core.Path.{◌≡◌, refl, ap, sym, ◌∙◌}
use mathlib.Core.Logic.{◌≢◌}
use mathlib.Core.List.{List, [], ◌∷◌, ◌++◌}
use mathlib.Core.Option.{Option, none, some}
use native.Mathlib.Omega.{arith}

module _ {ℓ} {A : Type ℓ} where
  abbrev pub length : List A → ℕ
  length [] = 0
  length (x ∷ xs) = suc (length xs)

  abbrev pub get_elem? : List A → ℕ → Option A
  get_elem? [] i = none
  get_elem? (x ∷ xs) zero = some x
  get_elem? (x ∷ xs) (suc i) = get_elem? xs i

  abbrev pub get_or : List A → ℕ → A → A
  get_or [] i d = d
  get_or (x ∷ xs) zero d = x
  get_or (x ∷ xs) (suc i) d = get_or xs i d

  -- A write out of bounds changes nothing.
  abbrev pub set : List A → ℕ → A → List A
  set [] i v = []
  set (x ∷ xs) zero v = v ∷ xs
  set (x ∷ xs) (suc i) v = x ∷ set xs i v

  abbrev pub take : ℕ → List A → List A
  take zero xs = []
  take (suc n) [] = []
  take (suc n) (x ∷ xs) = x ∷ take n xs

  abbrev pub drop : ℕ → List A → List A
  drop zero xs = xs
  drop (suc n) [] = []
  drop (suc n) (x ∷ xs) = drop n xs

  abbrev pub replicate : ℕ → A → List A
  replicate zero a = []
  replicate (suc n) a = a ∷ replicate n a

  abbrev pub All {κ} : (A → Type κ) → List A → Type κ
  All P [] = Unit
  All P (x ∷ xs) = P x × All P xs

  pub length-append : (xs ys : List A) → length (xs ++ ys) ≡ length xs + length ys
  length-append [] ys = omega arith
  length-append (x ∷ xs) ys = omega (arith, length-append xs ys)

  pub length-set : (xs : List A) (i : ℕ) (v : A) → length (set xs i v) ≡ length xs
  length-set [] i v = refl
  length-set (x ∷ xs) zero v = refl
  length-set (x ∷ xs) (suc i) v = ap suc (length-set xs i v)

  pub length-take : (n : ℕ) (xs : List A) → length (take n xs) ≡ min n (length xs)
  length-take zero xs = omega arith
  length-take (suc n) [] = omega arith
  length-take (suc n) (x ∷ xs) = omega (arith, length-take n xs)

  pub length-drop : (n : ℕ) (xs : List A) → length (drop n xs) ≡ length xs - n
  length-drop zero xs = omega arith
  length-drop (suc n) [] = omega arith
  length-drop (suc n) (x ∷ xs) = omega (arith, length-drop n xs)

  pub length-replicate : (n : ℕ) (a : A) → length (replicate n a) ≡ n
  length-replicate zero a = refl
  length-replicate (suc n) a = ap suc (length-replicate n a)

  pub take-append-drop : (n : ℕ) (xs : List A) → take n xs ++ drop n xs ≡ xs
  take-append-drop zero xs = refl
  take-append-drop (suc n) [] = refl
  take-append-drop (suc n) (x ∷ xs) = rw (take-append-drop n xs)

  pub get_or-set_self :
      (xs : List A) (i : ℕ) (v d : A) → i < length xs → get_or (set xs i v) i d ≡ v
  get_or-set_self [] i v d h = absurd (omega arith)
  get_or-set_self (x ∷ xs) zero v d h = refl
  get_or-set_self (x ∷ xs) (suc i) v d h = get_or-set_self xs i v d (omega arith)

  pub get_or-set_ne :
      (xs : List A) (i j : ℕ) (v d : A) → i ≢ j → get_or (set xs i v) j d ≡ get_or xs j d
  get_or-set_ne [] i j v d h = refl
  get_or-set_ne (x ∷ xs) zero zero v d h = absurd (h refl)
  get_or-set_ne (x ∷ xs) zero (suc j) v d h = refl
  get_or-set_ne (x ∷ xs) (suc i) zero v d h = refl
  get_or-set_ne (x ∷ xs) (suc i) (suc j) v d h = get_or-set_ne xs i j v d (λ e. h (ap suc e))

  pub All-append {κ} : (P : A → Type κ) (xs ys : List A) → All P xs → All P ys → All P (xs ++ ys)
  All-append P [] ys hx hy = hy
  All-append P (x ∷ xs) ys hx hy = (hx.0, All-append P xs ys hx.1 hy)

  pub set-out : (xs : List A) (i : ℕ) (v : A) → length xs ≤ i → set xs i v ≡ xs
  set-out [] i v h = refl
  set-out (x ∷ xs) zero v h = absurd (omega arith)
  set-out (x ∷ xs) (suc i) v h = ap (λ (ys : List A). x ∷ ys) (set-out xs i v (omega arith))

  pub get_or-out : (xs : List A) (i : ℕ) (d : A) → length xs ≤ i → get_or xs i d ≡ d
  get_or-out [] i d h = refl
  get_or-out (x ∷ xs) zero d h = absurd (omega arith)
  get_or-out (x ∷ xs) (suc i) d h = get_or-out xs i d (omega arith)

  pub All-get_or {κ} :
      (P : A → Type κ) (xs : List A) (d : A) → All P xs → P d → (i : ℕ) → P (get_or xs i d)
  All-get_or P [] d h e i = e
  All-get_or P (x ∷ xs) d h e zero = h.0
  All-get_or P (x ∷ xs) d h e (suc i) = All-get_or P xs d h.1 e i

  pub All-imp {κ μ} :
      (P : A → Type κ) (Q : A → Type μ) (xs : List A) → ((x : A) → P x → Q x) → All P xs → All Q xs
  All-imp P Q [] f h = tt
  All-imp P Q (x ∷ xs) f h = (f x h.0, All-imp P Q xs f h.1)

  pub drop-out : (n : ℕ) (xs : List A) → length xs ≤ n → drop n xs ≡ []
  drop-out zero [] h = refl
  drop-out zero (x ∷ xs) h = absurd (omega arith)
  drop-out (suc n) [] h = refl
  drop-out (suc n) (x ∷ xs) h = drop-out n xs (omega arith)

  pub drop-drop : (n m : ℕ) (xs : List A) → drop m (drop n xs) ≡ drop (n + m) xs
  drop-drop zero m xs = let same : 0 + m ≡ m = omega arith in rw same
  drop-drop (suc n) m [] = drop-out m [] (omega arith) ∙ sym (drop-out (suc n + m) [] (omega arith))
  drop-drop (suc n) m (x ∷ xs) =
      let step : suc n + m ≡ suc (n + m) = omega arith in rw step (drop-drop n m xs)

  pub drop-append : (xs ys : List A) → drop (length xs) (xs ++ ys) ≡ ys
  drop-append [] ys = refl
  drop-append (x ∷ xs) ys = drop-append xs ys

  pub take-append : (xs ys : List A) → take (length xs) (xs ++ ys) ≡ xs
  take-append [] ys = refl
  take-append (x ∷ xs) ys = ap (λ (zs : List A). x ∷ zs) (take-append xs ys)

  pub take-all : (n : ℕ) (xs : List A) → length xs ≤ n → take n xs ≡ xs
  take-all zero [] h = refl
  take-all zero (x ∷ xs) h = absurd (omega arith)
  take-all (suc n) [] h = refl
  take-all (suc n) (x ∷ xs) h = ap (λ (ys : List A). x ∷ ys) (take-all n xs (omega arith))

  -- A chunk and what its own length leaves are the whole.
  pub take-append-drop-min : (n : ℕ) (xs : List A) → take n xs ++ drop (min n (length xs)) xs ≡ xs
  take-append-drop-min zero xs =
      let none_taken : min 0 (length xs) ≡ 0 = omega arith in rw none_taken
  take-append-drop-min (suc n) [] =
      let none_taken : min (suc n) 0 ≡ 0 = omega arith in rw none_taken
  take-append-drop-min (suc n) (x ∷ xs) =
      let both : min (suc n) (suc (length xs)) ≡ suc (min n (length xs)) = omega arith in
      rw both (ap (λ (ys : List A). x ∷ ys) (take-append-drop-min n xs))

  pub take-none : (n : ℕ) → take n [] ≡ []
  take-none zero = refl
  take-none (suc n) = refl

  pub take-append-take : (n m : ℕ) (xs : List A) → take n xs ++ take m (drop n xs) ≡ take (n + m) xs
  take-append-take zero m xs = let same : 0 + m ≡ m = omega arith in rw same
  take-append-take (suc n) m [] = take-none m ∙ sym (take-none (suc n + m))
  take-append-take (suc n) m (x ∷ xs) =
      let step : suc n + m ≡ suc (n + m) = omega arith in
      rw step (ap (λ (ys : List A). x ∷ ys) (take-append-take n m xs))

  pub take-min : (n : ℕ) (xs : List A) → take n xs ≡ take (min n (length xs)) xs
  take-min zero xs = let none_taken : min 0 (length xs) ≡ 0 = omega arith in rw none_taken
  take-min (suc n) [] = let none_taken : min (suc n) 0 ≡ 0 = omega arith in rw none_taken
  take-min (suc n) (x ∷ xs) =
      let both : min (suc n) (suc (length xs)) ≡ suc (min n (length xs)) = omega arith in
      rw both (ap (λ (ys : List A). x ∷ ys) (take-min n xs))
