-- ===== src/Prelude/Maps.antt =====
-- `map`, and what holds of all elements, by native indices.
use Prim.Native.Nat.{ℕ, zero, suc, ◌<◌}
use mathlib.Core.Path.{◌≡◌, refl, ap}
use mathlib.Core.Bool.{Bool}
use mathlib.Core.List.{List, [], ◌∷◌, map}
use native.Mathlib.Omega.{arith}
use nsysu_system_programming.Prelude.Lists.{length, get_or, replicate, All}

pub length-map {ℓ κ} :
    {A : Type ℓ} {B : Type κ} (f : A → B) (xs : List A) → length (map f xs) ≡ length xs
length-map f [] = refl
length-map f (x ∷ xs) = ap suc (length-map f xs)

pub get_or-map {ℓ κ} :
    {A : Type ℓ} {B : Type κ} (f : A → B) (xs : List A) (i : ℕ) (a : A) (b : B)
    → i < length xs
    → get_or (map f xs) i b ≡ f (get_or xs i a)
get_or-map f [] i a b h = absurd (omega arith)
get_or-map f (x ∷ xs) zero a b h = refl
get_or-map f (x ∷ xs) (suc i) a b h = get_or-map f xs i a b (omega arith)

pub All-map {ℓ κ} :
    {A : Type ℓ} {B : Type κ} (P : B → Type 0) (f : A → B) (xs : List A)
    → All (λ a. P (f a)) xs
    → All P (map f xs)
All-map P f [] h = tt
All-map P f (x ∷ xs) h = (h.0, All-map P f xs h.1)

pub All-get_or_within {ℓ κ} :
    {A : Type ℓ} (P : A → Type κ) (xs : List A) (i : ℕ) (d : A)
    → All P xs
    → i < length xs
    → P (get_or xs i d)
All-get_or_within P [] i d h within = absurd (omega arith)
All-get_or_within P (x ∷ xs) zero d h within = h.0
All-get_or_within P (x ∷ xs) (suc i) d h within = All-get_or_within P xs i d h.1 (omega arith)

pub map_congr {ℓ κ} :
    {A : Type ℓ} {B : Type κ} (f g : A → B) (xs : List A)
    → All (λ a. f a ≡ g a) xs
    → map f xs ≡ map g xs
map_congr f g [] h = refl
map_congr f g (x ∷ xs) h = rw h.0 (ap (λ zs. g x ∷ zs) (map_congr f g xs h.1))

pub All-replicate :
    (n c : ℕ) (b : Bool) (f : ℕ → Bool) → f c ≡ b → All (λ c. f c ≡ b) (replicate n c)
All-replicate zero c b f h = tt
All-replicate (suc n) c b f h = (h, All-replicate n c b f h)
