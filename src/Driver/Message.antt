-- ===== src/Driver/Message.antt =====
-- The message of hw12/demo.c: what `sprintf` leaves in the 80 bytes of `msg`.
use nsysu_system_programming.Prelude.{
  ℕ, zero, suc, ◌+◌, ◌-◌, ◌*◌, ◌/◌, ◌%◌, ◌^◌, ◌≤◌, ◌<◌, ◌≡◌, refl, ◌∙◌, ◌≢◌, inl, inr, Bool, true,
  not, ◌&&◌, List, [], ◌∷◌, ◌++◌, arith, ltb, ◌==◌, Bool-cases, length, drop, All, length-append,
  length-drop, All-append, Str, codes, ℤ, pos, negsuc, decimal_ℤ, digits_from, if_keeps,
}
use nsysu_system_programming.Driver.{Device, buf_len, signed_int, greeting, print_into, greet}

-- The text stands at the front of the buffer, before its NUL.
pub record Holds (text : Str) (msg : List ℕ) : Type 0 where
  pub rest : List ℕ
  pub shape : msg ≡ text ++ (0 ∷ rest)
  pub visible : All (λ c. c ≢ 0) text

abbrev pub ten_to : ℕ → ℕ
ten_to zero = 1
ten_to (suc k) = 10 * ten_to k

length-digits_from :
    (fuel n : ℕ) (acc : Str) (k : ℕ)
    → n < ten_to (suc k)
    → length (digits_from fuel n acc) ≤ length acc + suc k
length-digits_from zero n acc k h = omega arith
length-digits_from (suc fuel) n acc zero h =
    let last : (n / 10 == 0) ≡ true = ground arith in rw last (omega arith)
length-digits_from (suc fuel) n acc (suc k) h = elim (Bool-cases (n / 10 == 0)) [
  | inl e ↦ rw e (omega arith)
  | inr e ↦
      let more = length-digits_from fuel (n / 10) ((48 + n % 10) ∷ acc) k (omega arith) in
      rw e (omega arith)
]

digits_from-visible :
    (fuel n : ℕ) (acc : Str) → All (λ c. c ≢ 0) acc → All (λ c. c ≢ 0) (digits_from fuel n acc)
digits_from-visible zero n acc h = h
digits_from-visible (suc fuel) n acc h =
    if_keeps (All (λ c. c ≢ 0)) (n / 10 == 0) (omega arith, h)
      (digits_from-visible fuel (n / 10) _ (omega arith, h))

length-decimal_ℤ : (c : ℕ) → c < 2 ^ 32 → length (decimal_ℤ (signed_int c)) ≤ 11
unfolding decimal_ℤ
length-decimal_ℤ c h = elim (Bool-cases (ltb c (2 ^ 31))) [
  | inl e ↦ let few = length-digits_from (suc c) c [] 9 (omega arith) in rw e (omega arith)
  | inr e ↦
      let n = suc (2 ^ 32 - 1 - c) in
      let few = length-digits_from (suc n) n [] 9 (ground arith) in rw e (omega arith)
]

decimal_ℤ-visible : (a : ℤ) → All (λ c. c ≢ 0) (decimal_ℤ a)
unfolding decimal_ℤ
decimal_ℤ-visible (pos n) = digits_from-visible (suc n) n [] tt
decimal_ℤ-visible (negsuc n) = (omega arith, digits_from-visible (suc (suc n)) (suc n) [] tt)

abbrev all_visible : Str → Bool
all_visible [] = true
all_visible (c ∷ s) = not (c == 0) && all_visible s

All-visible : (s : Str) → all_visible s ≡ true → All (λ c. c ≢ 0) s
All-visible [] h = tt
All-visible (c ∷ s) h = (ground arith, All-visible s (ground arith))

greeting-visible : (c : ℕ) → All (λ b. b ≢ 0) (greeting c)
unfolding greeting
greeting-visible c =
    All-append (λ (b : ℕ). b ≢ 0) (codes "I already told you ") _
      (All-visible (codes "I already told you ") refl)
      (All-append (λ (b : ℕ). b ≢ 0) (decimal_ℤ (signed_int c)) _ (decimal_ℤ-visible (signed_int c))
        (All-visible (codes " times Hello world!" ++ (10 ∷ [])) refl))

length-greeting : (c : ℕ) → c < 2 ^ 32 → length (greeting c) < buf_len
unfolding greeting
length-greeting c h =
    let number = decimal_ℤ (signed_int c) in
    let few = length-decimal_ℤ c h in
    let whole = length-append number (codes " times Hello world!" ++ (10 ∷ [])) in
    rw whole (omega arith)

length-print_into :
    (buf : List ℕ) (text : Str)
    → length text < length buf
    → length (print_into buf text) ≡ length buf
unfolding print_into
length-print_into buf text h =
    rw (length-append text (0 ∷ drop (suc (length text)) buf))
      (rw (length-drop (suc (length text)) buf) (omega arith))

-- `device_open` leaves the text of the counter in `msg` and does not write outside of its 80 bytes,
-- whatever the counter is.
pub greet-Holds :
    (got : Bool) (d : Device)
    → d.counter < 2 ^ 32
    → length d.msg ≡ buf_len
    → Holds (greeting d.counter) (greet got d).msg
      × (length (greeting d.counter) < buf_len)
      × (length (greet got d).msg ≡ buf_len)
unfolding greet
greet-Holds got d small whole =
    let fits = length-greeting d.counter small in
    (
      record { rest = _; shape = refl; visible = greeting-visible d.counter },
      fits,
      length-print_into d.msg (greeting d.counter) (omega arith) ∙ whole,
    )
