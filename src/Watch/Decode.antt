-- ===== src/Watch/Decode.antt =====
-- The events that the loop of hw6/1/main.c finds in a buffer are those that were put into it.
use nsysu_system_programming.Prelude.{
  ℕ, zero, suc, ◌+◌, ◌-◌, ◌*◌, ◌/◌, ◌%◌, ◌^◌, ◌≤◌, ◌<◌, ◌≡◌, refl, sym, ap, ◌∙◌, ◌⊎◌, inl, inr,
  false, List, [], ◌∷◌, ◌++◌, append-nil, append_assoc, arith, ◌==◌, length, take, drop, replicate,
  All, length-append, length-replicate, Str, drop-append, take-append, before_nul,
  before_nul-append, before_nul_self,
}
use nsysu_system_programming.Watch.{Event, word_at, event_at, events}

-- The bytes of a 32-bit field.
abbrev pub word : ℕ → Str
word n = n % 256 ∷ n / 256 % 256 ∷ n / 65536 % 256 ∷ n / 16777216 % 256 ∷ []

word_back :
    (n : ℕ)
    → n < 2 ^ 32
    → n % 256 + 256 * (n / 256 % 256 + 256 * (n / 65536 % 256 + 256 * (n / 16777216 % 256))) ≡ n
word_back n h = omega arith

-- An event as the kernel writes it: the four fields and the name, padded with NULs to the length.
abbrev pub encode : Event → Str
encode e =
    word e.wd
    ++ (word e.mask
        ++ (word e.cookie ++ (word e.len ++ (e.name ++ replicate (e.len - length e.name) 0))))

abbrev pub encode_all : List Event → Str
encode_all [] = []
encode_all (e ∷ es) = encode e ++ encode_all es

-- The fields are words, and the length leaves room for the NUL of the name, or is 0 if there is none.
pub record IsEvent (e : Event) : Type 0 where
  pub wd_word : e.wd < 2 ^ 32
  pub mask_word : e.mask < 2 ^ 32
  pub cookie_word : e.cookie < 2 ^ 32
  pub len_word : e.len < 2 ^ 32
  pub solid : All (λ c. (c == 0) ≡ false) e.name
  pub room : (length e.name < e.len) ⊎ (length e.name ≡ e.len)

before_nul-replicate :
    (k : ℕ) (s : Str) → All (λ c. (c == 0) ≡ false) s → before_nul (s ++ replicate k 0) ≡ s
before_nul-replicate zero s h = ap before_nul (append-nil s) ∙ before_nul_self s h
before_nul-replicate (suc k) s h = before_nul-append s (replicate k 0) h

take-name :
    (n : ℕ) (name rest : Str)
    → length name ≤ n
    → take n (name ++ (replicate (n - length name) 0 ++ rest))
      ≡ name ++ replicate (n - length name) 0
take-name n name rest h =
    let field = name ++ replicate (n - length name) 0 in
    let whole : length field ≡ n = omega (
      arith,
      length-append name (replicate (n - length name) 0),
      length-replicate {A = ℕ} (n - length name) 0,
    ) in
    ap (take n) (sym (append_assoc name (replicate (n - length name) 0) rest))
    ∙ ap (λ m. take m (field ++ rest)) (sym whole)
    ∙ take-append field rest

abbrev event_of : ℕ → ℕ → ℕ → ℕ → Str → Event
event_of wd mask cookie len name = record {
  wd = wd;
  mask = mask;
  cookie = cookie;
  len = len;
  name = name;
}

-- Where the fields of an event lie.
flat :
    (e : Event) (rest : Str)
    → encode e ++ rest
      ≡ word e.wd
        ++ (word e.mask
            ++ (word e.cookie
                ++ (word e.len ++ (e.name ++ (replicate (e.len - length e.name) 0 ++ rest)))))
flat e rest =
    ap (λ zs. word e.wd ++ (word e.mask ++ (word e.cookie ++ (word e.len ++ zs))))
      (append_assoc e.name (replicate (e.len - length e.name) 0) rest)

event_at-encode : (e : Event) (rest : Str) → IsEvent e → event_at (encode e ++ rest) ≡ e
unfolding event_at
event_at-encode e rest h =
    let tail = e.name ++ (replicate (e.len - length e.name) 0 ++ rest) in
    let fits : length e.name ≤ e.len = elim h.room [
      | inl less ↦ omega arith
      | inr same ↦ omega arith
    ] in
    ap event_at (flat e rest)
    ∙ ap
        (λ n.
          event_of n (word_at 0 (word e.mask)) (word_at 0 (word e.cookie)) (word_at 0 (word e.len))
            (before_nul (take (word_at 0 (word e.len)) tail)))
        (word_back e.wd h.wd_word)
    ∙ ap
        (λ n.
          event_of e.wd n (word_at 0 (word e.cookie)) (word_at 0 (word e.len))
            (before_nul (take (word_at 0 (word e.len)) tail)))
        (word_back e.mask h.mask_word)
    ∙ ap
        (λ n.
          event_of e.wd e.mask n (word_at 0 (word e.len))
            (before_nul (take (word_at 0 (word e.len)) tail)))
        (word_back e.cookie h.cookie_word)
    ∙ ap (λ n. event_of e.wd e.mask e.cookie n (before_nul (take n tail)))
        (word_back e.len h.len_word)
    ∙ ap (λ s. event_of e.wd e.mask e.cookie e.len (before_nul s))
        (take-name e.len e.name rest fits)
    ∙ ap (event_of e.wd e.mask e.cookie e.len)
        (before_nul-replicate (e.len - length e.name) e.name h.solid)

length-encode : (e : Event) → IsEvent e → length (encode e) ≡ 16 + e.len
length-encode e h =
    let fits : length e.name ≤ e.len = elim h.room [
      | inl less ↦ omega arith
      | inr same ↦ omega arith
    ] in
    omega (
      arith,
      length-append e.name (replicate (e.len - length e.name) 0),
      length-replicate {A = ℕ} (e.len - length e.name) 0,
    )

drop-encode : (e : Event) (rest : Str) → IsEvent e → drop (16 + e.len) (encode e ++ rest) ≡ rest
drop-encode e rest h =
    ap (λ n. drop n (encode e ++ rest)) (sym (length-encode e h)) ∙ drop-append (encode e) rest

events-encode :
    (fuel : ℕ) (es : List Event)
    → All IsEvent es
    → length (encode_all es) ≤ fuel
    → events fuel (encode_all es) ≡ es
unfolding events
events-encode zero [] h enough = refl
events-encode zero (e ∷ es) h enough =
    absurd (omega (arith, length-encode e h.0, length-append (encode e) (encode_all es)))
events-encode (suc fuel) [] h enough = refl
events-encode (suc fuel) (e ∷ es) h enough =
    let shorter : length (encode_all es) ≤ fuel =
      omega (arith, length-encode e h.0, length-append (encode e) (encode_all es)) in
    let first = event_at-encode e (encode_all es) h.0 in
    ap (λ f. f ∷ events fuel (drop (16 + f.len) (encode e ++ encode_all es))) first
    ∙ ap (λ zs. e ∷ events fuel zs) (drop-encode e (encode_all es) h.0)
    ∙ ap (λ zs. e ∷ zs) (events-encode fuel es h.1 shorter)

-- The loop over a buffer of whole events comes to its end and handles each of them once, in their
-- order, with its fields and its name.
pub events_lem :
    (es : List Event) → All IsEvent es → events (length (encode_all es)) (encode_all es) ≡ es
events_lem es h = events-encode (length (encode_all es)) es h (omega arith)
