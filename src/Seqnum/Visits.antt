-- ===== src/Seqnum/Visits.antt =====
-- What the clients of hw8/44-6 get of the server, whatever its calls give.
use nsysu_system_programming.Prelude.{
  ℕ, zero, suc, ◌+◌, ◌^◌, ◌≤◌, ◌<◌, ◌≡◌, refl, sym, ap, ◌∙◌, ◌≢◌, inl, inr, Bool, true, false,
  Option, none, some, List, [], ◌∷◌, ◌++◌, map, arith, if◌then◌else◌, length, get_elem?, replicate,
  take, drop, All, Option-cases, if_true, if_false, length-map, some_inj, none_ne_some,
}
use nsysu_system_programming.Seqnum.{serve_one}
use nsysu_system_programming.Seqnum.Clients.{Ended, client, dos_client_closed}
use nsysu_system_programming.Seqnum.Rounds.{
  Visit, visitor, Arrival, arrival, event, respond, waits, blocks, after_round, round_response,
  after_asking, response_to, silent, responses,
}

-- The server does not wait for it for ever.
abbrev pub IsServed : Arrival → Type 0
IsServed a = blocks a ≡ false

silent_append : (more : List Arrival) → silent more ≡ replicate (length more) none
silent_append [] = refl
silent_append (a ∷ more) = ap (λ t. none ∷ t) (silent_append more)

responses-blocked :
    (before after : List Arrival) (a : Arrival) (seq_num : ℕ)
    → All IsServed before
    → blocks a ≡ true
    → responses seq_num (before ++ (a ∷ after))
      ≡ responses seq_num before ++ replicate (suc (length after)) none
unfolding responses
responses-blocked [] after a seq_num served h =
    ap (λ r. r ∷ (if blocks a then silent after else responses (after_asking seq_num a) after))
      (if_true (round_response seq_num a a.asked) h)
    ∙ ap (λ t. none ∷ t) (if_true _ h)
    ∙ ap (λ t. none ∷ t) (silent_append after)
responses-blocked (b ∷ before) after a seq_num served h =
    let next = after_asking seq_num b in
    ap (λ t. response_to seq_num b ∷ t)
      (if_false (silent (before ++ (a ∷ after))) served.0
        ∙ responses-blocked before after a next served.1 h
        ∙ ap (λ t. t ++ replicate (suc (length after)) none)
            (sym (if_false (silent before) served.0)))

-- A client whose FIFO is gone changes nothing for the others.
passed_over :
    (a : Arrival) (seq_num : ℕ)
    → a.finds ≡ false
    → (blocks a ≡ false) × (after_asking seq_num a ≡ seq_num) × (response_to seq_num a ≡ none)
unfolding respond serve_one event
passed_over a seq_num h = elim (Option-cases a.asked) [
  | inl e ↦ ground (arith, e)
  | inr (n, e) ↦ ground (arith, e, h)
]

silent-inserted :
    (before after : List Arrival) (a : Arrival)
    → silent (before ++ (a ∷ after))
      ≡ take (length before) (silent (before ++ after))
        ++ (none ∷ drop (length before) (silent (before ++ after)))
silent-inserted [] after a = refl
silent-inserted (b ∷ before) after a = ap (λ t. none ∷ t) (silent-inserted before after a)

inserted_if :
    (blocked : Bool) (k : ℕ) (quiet quiet_with rest rest_with : List (Option ℕ))
    → quiet_with ≡ take k quiet ++ (none ∷ drop k quiet)
    → rest_with ≡ take k rest ++ (none ∷ drop k rest)
    → (if blocked then quiet_with else rest_with)
      ≡ take k (if blocked then quiet else rest)
        ++ (none ∷ drop k (if blocked then quiet else rest))
inserted_if true k quiet quiet_with rest rest_with e f = e
inserted_if false k quiet quiet_with rest rest_with e f = f

responses-passed_over :
    (before after : List Arrival) (a : Arrival) (seq_num : ℕ)
    → a.finds ≡ false
    → responses seq_num (before ++ (a ∷ after))
      ≡ take (length before) (responses seq_num (before ++ after))
        ++ (none ∷ drop (length before) (responses seq_num (before ++ after)))
unfolding responses
responses-passed_over [] after a seq_num h =
    let over = passed_over a seq_num h in
    ap (λ r. r ∷ (if blocks a then silent after else responses (after_asking seq_num a) after))
      over.2
    ∙ ap (λ t. none ∷ t) (if_false (silent after) over.0)
    ∙ ap (λ k. none ∷ responses k after) over.1
responses-passed_over (b ∷ before) after a seq_num h =
    let next = after_asking seq_num b in
    ap (λ t. response_to seq_num b ∷ t)
      (inserted_if (blocks b) (length before) (silent (before ++ after))
        (silent (before ++ (a ∷ after))) (responses next (before ++ after))
        (responses next (before ++ (a ∷ after))) (silent-inserted before after a)
        (responses-passed_over before after a next h))

dos_blocks :
    (v : Visit) (n : ℕ)
    → v.is_dos ≡ true
    → (arrival v).asked ≡ some n
    → v.whole ≡ true
    → v.finds ≡ true
    → blocks (arrival v) ≡ true
unfolding arrival visitor
dos_blocks v n h e whole finds =
    let c = record (v.calls) { response = none } in
    let shut : (visitor v none).has_opened ≡ false =
      ap (λ x. Ended.has_opened x) (if_true (client false c) h) ∙ dos_client_closed c in
    ap (λ a. waits a (arrival v)) e ∙ ground (arith, shut, whole, finds)

-- A dos_client whose request is read whole. Where the server opens its FIFO before the client has
-- removed it, the service ends: the clients before it, at none of which the server waits for ever, get
-- what they get without it; this one and all that come after it get nothing, for ever. Where the client
-- has removed its FIFO before, it gets nothing, and all others get what they get without it.
pub dos_lem :
    (before after : List Visit) (v : Visit) (n seq_num : ℕ)
    → All IsServed (map arrival before)
    → v.is_dos ≡ true
    → (arrival v).asked ≡ some n
    → v.whole ≡ true
    → (v.finds ≡ true
        → responses seq_num (map arrival before ++ (arrival v ∷ map arrival after))
          ≡ responses seq_num (map arrival before) ++ replicate (suc (length after)) none)
      × (v.finds ≡ false
          → let without = responses seq_num (map arrival before ++ map arrival after) in
            responses seq_num (map arrival before ++ (arrival v ∷ map arrival after))
            ≡ take (length before) without ++ (none ∷ drop (length before) without))
unfolding arrival
dos_lem before after v n seq_num served h e whole = (
  λ finds.
      responses-blocked (map arrival before) (map arrival after) (arrival v) seq_num served
        (dos_blocks v n h e whole finds)
      ∙ ap (λ k. responses seq_num (map arrival before) ++ replicate (suc k) none)
          (length-map arrival after),
  λ gone.
      let without = responses seq_num (map arrival before ++ map arrival after) in
      responses-passed_over (map arrival before) (map arrival after) (arrival v) seq_num gone
      ∙ ap (λ k. take k without ++ (none ∷ drop k without)) (length-map arrival before),
)

silent_nothing : (more : List Arrival) (j b : ℕ) → get_elem? (silent more) j ≢ some (some b)
silent_nothing [] j b e = none_ne_some e
silent_nothing (a ∷ more) zero b e = none_ne_some (some_inj e)
silent_nothing (a ∷ more) (suc j) b e = silent_nothing more j b e

-- A response behind the first one is one of a server that goes on.
still_running :
    (blocked : Bool) (more : List Arrival) (rest : List (Option ℕ)) (j b : ℕ)
    → get_elem? (if blocked then silent more else rest) j ≡ some (some b)
    → get_elem? rest j ≡ some (some b)
still_running true more rest j b e = absurd (silent_nothing more j b e)
still_running false more rest j b e = e

abbrev pub wanted : Option ℕ → ℕ
wanted none = 0
wanted (some n) = n

abbrev pub all_wanted : List Arrival → ℕ
all_wanted [] = 0
all_wanted (a ∷ more) = wanted a.asked + all_wanted more

respond_bounds :
    (a : Arrival) (n seq_num : ℕ)
    → seq_num + n < 2 ^ 32
    → (seq_num ≤ (respond seq_num a n).1)
      × ((respond seq_num a n).1 ≤ seq_num + n)
      × ((b : ℕ)
          → (respond seq_num a n).0 ≡ some b
          → (b ≡ seq_num) × ((respond seq_num a n).1 ≡ seq_num + n))
unfolding respond serve_one event
respond_bounds a n seq_num h = (ground arith, ground arith, λ b e. ground arith)

abbrev Moves : ℕ → Option ℕ → ℕ → Option ℕ → Type 0
Moves seq_num asked after given =
    (seq_num ≤ after)
    × (after ≤ seq_num + wanted asked)
    × ((b : ℕ) → given ≡ some b → (b ≡ seq_num) × (after ≡ seq_num + wanted asked))

round-Moves :
    (asked : Option ℕ) (a : Arrival) (seq_num : ℕ)
    → seq_num + wanted asked < 2 ^ 32
    → Moves seq_num asked (after_round seq_num a asked) (round_response seq_num a asked)
round-Moves none a seq_num h = (omega arith, omega arith, λ b e. absurd (none_ne_some e))
round-Moves (some n) a seq_num h = respond_bounds a n seq_num h

asking-Moves :
    (blocked : Bool) (asked given : Option ℕ) (seq_num after : ℕ)
    → Moves seq_num asked after given
    → Moves seq_num asked (if blocked then seq_num else after) (if blocked then none else given)
asking-Moves true asked given seq_num after h =
    (omega arith, omega arith, λ b e. absurd (none_ne_some e))
asking-Moves false asked given seq_num after h = h

-- A client that gets a response gets `seqNum`, which moves on by the length.
arrival-Moves :
    (a : Arrival) (seq_num : ℕ)
    → seq_num + wanted a.asked < 2 ^ 32
    → Moves seq_num a.asked (after_asking seq_num a) (response_to seq_num a)
arrival-Moves a seq_num h =
    asking-Moves (blocks a) a.asked (round_response seq_num a a.asked) seq_num
      (after_round seq_num a a.asked) (round-Moves a.asked a seq_num h)

responses-later :
    (xs : List Arrival) (seq_num j b : ℕ)
    → seq_num + all_wanted xs < 2 ^ 32
    → get_elem? (responses seq_num xs) j ≡ some (some b)
    → seq_num ≤ b
unfolding responses
responses-later [] seq_num j b h e = absurd (none_ne_some e)
responses-later (a ∷ xs) seq_num zero b h e =
    let x = (arrival-Moves a seq_num (omega arith)).2 b (some_inj e) in omega (arith, x.0)
responses-later (a ∷ xs) seq_num (suc j) b h e =
    let next = after_asking seq_num a in
    let (low, high, _) = arrival-Moves a seq_num (omega arith) in
    let later =
      responses-later xs next j b (omega (arith, high))
        (still_running (blocks a) xs (responses next xs) j b e) in
    omega (arith, low, later)

-- While `seqNum` does not wrap, no two clients get the same numbers: of two that get responses, the
-- earlier one has all its numbers below those of the later one. The others may ask or not, and each call
-- of the server for any of them, `open` too, may fail or wait for ever.
pub responses_apart :
    (xs : List Arrival) (seq_num i j n a b : ℕ) (x : Arrival)
    → seq_num + all_wanted xs < 2 ^ 32
    → i < j
    → get_elem? xs i ≡ some x
    → x.asked ≡ some n
    → get_elem? (responses seq_num xs) i ≡ some (some a)
    → get_elem? (responses seq_num xs) j ≡ some (some b)
    → a + n ≤ b
unfolding responses
responses_apart [] seq_num i j n a b x h less here asks e f = absurd (none_ne_some e)
responses_apart (y ∷ xs) seq_num zero zero n a b x h less here asks e f = absurd (omega arith)
responses_apart (y ∷ xs) seq_num zero (suc j) n a b x h less here asks e f =
    let next = after_asking seq_num y in
    let got = (arrival-Moves y seq_num (omega arith)).2 a (some_inj e) in
    let size : wanted y.asked ≡ n = ap wanted (ap (λ z. Arrival.asked z) (some_inj here) ∙ asks) in
    let later =
      responses-later xs next j b (omega (arith, got.1))
        (still_running (blocks y) xs (responses next xs) j b f) in
    omega (arith, got.0, got.1, size, later)
responses_apart (y ∷ xs) seq_num (suc i) zero n a b x h less here asks e f = absurd (omega arith)
responses_apart (y ∷ xs) seq_num (suc i) (suc j) n a b x h less here asks e f =
    let next = after_asking seq_num y in
    let (low, high, _) = arrival-Moves y seq_num (omega arith) in
    responses_apart xs next i j n a b x (omega (arith, high)) (omega arith) here asks
      (still_running (blocks y) xs (responses next xs) i a e)
      (still_running (blocks y) xs (responses next xs) j b f)
