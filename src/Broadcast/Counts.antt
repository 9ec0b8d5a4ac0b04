-- ===== src/Broadcast/Counts.antt =====
-- What the consumers of hw10 can count.
use mathlib.Core.Path.{subst}
use native.Mathlib.Decide.{ℕ_discrete}
use nsysu_system_programming.Prelude.{
  ℕ, zero, suc, ◌+◌, ◌-◌, ◌%◌, ◌^◌, ◌≤◌, ◌<◌, ◌≡◌, refl, ◌∙◌, ◌⊎◌, inl, inr, Bool, true, false,
  List, [], ◌∷◌, arith, ◌==◌, Bool-cases, length, get_or, set, replicate, length-set,
  length-replicate, ℤ, pos, negsuc, int_eq, if_keeps,
}
use nsysu_system_programming.Broadcast.{
  int_gt, Consumer, Status, running, returned, next_slot, consume, System, Step, sends, closes,
  consumes, Reach, start, later,
}

-- How many messages there are up to this one.
abbrev rank : ℤ → ℕ
rank (pos n) = suc n
rank (negsuc n) = 0

-- A message's number, or -1.
abbrev is_number : ℤ → Bool
is_number (pos n) = true
is_number (negsuc zero) = true
is_number (negsuc (suc n)) = false

rank-int_gt :
    (a b : ℤ) → is_number b ≡ true → int_gt a b ≡ true → (rank b < rank a) × (is_number a ≡ true)
rank-int_gt (pos a) (pos b) h gt = (ground arith, refl)
rank-int_gt (pos a) (negsuc b) h gt = (omega arith, refl)
rank-int_gt (negsuc a) (pos b) h gt = absurd (ground arith)
rank-int_gt (negsuc a) (negsuc zero) h gt = absurd (ground arith)
rank-int_gt (negsuc a) (negsuc (suc b)) h gt = absurd (ground arith)

abbrev IsCounting : ℕ → ℕ → ℕ → Status → Type 0
IsCounting data_num buffer_num next (running c) =
    (is_number c.prev ≡ true)
    × (c.counter ≤ rank c.prev)
    × (rank c.prev ≤ next)
    × (c.at < buffer_num)
IsCounting data_num buffer_num next (returned failed) = failed ≤ data_num

-- A slot has no message that is still to be sent; before the first, it counts as the first.
record Inv (data_num buffer_num : ℕ) (s : System) : Type 0 where
  sent : s.next ≤ data_num
  room : length s.slots ≡ buffer_num + 1
  slots : (j : ℕ) → rank (get_or s.slots j (pos 0)) ≤ suc (s.next - 1)
  consumers : (i : ℕ) → IsCounting data_num buffer_num (suc (s.next - 1)) (s.consumer i)

module _ {data_num buffer_num : ℕ} (small : data_num < 2 ^ 31) (some_data : 0 < data_num)
    (some_slot : 0 < buffer_num) where
  get_or-set-rank :
      (xs : List ℤ) (i j m : ℕ) (v : ℤ)
      → rank v ≤ m
      → rank (get_or xs j (pos 0)) ≤ m
      → rank (get_or (set xs i v) j (pos 0)) ≤ m
  get_or-set-rank [] i j m v hv h = h
  get_or-set-rank (x ∷ xs) zero zero m v hv h = hv
  get_or-set-rank (x ∷ xs) zero (suc j) m v hv h = h
  get_or-set-rank (x ∷ xs) (suc i) zero m v hv h = h
  get_or-set-rank (x ∷ xs) (suc i) (suc j) m v hv h = get_or-set-rank xs i j m v hv h

  IsCounting-later :
      (st : Status) (n m : ℕ)
      → n ≤ m
      → IsCounting data_num buffer_num n st
      → IsCounting data_num buffer_num m st
  IsCounting-later (running c) n m le h = (h.0, h.1, omega (arith, le, h.2), h.3)
  IsCounting-later (returned failed) n m le h = h

  next_slot-room : (i : ℕ) → i < buffer_num → next_slot buffer_num i < buffer_num
  next_slot-room i h = ground arith

  consume-IsCounting :
      (next : ℕ) (cur : ℤ) (c : Consumer)
      → next ≤ data_num
      → rank cur ≤ next
      → IsCounting data_num buffer_num next (running c)
      → IsCounting data_num buffer_num next (consume data_num buffer_num cur c)
  unfolding consume
  consume-IsCounting next cur c le hc h = elim (Bool-cases (int_gt cur c.prev)) [
    | inl newer ↦
        let (above, number) = rank-int_gt cur c.prev h.0 newer in
        rw (newer, consume) (number, omega (arith, h.1, above), hc, next_slot-room c.at h.3)
    | inr old ↦ elim (Bool-cases (int_eq cur (negsuc 0))) [
      | inl ended ↦ rw (old, consume) (rw (ended, consume) (omega (arith, h.1, h.2)))
      | inr further ↦
          rw (old, consume) (rw (further, consume) (h.0, h.1, h.2, next_slot-room c.at h.3))
    ]
  ]

  Step-Inv :
      {s t : System}
      → Inv data_num buffer_num s
      → Step data_num buffer_num s t
      → Inv data_num buffer_num t
  Step-Inv {s} inv (sends more) = record {
    sent = omega arith;
    room = length-set s.slots (s.next % buffer_num) (pos s.next) ∙ inv.room;
    slots = λ j.
        get_or-set-rank s.slots (s.next % buffer_num) j _ (pos s.next) (omega arith)
          (let h = inv.slots j in omega arith);
    consumers = λ i. IsCounting-later (s.consumer i) _ _ (omega arith) (inv.consumers i);
  }
  Step-Inv {s} inv (closes all_sent open_still) = record {
    sent = inv.sent;
    room = length-set s.slots (data_num % buffer_num) (negsuc 0) ∙ inv.room;
    slots = λ j.
        get_or-set-rank s.slots (data_num % buffer_num) j _ (negsuc 0) (omega arith) (inv.slots j);
    consumers = inv.consumers;
  }
  Step-Inv {s} inv (consumes i {c} here) = record {
    sent = inv.sent;
    room = inv.room;
    slots = inv.slots;
    consumers = λ j.
        let mine =
          subst (λ st. IsCounting data_num buffer_num (suc (s.next - 1)) st) here
            (inv.consumers i) in
        if_keeps (IsCounting data_num buffer_num (suc (s.next - 1))) (j == i)
          (consume-IsCounting _ (get_or s.slots c.at (pos 0)) c (omega (arith, inv.sent, some_data))
            (inv.slots c.at) mine)
          (inv.consumers j);
  }

  init-rank : (n j : ℕ) → rank (get_or (replicate n (pos 0)) j (pos 0)) ≤ 1
  init-rank zero j = omega arith
  init-rank (suc n) zero = omega arith
  init-rank (suc n) (suc j) = init-rank n j

  Reach-Inv : {s : System} → Reach data_num buffer_num s → Inv data_num buffer_num s
  Reach-Inv start = record {
    sent = omega arith;
    room = length-replicate (buffer_num + 1) (pos 0);
    slots = λ j. (let h = init-rank (buffer_num + 1) j in omega arith);
    consumers = λ i. (refl, omega arith, omega arith, some_slot);
  }
  Reach-Inv (later r st) = Step-Inv (Reach-Inv r) st

  -- For at least one message, fewer than 2^31, and at least one slot: in every reachable state a
  -- consumer in its loop reads within the buffer, and has counted no more messages than were sent,
  -- one at most before the first; and a consumer that has returned has a number of losses between 0
  -- and the number of messages.
  pub counts_lem :
      {s : System} (r : Reach data_num buffer_num s) (i : ℕ)
      → ((c : Consumer) × (s.consumer i ≡ running c)
          × (c.at < length s.slots)
          × ((c.counter ≤ s.next) ⊎ ((s.next ≡ 0) × (c.counter ≤ 1))))
        ⊎ ((failed : ℕ) × (s.consumer i ≡ returned failed) × (failed ≤ data_num))
  counts_lem {s} r i = of_status (s.consumer i) refl (inv.consumers i)
    where
      inv : Inv data_num buffer_num s
      inv = Reach-Inv r

      of_status :
          (st : Status)
          → s.consumer i ≡ st
          → IsCounting data_num buffer_num (suc (s.next - 1)) st
          → ((c : Consumer) × (s.consumer i ≡ running c)
              × (c.at < length s.slots)
              × ((c.counter ≤ s.next) ⊎ ((s.next ≡ 0) × (c.counter ≤ 1))))
            ⊎ ((failed : ℕ) × (s.consumer i ≡ returned failed) × (failed ≤ data_num))
      of_status (running c) e h = inl (
        c,
        e,
        omega (arith, h.3, inv.room),
        elim (ℕ_discrete s.next 0) [
          | yes none_sent ↦ inr (none_sent, omega (arith, h.1, h.2))
          | no some_sent ↦ inl (omega (arith, h.1, h.2))
        ],
      )
      of_status (returned failed) e h = inr (failed, e, h)
