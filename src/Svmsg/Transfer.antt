-- ===== src/Svmsg/Transfer.antt =====
-- What the client of hw8/46-2 makes of the messages of the server.
use native.Mathlib.Decide.{ℕ_discrete}
use nsysu_system_programming.Prelude.{
  ℕ, zero, suc, ◌+◌, ◌*◌, ◌%◌, ◌^◌, ◌<◌, ◌≡◌, refl, ap, ◌∙◌, ◌≢◌, ◌↔◌, ◌⊎◌, inl, inr, Bool, true,
  false, none, some, List, [], ◌∷◌, ◌++◌, arith, length, Str, ℤ, pos, negsuc,
}
use nsysu_system_programming.Svmsg.{
  mt_failure, mt_data, mt_end, zero_data, cannot_open, high_word, long_type, Msg, read_into, send,
  send_blocks, serve_request, received, failed, waits, inc, receive, client,
}

-- msgsnd(2): a type that is not positive is refused with `EINVAL`, and any other is sent.
pub record IsMsgsnd (msgsnd : ℕ → Bool) : Type 0 where
  pub positive : (kind : ℕ) → (msgsnd kind ≡ true) ↔ ((0 < kind) × (kind < 2 ^ 63))

-- The buffer once all blocks were read into it.
abbrev pub last_data : Str → List Str → Str
last_data d [] = d
last_data d (c ∷ cs) = last_data (read_into c d) cs

-- Whether the first four bytes of the buffer, once each block is in it, are those of a positive `long`.
abbrev pub IsSendable : Str → List Str → Type 0
IsSendable d [] = Unit
IsSendable d (c ∷ cs) = (high_word (read_into c d) < 2 ^ 31) × IsSendable (read_into c d) cs

abbrev pub total : List Str → ℕ
total [] = 0
total (c ∷ cs) = length c + total cs

abbrev add : ℤ → ℕ → ℤ
add a zero = a
add a (suc n) = add (inc a) n

low_word : (mtype : ℕ) (d : Str) → mtype < 2 ^ 32 → long_type mtype d % 2 ^ 32 ≡ mtype
unfolding long_type
low_word mtype d h = omega arith

end_type :
    (d : Str)
    → high_word d < 2 ^ 31
    → ((high_word d ≡ 0) ↔ (long_type mt_end d ≡ 0)) × (long_type mt_end d < 2 ^ 63)
unfolding long_type
end_type d h = ((λ e. omega arith, λ e. omega arith), omega arith)

failure_type :
    (path : Str)
    → ((0 < long_type mt_failure (read_into (cannot_open path) zero_data))
        × (long_type mt_failure (read_into (cannot_open path) zero_data) < 2 ^ 63))
      × (long_type mt_failure (read_into (cannot_open path) zero_data) % 2 ^ 32 ≡ mt_failure)
unfolding long_type read_into
failure_type path = ((omega arith, omega arith), omega arith)

inc-add : (a : ℤ) (n : ℕ) → inc (add a n) ≡ add (inc a) n
inc-add a zero = refl
inc-add a (suc n) = inc-add (inc a) n

add-pos : (m n : ℕ) → add (pos m) n ≡ pos (m + n)
add-pos m zero = let same : m + 0 ≡ m = omega arith in rw same
add-pos m (suc n) = let step : m + suc n ≡ suc m + n = omega arith in rw step (add-pos (suc m) n)

counted : (n : ℕ) → inc (add (negsuc 0) n) ≡ pos n
counted n = inc-add (negsuc 0) n ∙ (add-pos 0 n ∙ ap pos (omega arith))

last_data-small :
    (cs : List Str) (d : Str)
    → high_word d < 2 ^ 31
    → IsSendable d cs
    → high_word (last_data d cs) < 2 ^ 31
last_data-small [] d h ok = h
last_data-small (c ∷ cs) d h ok = last_data-small cs (read_into c d) ok.0 ok.1

module _ {msgsnd : ℕ → Bool} (sys : IsMsgsnd msgsnd) where
  data_sent : (d : Str) → high_word d < 2 ^ 31 → msgsnd (long_type mt_data d) ≡ true
  unfolding long_type
  data_sent d h = (sys.positive (long_type mt_data d)).1 (omega arith, omega arith)

  -- The blocks, and then whatever follows them on the queue.
  receive-blocks :
      (cs : List Str) (d : Str) (tot : ℕ) (num : ℤ) (qs : List Msg)
      → IsSendable d cs
      → (receive tot num ((send_blocks msgsnd d cs).0 ++ qs)
          ≡ receive (tot + total cs) (add num (length cs)) qs)
        × ((send_blocks msgsnd d cs).1 ≡ last_data d cs)
  unfolding receive send_blocks
  receive-blocks [] d tot num qs ok = let same : tot + 0 ≡ tot = omega arith in (rw same, refl)
  receive-blocks (c ∷ cs) d tot num qs ok =
      let d' = read_into c d in
      let low : long_type mt_data d' % 2 ^ 32 ≡ 1 = low_word mt_data d' (omega arith) in
      let (rest, last) = receive-blocks cs d' (tot + length c * 1) (inc num) qs ok.1 in
      let sum : tot + length c * 1 + total cs ≡ tot + (length c + total cs) = omega arith in
      rw (data_sent d' ok.0, send_blocks)
        (rw (low, receive) (rest ∙ ap (λ t. receive t (add (inc num) (length cs)) qs) sum, last))

  receive-end :
      (d : Str) (tot : ℕ) (num : ℤ)
      → high_word d < 2 ^ 31
      → ((high_word d ≢ 0) × (receive tot num (send msgsnd mt_end d 0) ≡ received tot (inc num)))
        ⊎ ((high_word d ≡ 0) × (receive tot num (send msgsnd mt_end d 0) ≡ waits))
  unfolding receive send
  receive-end d tot num small = elim (ℕ_discrete (high_word d) 0) [
    | yes nul ↦
        let refused : msgsnd (long_type mt_end d) ≡ false =
          ground (arith, sys.positive (long_type mt_end d), end_type d small) in
        inr (nul, rw (refused, send) refl)
    | no some_left ↦
        let taken =
          (sys.positive (long_type mt_end d)).1
            (ground (arith, end_type d small), (end_type d small).1) in
        let low = low_word mt_end d (omega arith) in
        let sum : tot + 0 * 0 ≡ tot = omega arith in
        inl (some_left, rw (taken, send) (rw (low, receive) (ap (λ t. received t (inc num)) sum)))
  ]

  -- The file's blocks are sent where the buffer's first four bytes, after each block, are those of a
  -- number below 2^31. The client then prints the size of the file and the number of blocks if those
  -- bytes are not all NUL after the last block; and if they are, for an empty file or one whose last
  -- block begins with four NULs, the message for the end is refused, and the client waits for ever.
  pub serve_request_lem :
      (cs : List Str) (path : Str)
      → IsSendable zero_data cs
      → ((high_word (last_data zero_data cs) ≢ 0)
          × (client (serve_request msgsnd (some cs) path) ≡ received (total cs) (pos (length cs))))
        ⊎ ((high_word (last_data zero_data cs) ≡ 0)
            × (client (serve_request msgsnd (some cs) path) ≡ waits))
  unfolding client serve_request receive
  serve_request_lem cs path ok =
      let (blocks, last) =
        receive-blocks cs zero_data 0 (negsuc 0)
          (send msgsnd mt_end (send_blocks msgsnd zero_data cs).1 0) ok in
      let small = last_data-small cs zero_data (omega arith) ok in
      let sum : 0 + total cs ≡ total cs = omega arith in
      let same_end =
        ap (λ d. receive (0 + total cs) (add (negsuc 0) (length cs)) (send msgsnd mt_end d 0))
          last in
      elim (receive-end (last_data zero_data cs) (0 + total cs) (add (negsuc 0) (length cs))
        small) [
          | inl (some_left, ends) ↦ inl (
            some_left,
            blocks
                ∙ (same_end
                    ∙ (ends
                        ∙ (ap (λ t. received t (inc (add (negsuc 0) (length cs)))) sum
                            ∙ ap (λ n. received (total cs) n) (counted (length cs))))),
          )
          | inr (nul, lost) ↦ inr (nul, blocks ∙ (same_end ∙ lost))
        ]

  -- For a file that cannot be opened the client prints the failure, whatever the path.
  pub serve_request-failed : (path : Str) → client (serve_request msgsnd none path) ≡ failed
  unfolding client serve_request receive
  serve_request-failed path =
      let d = read_into (cannot_open path) zero_data in
      let (taken, low) = failure_type path in
      rw ((sys.positive (long_type mt_failure d)).1 taken, send) (rw (low, receive) refl)
