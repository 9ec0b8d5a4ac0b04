-- ===== src/Broadcast/Collect.antt =====
-- The arguments of hw10/main.c, and the results of the consumers that come to it by signals: each wait
-- gives the number that a signal brings, or fails.
use nsysu_system_programming.Prelude.{
  ℕ, zero, suc, ◌+◌, ◌-◌, ◌*◌, ◌%◌, ◌^◌, ◌≤◌, ◌<◌, ◌≡◌, ap, ◌∙◌, Option, none, some, List, [], ◌∷◌,
  ◌++◌, map, arith, length, take, Str, ℤ, take-all, atoi,
}

-- `struct Tuple`
pub record Tuple : Type 0 where
  pub data_num : ℤ
  pub sleep_time : ℤ
  pub consumer_num : ℤ
  pub buffer_num : ℤ

-- The four arguments behind the program's name; with any other number of them it ends.
unfoldable pub get_argv : List Str → Option Tuple
unfolding atoi
get_argv (name ∷ m ∷ r ∷ n ∷ b ∷ []) =
    some (record {
      data_num = atoi m;
      sleep_time = atoi r;
      consumer_num = atoi n;
      buffer_num = atoi b;
    })
get_argv argv = none

-- The loop, for `n` values of `i`; a wait that fails ends it. The sum is an unsigned int.
unfoldable pub collect_child : ℕ → (failed_sum : ℕ) → List (Option ℕ) → ℕ
collect_child zero failed_sum waits = failed_sum
collect_child (suc n) failed_sum [] = failed_sum
collect_child (suc n) failed_sum (none ∷ waits) = failed_sum
collect_child (suc n) failed_sum (some value ∷ waits) =
    collect_child n ((failed_sum + value) % 2 ^ 32) waits

-- The total and the sum of received messages that `main` prints.
unfoldable pub received : (data_num consumer_num failed_sum : ℕ) → ℕ × ℕ
received data_num consumer_num failed_sum =
    let tot_msg = (data_num * consumer_num) % 2 ^ 32 in
    (tot_msg, (tot_msg + (2 ^ 32 - failed_sum)) % 2 ^ 32)

abbrev pub total : List ℕ → ℕ
total [] = 0
total (v ∷ vs) = v + total vs

collect_child-sum :
    (n acc : ℕ) (vs : List ℕ) (rest : List (Option ℕ))
    → acc < 2 ^ 32
    → collect_child n acc (map some vs ++ (none ∷ rest)) ≡ (acc + total (take n vs)) % 2 ^ 32
unfolding collect_child
collect_child-sum zero acc vs rest h = omega arith
collect_child-sum (suc n) acc [] rest h = omega arith
collect_child-sum (suc n) acc (v ∷ vs) rest h =
    collect_child-sum n ((acc + v) % 2 ^ 32) vs rest (omega arith) ∙ omega arith

-- The results of the signals up to the first wait that fails, at most one for each of the `n`
-- consumers, are summed up; what would come behind it is left out.
pub collect_child_lem :
    (n : ℕ) (vs : List ℕ) (rest : List (Option ℕ))
    → collect_child n 0 (map some vs ++ (none ∷ rest)) ≡ total (take n vs) % 2 ^ 32
collect_child_lem n vs rest =
    collect_child-sum n 0 vs rest (omega arith) ∙ ap (λ m. m % 2 ^ 32) (omega arith)

-- If every consumer's result arrives, and the messages are fewer than 2^32, the number that is
-- printed as received is the number of messages less the number that the consumers missed.
pub received_lem :
    (data_num : ℕ) (vs : List ℕ) (rest : List (Option ℕ))
    → data_num * length vs < 2 ^ 32
    → total vs ≤ data_num * length vs
    → (received data_num (length vs) (collect_child (length vs) 0 (map some vs ++ (none ∷ rest)))).1
        + total vs
      ≡ data_num * length vs
unfolding received
received_lem data_num vs rest small missed =
    let whole : take (length vs) vs ≡ vs = take-all (length vs) vs (omega arith) in
    let sum = collect_child_lem (length vs) vs rest ∙ ap (λ ws. total ws % 2 ^ 32) whole in
    rw sum (omega arith)
