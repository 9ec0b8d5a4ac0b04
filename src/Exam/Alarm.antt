-- ===== src/Exam/Alarm.antt =====
-- test/1/my_alarm.c, over the real-time timer of the process.
use nsysu_system_programming.Prelude.{ℕ, ◌+◌, ◌≡◌, ap, ◌∙◌, List, [], ◌∷◌, arith}

-- `struct itimerval`: the seconds and microseconds of the interval and of what is left.
pub record Itimerval : Type 0 where
  pub interval_sec : ℕ
  pub interval_usec : ℕ
  pub value_sec : ℕ
  pub value_usec : ℕ

-- `my_alarm`: what it gives, which is what `setitimer` gives, and the timer after it.
unfoldable pub my_alarm : (seconds : ℕ) → Itimerval → ℕ × Itimerval
my_alarm seconds cur = (0, record cur { value_sec = cur.value_sec + seconds })

-- Calls of `my_alarm` one behind the other.
unfoldable pub alarms : List ℕ → Itimerval → Itimerval
unfolding my_alarm
alarms [] cur = cur
alarms (seconds ∷ more) cur = alarms more (my_alarm seconds cur).1

abbrev pub total : List ℕ → ℕ
total [] = 0
total (n ∷ ns) = n + total ns

-- The seconds of all calls add up on the timer.
pub alarms_lem :
    (ns : List ℕ) (cur : Itimerval)
    → alarms ns cur ≡ record cur { value_sec = cur.value_sec + total ns }
unfolding alarms my_alarm
alarms_lem [] cur =
    let same : cur.value_sec ≡ cur.value_sec + 0 = omega arith in
    ap (λ n. record cur { value_sec = n }) same
alarms_lem (n ∷ ns) cur =
    let grows : (cur.value_sec + n) + total ns ≡ cur.value_sec + (n + total ns) = omega arith in
    alarms_lem ns (record cur { value_sec = cur.value_sec + n })
    ∙ ap (λ m. record cur { value_sec = m }) grows
