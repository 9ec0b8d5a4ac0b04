-- ===== src/Driver/System/Invariant.antt =====
-- What every step of the processes that use the device of hw12/demo.c keeps.
use nsysu_system_programming.Prelude.{
  ℕ, ◌+◌, ◌-◌, ◌^◌, ◌≤◌, ◌<◌, min, ◌≡◌, refl, sym, ap, ◌∙◌, ◌⊎◌, inl, inr, Bool, true, false, some,
  List, [], ◌++◌, arith, ◌==◌, if◌then◌else◌, ==_iff, Bool-cases, length, take, drop, length-drop,
  if_true, if_false, Str, take-append-take, take-min, update, if_true, if_false,
}
use nsysu_system_programming.Driver.{
  Device, buf_len, claim, greet, device_read, device_release, device_write,
}
use nsysu_system_programming.Driver.Message.{Holds, greet-Holds}
use nsysu_system_programming.Driver.Read.{device_read_lem}
use nsysu_system_programming.Driver.System.{
  Session, closed, opening, opened, System, Step, refused, claimed, greeted, reads, writes,
  releases, Reach, start, later, holds_device,
}

-- A process that has the device open has read a front part of the message.
pub record Reader (msg : List ℕ) (offset : ℕ) (got : Str) : Type 0 where
  pub text : Str
  pub shown : Holds text msg
  pub within : offset ≤ length text
  pub front : got ≡ take offset text

pub record Inv (s : System) : Type 0 where
  pub small : s.device.counter < 2 ^ 32
  pub whole : length s.device.msg ≡ buf_len
  pub unique :
      (i j : ℕ) → holds_device (s.session i) ≡ true → holds_device (s.session j) ≡ true → i ≡ j
  pub free : s.device.already_open ≡ 0 → (i : ℕ) → holds_device (s.session i) ≡ false
  pub readers :
      (i offset : ℕ) (got : Str) → s.session i ≡ opened offset got → Reader s.device.msg offset got

pub claim-lost : (d : Device) → (claim d).0 ≡ false → (claim d).1 ≡ d
unfolding claim
claim-lost d lost = elim (Bool-cases (d.already_open == 0)) [
  | inl e ↦ absurd (ground arith)
  | inr e ↦ rw e refl
]

pub claim-won :
    (d : Device)
    → (claim d).0 ≡ true
    → (d.already_open ≡ 0) × ((claim d).1 ≡ record d { already_open = 1 })
unfolding claim
claim-won d won = elim (Bool-cases (d.already_open == 0)) [
  | inl e ↦ ((==_iff d.already_open 0).0 e, rw e refl)
  | inr e ↦ absurd (ground arith)
]

-- What a session is after an update is its new value or its old one.
pub update-cases :
    (f : ℕ → Session) (i j : ℕ) (v w : Session)
    → update f i v j ≡ w
    → ((j ≡ i) × (v ≡ w)) ⊎ (f j ≡ w)
update-cases f i j v w h = elim (Bool-cases (j == i)) [
  | inl same ↦ inl ((==_iff j i).0 same, sym (if_true (f j) same) ∙ h)
  | inr other ↦ inr (sym (if_false v other) ∙ h)
]

pub read-Reader :
    (msg : List ℕ) (len offset offset' : ℕ) (old bytes : Str)
    → Reader msg offset old
    → device_read msg len offset ≡ some (bytes, offset')
    → Reader msg offset' (if offset' == 0 then [] else old ++ bytes)
read-Reader msg len offset offset' old bytes r e =
    elim (device_read_lem r.text msg len offset r.shown r.within) [
      | inl (here, ended) ↦
          let back : offset' ≡ 0 = ground (arith, sym e ∙ ended) in
          rw back (record { text = r.text; shown = r.shown; within = omega arith; front = refl })
      | inr (room, more) ↦
          let left = length r.text - offset in
          let on : offset' ≡ offset + min len left = ground (arith, sym e ∙ more) in
          let got : bytes ≡ take len (drop offset r.text) = ground (arith, sym e ∙ more) in
          let chunk : bytes ≡ take (min len left) (drop offset r.text) =
            got
            ∙ (take-min len (drop offset r.text)
                ∙ ap (λ k. take (min len k) (drop offset r.text)) (length-drop offset r.text)) in
          let joined : old ++ bytes ≡ take offset' r.text =
            rw r.front (rw chunk (rw on (take-append-take offset (min len left) r.text))) in
          record {
            text = r.text;
            shown = r.shown;
            within = omega arith;
            front = elim (Bool-cases (offset' == 0)) [
              | inl at_start ↦
                  let zero_now = (==_iff offset' 0).0 at_start in
                  if_true (old ++ bytes) at_start ∙ ap (λ n. take n r.text) (sym zero_now)
              | inr further ↦ if_false [] further ∙ joined
            ];
          }
    ]

pub claimed-Inv :
    {s : System} (i : ℕ)
    → Inv s
    → s.device.already_open ≡ 0
    → Inv (record {
      device = record s.device { already_open = 1 };
      session = update s.session i opening;
    })
claimed-Inv {s} i inv free = record {
  small = inv.small;
  whole = inv.whole;
  unique = λ a b ha hb. ground (arith, inv.free free a, inv.free free b);
  free = λ e. absurd (omega arith);
  readers = λ j offset got h. elim (update-cases s.session i j opening (opened offset got) h) [
    | inl (same, other) ↦ absurd (ground arith)
    | inr old ↦ inv.readers j offset got old
  ];
}

pub greeted-Inv :
    {s : System} (i : ℕ) (got : Bool)
    → Inv s
    → s.session i ≡ opening
    → Inv (record { device = greet got s.device; session = update s.session i (opened 0 []) })
unfolding greet
greeted-Inv {s} i got inv mine =
    let (shown, fits, whole) = greet-Holds got s.device inv.small inv.whole in
    record {
      small = omega arith;
      whole = whole;
      unique = λ a b ha hb. ground (arith, inv.unique a b, inv.unique a i, inv.unique i b);
      free = λ e j. absurd (ground (arith, inv.free e i));
      readers = λ j offset old h.
          elim (update-cases s.session i j (opened 0 []) (opened offset old) h) [
            | inl (same, now) ↦
                let at_start : offset ≡ 0 = ground arith in
                let none_got : old ≡ [] = ground arith in
                rw at_start (
                  rw none_got
                    (record { text = _; shown = shown; within = omega arith; front = refl }))
            | inr before ↦
                absurd let both = inv.unique i j (ground arith) (ground arith) in ground arith
          ];
    }

pub released-Inv :
    {s : System} (i offset : ℕ) (old : Str)
    → Inv s
    → s.session i ≡ opened offset old
    → Inv (record { device = (device_release s.device).1; session = update s.session i closed })
unfolding device_release
released-Inv {s} i offset old inv mine = record {
  small = inv.small;
  whole = inv.whole;
  unique = λ a b ha hb. ground (arith, inv.unique a b);
  free = λ e j. ground (arith, inv.unique i j);
  readers = λ j offset got h. elim (update-cases s.session i j closed (opened offset got) h) [
    | inl (same, other) ↦ absurd (ground arith)
    | inr kept ↦ inv.readers j offset got kept
  ];
}

pub read-Inv :
    {s : System} (i len offset offset' : ℕ) (old bytes : Str)
    → Inv s
    → s.session i ≡ opened offset old
    → device_read s.device.msg len offset ≡ some (bytes, offset')
    → Inv (record s {
      session = update s.session i (opened offset' (if offset' == 0 then [] else old ++ bytes));
    })
read-Inv {s} i len offset offset' old bytes inv mine e = record {
  small = inv.small;
  whole = inv.whole;
  unique = λ a b ha hb. ground (arith, inv.unique a b, inv.unique a i, inv.unique i b);
  free = λ z j. ground (arith, inv.free z i, inv.free z j);
  readers = λ j o g h. elim (update-cases s.session i j _ (opened o g) h) [
    | inl (same, now) ↦
        let at_o : o ≡ offset' = ground arith in
        let as_g : g ≡ (if offset' == 0 then [] else old ++ bytes) = ground arith in
        rw at_o (
          rw as_g (
            read-Reader s.device.msg len offset offset' old bytes (inv.readers i offset old mine)
              e))
    | inr kept ↦ inv.readers j o g kept
  ];
}

pub Step-Inv : {s t : System} → Inv s → Step s t → Inv t
unfolding device_write
Step-Inv {s} inv (refused i shut lost) = rw (claim-lost s.device lost) inv
Step-Inv {s} inv (claimed i shut won) =
    let (free, taken) = claim-won s.device won in rw taken (claimed-Inv i inv free)
Step-Inv {s} inv (greeted i got mine) = greeted-Inv i got inv mine
Step-Inv {s} inv (reads i len mine e) = read-Inv i len _ _ _ _ inv mine e
Step-Inv {s} inv (writes i) = inv
Step-Inv {s} inv (releases i mine) = released-Inv i _ _ inv mine

pub Reach-Inv : {s : System} → Reach s → Inv s
Reach-Inv start = record {
  small = omega arith;
  whole = refl;
  unique = λ i j hi hj. absurd (ground arith);
  free = λ e i. refl;
  readers = λ i offset got h. absurd (ground arith);
}
Reach-Inv (later r st) = Step-Inv (Reach-Inv r) st
