-- ===== src/Driver/Read.antt =====
-- Reading from the device of hw12/demo.c: the message in chunks, an end of file, and again.
use nsysu_system_programming.Prelude.{
  ℕ, zero, suc, ◌+◌, ◌-◌, ◌≤◌, ◌<◌, min, ◌≡◌, refl, sym, ap, ◌∙◌, ◌≢◌, ◌⊎◌, inl, inr, Option, none,
  some, List, [], ◌∷◌, ◌++◌, arith, ==-false, List-cases, length, get_elem?, take, drop, All,
  length-take, length-drop, Str, drop-out, drop-drop, take-append-drop-min,
}
use nsysu_system_programming.Driver.{copy_out, device_read}
use nsysu_system_programming.Driver.Message.{Holds}

-- Either the position is that of the NUL, or a byte of the text stands there.
at_text :
    (text rest : List ℕ) (at : ℕ)
    → All (λ c. c ≢ 0) text
    → at ≤ length text
    → ((get_elem? (text ++ (0 ∷ rest)) at ≡ some 0) × (drop at text ≡ []) × (at ≡ length text))
      ⊎ ((c : ℕ) × (get_elem? (text ++ (0 ∷ rest)) at ≡ some c)
          × (c ≢ 0)
          × (drop at text ≡ c ∷ drop (suc at) text)
          × (at < length text))
at_text [] rest zero vis h = inl (refl, refl, refl)
at_text [] rest (suc at) vis h = absurd (omega arith)
at_text (c ∷ text) rest zero vis h = inr (c, refl, vis.0, refl, omega arith)
at_text (c ∷ text) rest (suc at) vis h = elim (at_text text rest at vis.1 (omega arith)) [
  | inl (nul, none_left, here) ↦ inl (nul, none_left, ap suc here)
  | inr (b, found, visible, left, room) ↦ inr (b, found, visible, left, omega arith)
]

copy_out_lem :
    (text rest : List ℕ) (len at : ℕ)
    → All (λ c. c ≢ 0) text
    → at ≤ length text
    → copy_out (text ++ (0 ∷ rest)) len at ≡ some (take len (drop at text))
unfolding copy_out
copy_out_lem text rest zero at vis h = refl
copy_out_lem text rest (suc len) at vis h = elim (at_text text rest at vis h) [
  | inl (nul, none_left, here) ↦ rw (nul, copy_out) (rw none_left)
  | inr (b, found, visible, left, room) ↦
      rw (found, copy_out)
        (rw (==-false b 0 visible, copy_out)
          (rw (copy_out_lem text rest len (suc at) vis (omega arith)) (rw left)))
]

-- A read at an offset within the message never leaves the buffer. At the end it gives no byte and
-- puts the offset back to 0, and before it gives the next bytes, as many as there is room for, and
-- moves the offset on by their number.
pub device_read_lem :
    (text msg : List ℕ) (len offset : ℕ)
    → Holds text msg
    → offset ≤ length text
    → ((offset ≡ length text) × (device_read msg len offset ≡ some ([], 0)))
      ⊎ ((offset < length text)
          × (device_read msg len offset
              ≡ some (take len (drop offset text), offset + min len (length text - offset))))
unfolding device_read
device_read_lem text msg len offset holds h =
    elim (at_text text holds.rest offset holds.visible h) [
      | inl (nul, none_left, here) ↦ inl (here, rw holds.shape (rw (nul, device_read)))
      | inr (b, found, visible, left, room) ↦ inr (
        room,
        rw holds.shape (
            rw (found, device_read)
              (rw (==-false b 0 visible, device_read)
                (rw (copy_out_lem text holds.rest len offset holds.visible h, device_read)
                  (rw length-take (rw length-drop refl))))),
      )
    ]

-- Reads of `len` bytes each until one gives no byte: all that they give, with the offset at the end.
pub read_all : ℕ → List ℕ → ℕ → ℕ → Option (Str × ℕ)
unfolding device_read
read_all zero msg len offset = none
read_all (suc fuel) msg len offset = elim (device_read msg len offset) [
  | none ↦ none
  | some ([], offset') ↦ some ([], offset')
  | some (c ∷ cs, offset') ↦ elim (read_all fuel msg len offset') [
    | none ↦ none
    | some (more, last) ↦ some ((c ∷ cs) ++ more, last)
  ]
]

-- Reads of one length, of at least one byte, from any offset within the message on, give together
-- exactly the rest of the message, and then an end of file that puts the offset back to 0. The fuel, one
-- more than the bytes that are left, is enough.
pub read_all_lem :
    (fuel len : ℕ) (text msg : List ℕ) (offset : ℕ)
    → Holds text msg
    → offset ≤ length text
    → 0 < len
    → length text < fuel + offset
    → read_all fuel msg len offset ≡ some (drop offset text, 0)
unfolding read_all
read_all_lem zero len text msg offset holds h some_room enough = absurd (omega arith)
read_all_lem (suc fuel) len text msg offset holds h some_room enough =
    elim (device_read_lem text msg len offset holds h) [
      | inl (here, e) ↦ rw (e, read_all) (rw (drop-out offset text (omega arith)))
      | inr (room, e) ↦
          let left = length text - offset in
          let count : length (take len (drop offset text)) ≡ min len left =
            length-take len _ ∙ ap (min len) (length-drop offset text) in
          let rest_whole =
            read_all_lem fuel len text msg (offset + min len left) holds (omega arith) some_room
              (omega arith) in
          let joined : take len (drop offset text) ++ drop (offset + min len left) text
              ≡ drop offset text =
            ap (λ zs. take len (drop offset text) ++ zs)
              (sym (drop-drop offset (min len left) text))
            ∙ (ap (λ k. take len (drop offset text) ++ drop (min len k) (drop offset text))
                  (sym (length-drop offset text))
                ∙ take-append-drop-min len (drop offset text)) in
          elim (List-cases (take len (drop offset text))) [
            | inl none_taken ↦
                absurd
                  (let empty : 0 ≡ min len left = ap length (sym none_taken) ∙ count in omega arith)
            | inr (c, cs, taken) ↦
                rw (e, read_all)
                  (rw (taken, read_all)
                    (rw (rest_whole, read_all)
                      (ap (λ (zs : Str). some (zs, 0))
                        (ap (λ zs. zs ++ drop (offset + min len left) text) (sym taken) ∙ joined))))
          ]
    ]
