-- ===== src/Watch/Tests.antt =====
-- The theorems on the watcher of hw6/1 for small buffers.
use nsysu_system_programming.Prelude.{
  some, none, true, false, length, ◌+◌, ◌≡◌, refl, inl, inr, List, [], ◌∷◌, arith, All, codes,
}
use nsysu_system_programming.Watch.{Event, State, add_notify, events, on_read}
use nsysu_system_programming.Watch.Walk.{walk, walk-create, options, display}
use nsysu_system_programming.Watch.Decode.{encode_all, IsEvent, events_lem}
use nsysu_system_programming.Watch.Moves.{event, create_events, rename_lem, create_lem}

abbrev moved : List Event
moved = event 1 64 7 4 (codes "a") ∷ event 2 128 7 4 (codes "b") ∷ event 3 2048 0 0 [] ∷ []

moved-IsEvent : All IsEvent moved
moved-IsEvent = (
  record {
    wd_word = omega arith;
    mask_word = omega arith;
    cookie_word = omega arith;
    len_word = omega arith;
    solid = (refl, tt);
    room = inl (omega arith);
  },
  (
    record {
      wd_word = omega arith;
      mask_word = omega arith;
      cookie_word = omega arith;
      len_word = omega arith;
      solid = (refl, tt);
      room = inl (omega arith);
    },
    (
      record {
        wd_word = omega arith;
        mask_word = omega arith;
        cookie_word = omega arith;
        len_word = omega arith;
        solid = tt;
        room = inr refl;
      },
      tt,
    ),
  ),
)

events_lem_run : events 56 (encode_all moved) ≡ moved
events_lem_run = events_lem moved moved-IsEvent

rename_lem_run :
    (on_read (λ path. 9) (λ wd. codes ".") [] (encode_all moved)).printed
    ≡ codes "Move out from ./a\nMove in to ./b\nThe ./a was renamed as ./b\n"
rename_lem_run =
    rename_lem (λ path. 9) (λ wd. codes ".") [] 1 2 3 7 4 4 (codes "a") (codes "b") moved-IsEvent

created-IsEvent : All IsEvent (event 1 256 0 8 (codes "main") ∷ [])
created-IsEvent = (
  record {
    wd_word = omega arith;
    mask_word = omega arith;
    cookie_word = omega arith;
    len_word = omega arith;
    solid = (refl, (refl, (refl, (refl, tt))));
    room = inl (omega arith);
  },
  tt,
)

create_lem_run :
    ((on_read
        (λ path. 9)
        (λ wd. codes ".")
        []
        (encode_all (event 1 256 0 8 (codes "main") ∷ []))).printed
      ≡ codes "A new file 'main' was created under '.'\n")
    × ((on_read
            (λ path. 9)
            (λ wd. codes ".")
            []
            (encode_all (event 1 256 0 8 (codes "main") ∷ []))).dirs
          9
        ≡ codes "./ma")
create_lem_run = create_lem (λ path. 9) (λ wd. codes ".") [] 1 8 (codes "main") created-IsEvent

abbrev nothing_known : State
nothing_known = record { dirs = λ wd. []; printed = []; fname = none; tname = none }

-- `sources` is known as `sou`.
walk-create_example :
    (on_read length
      (walk length ((codes "./sources", 2) ∷ []) nothing_known).dirs
      []
      (encode_all (create_events 9 8 (codes "main")))).printed
    ≡ codes "A new file 'main' was created under './sou'\n"
unfolding walk add_notify
walk-create_example =
    walk-create length [] [] (codes ".") (codes "sources") (codes "main") 8 nothing_known tt (
      record {
        wd_word = omega arith;
        mask_word = omega arith;
        cookie_word = omega arith;
        len_word = omega arith;
        solid = (refl, (refl, (refl, (refl, tt))));
        room = inl (omega arith);
      },
      tt,
    )

options_run :
    (options (codes "d" ∷ codes "pd" ∷ [])).1 ≡ record { is_physical = false; is_depth = true }
unfolding options
options_run = refl

display_run :
    (display (event 1 (256 + 1073741824) 0 4 (codes "a"))
      ≡ some (codes "mask = IN_CREATE IN_ISDIR  name = a\n"))
    × (display (event 1 32768 0 0 []) ≡ none)
unfolding display
display_run = (refl, refl)
