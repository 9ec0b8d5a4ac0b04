-- ===== src/Watch/Moves.antt =====
-- What the watcher of hw6/1 makes of a rename and of a new file, from the bytes of the read on.
use nsysu_system_programming.Prelude.{
  ℕ, suc, ◌+◌, ◌≡◌, refl, ap, ◌∙◌, none, List, [], ◌∷◌, ◌++◌, arith, ==_self, length, take, All,
  if_true, Str, codes, if_true,
}
use nsysu_system_programming.Watch.{
  Event, concat, add_notify, on_create, on_moved_to, handle, handle_all, on_read,
}
use nsysu_system_programming.Watch.Decode.{encode_all, IsEvent, events_lem}

-- A watch, a kind and a name.
abbrev pub event : ℕ → ℕ → ℕ → ℕ → Str → Event
event wd mask cookie len name = record {
  wd = wd;
  mask = mask;
  cookie = cookie;
  len = len;
  name = name;
}

abbrev pub rename_events : (from to self cookie len1 len2 : ℕ) → (old new : Str) → List Event
rename_events from to self cookie len1 len2 old new =
    event from 64 cookie len1 old ∷ event to 128 cookie len2 new ∷ event self 2048 0 0 [] ∷ []

abbrev pub create_events : (wd len : ℕ) → Str → List Event
create_events wd len name = event wd 256 0 len name ∷ []

module _ (watch : Str → ℕ) (dirs : ℕ → Str) (printed : Str) where
  on_read-encode :
      (es : List Event)
      → All IsEvent es
      → on_read watch dirs printed (encode_all es)
        ≡ handle_all watch
            (record { dirs = dirs; printed = printed; fname = none; tname = none })
            es
  unfolding on_read
  on_read-encode es h =
      ap (handle_all watch (record { dirs = dirs; printed = printed; fname = none; tname = none }))
        (events_lem es h)

  -- A move out, a move in and the move of the file itself in one read are told as a rename from the
  -- old path to the new one, with the names of the directories as they are known.
  pub rename_lem :
      (from to self cookie len1 len2 : ℕ) (old new : Str)
      → All IsEvent (rename_events from to self cookie len1 len2 old new)
      → (on_read watch dirs printed
          (encode_all (rename_events from to self cookie len1 len2 old new))).printed
        ≡ printed
          ++ codes "Move out from "
          ++ concat (dirs from) old
          ++ codes "\n"
          ++ codes "Move in to "
          ++ concat (dirs to) new
          ++ codes "\n"
          ++ codes "The "
          ++ concat (dirs from) old
          ++ codes " was renamed as "
          ++ concat (dirs to) new
          ++ codes "\n"
  unfolding handle_all handle on_moved_to add_notify
  rename_lem from to self cookie len1 len2 old new h =
      ap (λ s. s.printed) (on_read-encode (rename_events from to self cookie len1 len2 old new) h)

  take-dir : (dir name : Str) → take (length dir + 3) (concat dir name) ≡ concat dir (take 2 name)
  take-dir [] name = refl
  take-dir (c ∷ dir) name =
      let far : suc (length dir) + 3 ≡ suc (length dir + 3) = omega arith in
      rw far (ap (λ (zs : Str). c ∷ zs) (take-dir dir name))

  -- A new file is told with its name and its directory, and watched; but the watcher knows it by the
  -- first two bytes of its name only.
  pub create_lem :
      (wd len : ℕ) (name : Str)
      → All IsEvent (create_events wd len name)
      → ((on_read watch dirs printed (encode_all (create_events wd len name))).printed
          ≡ printed
            ++ codes "A new file '"
            ++ name
            ++ codes "' was created under '"
            ++ dirs wd
            ++ codes "'\n")
        × ((on_read watch dirs printed (encode_all (create_events wd len name))).dirs
              (watch (concat (dirs wd) name))
            ≡ concat (dirs wd) (take 2 name))
  unfolding handle_all handle on_create add_notify
  create_lem wd len name h = (
    ap (λ s. s.printed) (on_read-encode (create_events wd len name) h),
    ap (λ s. s.dirs (watch (concat (dirs wd) name))) (on_read-encode (create_events wd len name) h)
        ∙ if_true (dirs (watch (concat (dirs wd) name))) (==_self (watch (concat (dirs wd) name)))
        ∙ take-dir (dirs wd) name,
  )
