-- ===== src/Shell/Builtin/Lookup.antt =====
-- What the search of a table of commands finds: `is_builtin` of hw4/part2/builtin.c.
use nsysu_system_programming.Prelude.{
  ◌≡◌, refl, sym, ap, ◌∙◌, ◌↔◌, inl, inr, some, List, [], ◌∷◌, Bool-cases, get_or, All, if_true,
  if_false, Str, codes, str_eq, str_eq_iff, if_true, if_false,
}
use nsysu_system_programming.Prelude.{some_inj, none_ne_some}
use nsysu_system_programming.Shell.Args.{arg_list}
use nsysu_system_programming.Shell.Builtin.{
  Inbuilt, builtin, echo, quit, exit, bye, logout, cd, pwd, hostname, id, inbuilts, find_keyword,
  is_builtin,
}

-- A command that is found has the keyword that `name` gives it, if all of the table do.
pub find_keyword_sound {ℓ} :
    {A : Type ℓ} (name : A → Str) (table : List (Str × A)) (word : Str) (entry : A)
    → All (λ row. row.0 ≡ name row.1) table
    → find_keyword table word ≡ some entry
    → word ≡ name entry
find_keyword_sound name [] word entry named h = absurd (none_ne_some h)
find_keyword_sound name ((keyword, do_it) ∷ toc) word entry named h =
    elim (Bool-cases (str_eq keyword word)) [
      | inl same ↦
          sym ((str_eq_iff keyword word).0 same)
          ∙ (named.0 ∙ ap name (some_inj (sym (if_true _ same) ∙ h)))
      | inr other ↦ find_keyword_sound name toc word entry named.1 (sym (if_false _ other) ∙ h)
    ]

-- The keyword of each command.
abbrev pub keyword : Inbuilt → Str
keyword builtin = codes "builtin"
keyword echo = codes "echo"
keyword quit = codes "quit"
keyword exit = codes "exit"
keyword bye = codes "bye"
keyword logout = codes "logout"
keyword cd = codes "cd"
keyword pwd = codes "pwd"
keyword hostname = codes "hostname"
keyword id = codes "id"

find_keyword-keyword : (entry : Inbuilt) → find_keyword inbuilts (keyword entry) ≡ some entry
find_keyword-keyword builtin = refl
find_keyword-keyword echo = refl
find_keyword-keyword quit = refl
find_keyword-keyword exit = refl
find_keyword-keyword bye = refl
find_keyword-keyword logout = refl
find_keyword-keyword cd = refl
find_keyword-keyword pwd = refl
find_keyword-keyword hostname = refl
find_keyword-keyword id = refl

-- The shell runs a command itself exactly if the first argument of the line's first command is the
-- keyword of one of the ten, whatever the other commands of the line are.
pub is_builtin_iff :
    (blank : Str) (cmd : List Str) (entry : Inbuilt)
    → (is_builtin blank cmd ≡ some entry)
      ↔ (get_or (arg_list blank (get_or cmd 0 [])) 0 [] ≡ keyword entry)
unfolding is_builtin
is_builtin_iff blank cmd entry = (
  find_keyword_sound keyword inbuilts _ entry
      (refl, (refl, (refl, (refl, (refl, (refl, (refl, (refl, (refl, (refl, tt)))))))))),
  λ e. ap (find_keyword inbuilts) e ∙ find_keyword-keyword entry,
)
