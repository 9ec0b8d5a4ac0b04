-- ===== src/Walk/Tests.antt =====
-- The theorems on the walks of hw3 at a small /proc.
use nsysu_system_programming.Prelude.{
  ◌≡◌, refl, ◌↔◌, true, some, List, [], ◌∷◌, arith, All, Str, codes, decimal, decimal_ℤ, decimal,
  atoi,
}
use nsysu_system_programming.Shell.Strtok.{tokens}
use nsysu_system_programming.Walk.{
  is_digit, is_numeric, user_id_from_name, show_processes, show_links,
}
use nsysu_system_programming.Walk.Numbers.{listing, is_numeric_iff}
use nsysu_system_programming.Walk.Status.{StatusFile, lines_of, entry, show_processes_lem}
use nsysu_system_programming.Walk.Links.{fd_dir, dir_text, show_links_lem}

is_numeric_iff_run : (is_numeric (codes "12a") ≡ true) ↔ All (λ c. is_digit c ≡ true) (codes "12a")
is_numeric_iff_run = is_numeric_iff (codes "12a") refl

abbrev a_status : StatusFile
a_status = record {
  name_line = codes "Name:\tinit\n";
  line2 = [];
  line3 = [];
  line4 = [];
  line5 = [];
  line6 = [];
  line7 = [];
  line8 = [];
  ids_line = codes "Uid:\t0\t0\t0\t0\n";
  following = [];
}

abbrev a_proc : List Str
a_proc = codes "1" ∷ codes "self" ∷ []

show_processes_lem_run :
    show_processes (λ path. some (lines_of a_status)) (λ user. some 0) (codes "root") a_proc
    ≡ some (
        listing
          (λ name.
            entry (user_id_from_name (λ user. some 0) (some (codes "root"))) (codes "0") a_status)
          a_proc)
unfolding is_numeric tokens
show_processes_lem_run =
    show_processes_lem (λ path. some (lines_of a_status)) (λ user. some 0) (codes "root")
      (λ name. a_status) (λ name. codes "0") a_proc
      (
        λ e. (refl, record { third = refl; fits = omega arith }),
        (λ e. (refl, record { third = refl; fits = omega arith }), tt),
      )

-- The user of the process is wanted, so its two lines are printed.
shows_init : listing (λ name. entry 0 (codes "0") a_status) a_proc ≡ codes "Name:\tinit\nUid:\t0\n"
unfolding is_numeric atoi decimal_ℤ decimal entry
shows_init = refl

show_links_lem_run :
    show_links
      (λ path. some (codes "0" ∷ codes ".." ∷ []))
      (λ path. some (codes "/dev/null"))
      a_proc
    ≡ some (
        listing
          (λ pid.
            dir_text
              (λ path. some (codes "/dev/null"))
              (fd_dir pid)
              (some (codes "0" ∷ codes ".." ∷ [])))
          a_proc)
show_links_lem_run =
    show_links_lem (λ path. some (codes "0" ∷ codes ".." ∷ [])) (λ path. some (codes "/dev/null"))
      a_proc (λ e. (omega arith, (omega arith, tt)), (λ e. (omega arith, (omega arith, tt)), tt))
