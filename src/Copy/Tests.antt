-- ===== src/Copy/Tests.antt =====
-- The copying programs of hw1 on small files.
use nsysu_system_programming.Prelude.{◌≡◌, refl, none, [], ◌∷◌, codes}
use nsysu_system_programming.Sm.{Files, put}
use nsysu_system_programming.Copy.{copied, cp, cp_lem, tee, tee_lem}

abbrev one_file : Files
one_file = put (λ name. none) (codes "a") (codes "hi")

cp_to_itself :
    cp one_file (codes "cp" ∷ codes "a" ∷ codes "a" ∷ []) ≡ copied (put one_file (codes "a") [])
cp_to_itself = cp_lem one_file (codes "cp") (codes "a") (codes "a") (codes "hi") refl

tee_appends :
    tee one_file (codes "tee" ∷ codes "-a" ∷ codes "a" ∷ []) (codes "!")
    ≡ (codes "!", put one_file (codes "a") (codes "hi!"))
tee_appends = tee_lem one_file (codes "tee") (codes "a") (codes "!")
