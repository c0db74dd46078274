-- ===== src/Neupak/Packages/Laws.antt =====
-- What `find_package` finds.
use packages_repo_main.Neupak.{Package, max_name}
use packages_repo_main.Neupak.Packages.{find_package}
use packages_repo_main.Prelude.{◌<◌, ◌≡◌, List, [], ◌∷◌, some, arith, length}
use packages_repo_main.Text.{Bytes}
use packages_repo_main.Text.Laws.{streq_iff}

pub find_package_name :
    (set : List Package) (name : Bytes) (p : Package)
    → find_package set name ≡ some p
    → p.name ≡ name
unfolding find_package
find_package_name [] name p e = cc
find_package_name (x ∷ xs) name p e =
    ground (arith, streq_iff x.name name, find_package_name xs name p)

-- The names of the set fit their buffers, as `add_package` leaves them.
abbrev pub NamesFit : List Package → Type 0
NamesFit [] = Unit {0}
NamesFit (p ∷ ps) = (length p.name < max_name) × NamesFit ps

pub find_package_fits :
    (set : List Package) (name : Bytes) (p : Package)
    → NamesFit set
    → find_package set name ≡ some p
    → length name < max_name
unfolding find_package
find_package_fits [] name p h e = cc
find_package_fits (x ∷ xs) name p h e =
    ground (arith, streq_iff x.name name, find_package_fits xs name p h.1)
