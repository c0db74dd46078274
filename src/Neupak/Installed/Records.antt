-- ===== src/Neupak/Installed/Records.antt =====
-- Looking up and removing the records of the installed packages.
use packages_repo_main.Text.Laws.{streq_iff}
use packages_repo_main.Text.{streq, Bytes}
use packages_repo_main.Neupak.{InstalledPackage}
use packages_repo_main.Neupak.Installed.{
  package_is_installed, find_installed, remove_installed_record,
}
use packages_repo_main.Prelude.{
  none, leb, refl, [], arith, ◌+◌, if◌then◌else◌, ◌-◌, ◌≤◌, ◌≡◌, ◌∷◌, List, ℕ,
}

-- How many records have the name.
abbrev pub occurrences : List InstalledPackage → Bytes → ℕ
occurrences [] name = 0
occurrences (p ∷ ps) name = (if streq p.name name then 1 else 0) + occurrences ps name

-- Removal takes away one record of the name, if there is any, and no other name loses or gains one.
pub remove_installed_record-occurrences :
    (db : List InstalledPackage) (name other : Bytes)
    → occurrences (remove_installed_record db name) other
      ≡ occurrences db other - (if streq name other then 1 else 0)
unfolding remove_installed_record
remove_installed_record-occurrences [] name other = ground arith
remove_installed_record-occurrences (p ∷ ps) name other = ground (
  arith,
  remove_installed_record-occurrences ps name other,
  streq_iff p.name name,
  streq_iff p.name other,
  streq_iff name other,
)

find_installed_absent :
    (db : List InstalledPackage) (name : Bytes)
    → occurrences db name ≡ 0
    → find_installed db name ≡ none
unfolding find_installed
find_installed_absent [] name h = refl
find_installed_absent (p ∷ ps) name h = ground (arith, find_installed_absent ps name)

-- A package counts as installed exactly when it has a record.
pub package_is_installed-occurrences :
    (db : List InstalledPackage) (name : Bytes)
    → package_is_installed db name ≡ leb 1 (occurrences db name)
unfolding package_is_installed
package_is_installed-occurrences [] name = refl
package_is_installed-occurrences (p ∷ ps) name =
    ground (arith, package_is_installed-occurrences ps name)

-- If the name has at most one record, then after its removal it has none, and every other name has
-- the record that it had.
pub find_installed-remove :
    (db : List InstalledPackage) (name other : Bytes)
    → occurrences db name ≤ 1
    → find_installed (remove_installed_record db name) other
      ≡ (if streq name other then none else find_installed db other)
unfolding remove_installed_record find_installed
find_installed-remove [] name other h = ground arith
find_installed-remove (p ∷ ps) name other h = ground (
  arith,
  find_installed-remove ps name other,
  find_installed_absent ps other,
  streq_iff p.name name,
  streq_iff p.name other,
  streq_iff name other,
)
