-- ===== src/Neupak/Installed.antt =====
-- neupak/src/neupak.cpp: the database of installed packages, install.db. A file is `none` where it
-- cannot be opened or read, and otherwise its bytes; the database is the list of its records.
pub mod Records
pub mod Reading
pub mod RoundTrip
pub mod Tests
use packages_repo_main.Neupak.Packages.{valid_name}
use packages_repo_main.Neupak.Lines.{
  parse_quoted, open_bracket, split_lines, is_empty, clean, parse_section_header, split_key_value,
}
use packages_repo_main.Neupak.{
  max_strategy, max_version, over_root, max_packages, max_text, max_name, InstalledPackage,
}
use packages_repo_main.Text.{append_text, codes, streq, append_char, strlcpy, Bytes}
use packages_repo_main.Prelude.Fallible.{◌>>=◌, ◌>>◌}
use packages_repo_main.Prelude.{
  ◌++◌, map, not, ◌||◌, length, [], leb, false, ltb, if◌then◌else◌, ◌∷◌, Bool, none, some, List,
  Option, ℕ,
}

-- A file that fills the buffer is refused.
unfoldable pub read_file_limited : Option Bytes → Option Bytes
read_file_limited none = none
read_file_limited (some text) = if ltb (length text) max_text then some text else none

unfoldable pub find_installed : List InstalledPackage → Bytes → Option InstalledPackage
find_installed [] name = none
find_installed (p ∷ ps) name = if streq p.name name then some p else find_installed ps name

unfoldable pub package_is_installed : List InstalledPackage → Bytes → Bool
package_is_installed [] name = false
package_is_installed (p ∷ ps) name = streq p.name name || package_is_installed ps name

-- The first record of that name goes, and the later ones move down.
unfoldable pub remove_installed_record : List InstalledPackage → Bytes → List InstalledPackage
remove_installed_record [] name = []
remove_installed_record (p ∷ ps) name =
    if streq p.name name then ps else p ∷ remove_installed_record ps name

-- `current` points to the last record.
abbrev pub update_last {ℓ} : {A : Type ℓ} → (A → A) → List A → List A
update_last f [] = []
update_last f (x ∷ []) = f x ∷ []
update_last f (x ∷ y ∷ ys) = x ∷ update_last f (y ∷ ys)

abbrev pub set_version : Bytes → InstalledPackage → InstalledPackage
set_version v p = record p { version = v }

abbrev pub set_strategy : Bytes → InstalledPackage → InstalledPackage
set_strategy s p = record p { strategy = s }

-- The value of a key of the last record.
unfoldable pub installed_value :
    List InstalledPackage → Bytes × Bytes → Option (List InstalledPackage)
installed_value db (key, value) =
    if streq key (codes "version")
    then (parse_quoted max_version value >>= λ v. some (update_last (set_version v) db))
    else if streq key (codes "strategy")
    then (parse_quoted max_strategy value >>= λ s. some (update_last (set_strategy s) db))
    else some db

-- A line that is no section header: `current` is null where there was no section yet.
unfoldable pub installed_field : List InstalledPackage → Bytes → Option (List InstalledPackage)
unfolding installed_value
installed_field [] cleaned = some []
installed_field (p ∷ ps) cleaned = elim (split_key_value cleaned) [
  | none ↦ some (p ∷ ps)
  | some entry ↦ installed_value (p ∷ ps) entry
]

abbrev pub new_installed : Bytes → InstalledPackage
new_installed name = record { name = strlcpy max_name name; version = []; strategy = [] }

unfoldable pub installed_section : List InstalledPackage → Bytes → Option (List InstalledPackage)
installed_section db section =
    if leb max_packages (length db) || not (valid_name section)
    then none
    else some (db ++ new_installed section ∷ [])

-- One round of the loop of `load_installed`, on a line that has been cleaned.
unfoldable pub installed_line : List InstalledPackage → Bytes → Option (List InstalledPackage)
unfolding installed_section installed_field
installed_line db [] = some db
installed_line db (c ∷ cs) = elim (parse_section_header max_name (c ∷ cs)) [
  | some section ↦ installed_section db section
  | none ↦ installed_field db (c ∷ cs)
]

unfoldable pub parse_installed : List InstalledPackage → List Bytes → Option (List InstalledPackage)
parse_installed db [] = some db
parse_installed db (line ∷ lines) = do
  db' ← installed_line db (clean line)
  parse_installed db' lines

-- A record without a strategy is an `over_root` package.
unfoldable pub default_strategy : InstalledPackage → InstalledPackage
default_strategy p = if is_empty p.strategy then set_strategy over_root p else p

unfoldable pub load_installed : Option Bytes → Option (List InstalledPackage)
unfolding read_file_limited
load_installed file = elim (read_file_limited file) [
  | none ↦ some []
  | some text ↦ do db ← parse_installed [] (split_lines text); some (map default_strategy db)
]

-- The text of one record, as `write_installed_db` appends it.
unfoldable pub append_installed : Bytes → InstalledPackage → Option Bytes
append_installed out p = do
  a ← append_char max_text out open_bracket
  b ← append_text max_text a p.name
  c ← append_text max_text b (codes "]\nversion = \"")
  d ← append_text max_text c p.version
  e ← append_text max_text d (codes "\"\nstrategy = \"")
  f ← append_text max_text e p.strategy
  append_text max_text f (codes "\"\n\n")

-- The text that `write_installed_db` hands to `replace_file`.
unfoldable pub render_installed : Bytes → List InstalledPackage → Option Bytes
render_installed out [] = some out
render_installed out (p ∷ ps) = do out' ← append_installed out p; render_installed out' ps
