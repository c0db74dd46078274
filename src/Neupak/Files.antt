-- ===== src/Neupak/Files.antt =====
-- neupak/src/neupak.cpp: the database of the files that each package has installed, files.db.
pub mod Render
pub mod Reading
pub mod Stuck
pub mod Items
pub mod Records
pub mod Reload
pub mod Tests
use packages_repo_main.Neupak.Packages.{valid_name}
use packages_repo_main.Neupak.Installed.{update_last, read_file_limited}
use packages_repo_main.Neupak.Lines.{split_key_value, split_lines, parse_section_header, clean}
use packages_repo_main.Neupak.Arrays.{parse_file_array, collect_array_value}
use packages_repo_main.Neupak.{max_packages, max_name, PackageFiles}
use packages_repo_main.Text.{codes, starts_with, streq, strlcpy, Bytes}
use packages_repo_main.Prelude.Outcome.{failed, running, done, Outcome, ◌>>=◌}
use packages_repo_main.Prelude.{
  ◌&&◌, ◌++◌, not, ◌||◌, length, leb, zero, some, [], suc, drop, if◌then◌else◌, ◌∷◌, none, Option,
  List, ℕ,
}

unfoldable pub find_package_files : List PackageFiles → Bytes → Option PackageFiles
find_package_files [] name = none
find_package_files (p ∷ ps) name = if streq p.name name then some p else find_package_files ps name

unfoldable pub remove_files_record : List PackageFiles → Bytes → List PackageFiles
remove_files_record [] name = []
remove_files_record (p ∷ ps) name =
    if streq p.name name then ps else p ∷ remove_files_record ps name

abbrev pub set_files : List Bytes → PackageFiles → PackageFiles
set_files files p = record p { files = files }

abbrev pub new_files : Bytes → PackageFiles
new_files name = record { name = strlcpy max_name name; files = [] }

-- `char array_text[8192]`
abbrev pub files_text_size : ℕ
files_text_size = 8192

-- A `files` line: the array may go on over the next lines.
unfoldable pub files_array :
    List PackageFiles → Bytes → List Bytes → Outcome (List PackageFiles × List Bytes)
files_array db value lines = elim (collect_array_value files_text_size value lines) [
  | none ↦ failed
  | some (text, rest) ↦ do
    files ← parse_file_array text
    done (update_last (set_files files) db, rest)
]

-- A line that starts with `files` and has no key and value: the loop goes on without moving to
-- the next line. It has overwritten the line feed by a NUL, so the next round finds the same line,
-- and its end one line feed further on.
unfoldable pub files_stay :
    List PackageFiles → Bytes → List Bytes → Outcome (List PackageFiles × List Bytes)
files_stay db line lines = done (db, line ∷ drop 1 lines)

-- One round of the loop of `load_files_db`: the database and the lines that are left.
unfoldable pub files_line :
    List PackageFiles → Bytes → List Bytes → Outcome (List PackageFiles × List Bytes)
unfolding files_array files_stay
files_line db line lines = elim (clean line) [
  | [] ↦ done (db, lines)
  | c ∷ cs ↦ elim (parse_section_header max_name (c ∷ cs)) [
    | some section ↦
        if leb max_packages (length db) || not (valid_name section)
        then failed
        else done (db ++ new_files section ∷ [], lines)
    | none ↦
        if not (leb 1 (length db) && starts_with (c ∷ cs) (codes "files"))
        then done (db, lines)
        else elim (split_key_value (c ∷ cs)) [
          | none ↦ files_stay db line lines
          | some (key, value) ↦ files_array db value lines
        ]
  ]
]

unfoldable pub parse_files : ℕ → List PackageFiles → List Bytes → Outcome (List PackageFiles)
parse_files zero db lines = running
parse_files (suc fuel) db [] = done db
parse_files (suc fuel) db (line ∷ lines) = do
  (db', rest) ← files_line db line lines
  parse_files fuel db' rest

-- `fuel` bounds the rounds of the loop. A file that cannot be read counts as an empty database.
unfoldable pub load_files_db : ℕ → Option Bytes → Outcome (List PackageFiles)
load_files_db fuel file = elim (read_file_limited file) [
  | none ↦ done []
  | some text ↦ parse_files fuel [] (split_lines text)
]
