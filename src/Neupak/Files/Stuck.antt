-- ===== src/Neupak/Files/Stuck.antt =====
-- The loop of `load_files_db` does not move past a line that starts with `files` and has no `=`.
use packages_repo_main.Prelude.Outcome.{running, done}
use packages_repo_main.Neupak.{max_name, PackageFiles}
use packages_repo_main.Neupak.Lines.{split_key_value, clean, parse_section_header}
use packages_repo_main.Neupak.Files.{parse_files, files_line}
use packages_repo_main.Text.{codes, Bytes, starts_with}
use packages_repo_main.Prelude.{refl, zero, [], suc, drop, arith, ◌∷◌, none, true, ◌≡◌, List, ℕ}

-- A cleaned line that starts with `files` is no section header.
files_no_section :
    (l : Bytes) → starts_with l (codes "files") ≡ true → parse_section_header max_name l ≡ none
unfolding starts_with parse_section_header
files_no_section [] h = refl
files_no_section (c ∷ cs) h = let f : c ≡ b'f' = ground (arith, h) in rw f

files_line-stays :
    (p : PackageFiles) (db : List PackageFiles) (line cleaned : Bytes) (lines : List Bytes)
    → clean line ≡ cleaned
    → starts_with cleaned (codes "files") ≡ true
    → split_key_value cleaned ≡ none
    → files_line (p ∷ db) line lines ≡ done (p ∷ db, line ∷ drop 1 lines)
unfolding files_line starts_with
files_line-stays p db line [] lines c s k = cc s
files_line-stays p db line (x ∷ xs) lines c s k =
    rw (c, files_line) (ground (arith, files_no_section (x ∷ xs) s, s, k))

-- Behind the first section, a line that starts with `files` and has no key and value keeps the loop
-- busy for ever: whatever the fuel, and whatever lines follow, it is used up.
pub parse_files_stuck :
    (fuel : ℕ) (p : PackageFiles) (db : List PackageFiles) (line cleaned : Bytes)
    (lines : List Bytes)
    → clean line ≡ cleaned
    → starts_with cleaned (codes "files") ≡ true
    → split_key_value cleaned ≡ none
    → parse_files fuel (p ∷ db) (line ∷ lines) ≡ running
unfolding parse_files
parse_files_stuck zero p db line cleaned lines c s k = refl
parse_files_stuck (suc fuel) p db line cleaned lines c s k =
    rw (files_line-stays p db line cleaned lines c s k)
      (parse_files_stuck fuel p db line cleaned (drop 1 lines) c s k)
