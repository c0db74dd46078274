-- ===== src/Neupak/Files/Records.antt =====
-- The lines of a record of files.db as `load_files_db` reads them: a section and an array, which
-- fits the buffer of 8192 bytes or not.
use packages_repo_main.Text.Laws.{strlcpy_fits}
use packages_repo_main.Neupak.Lines.Values.{plain_section-name}
use packages_repo_main.Neupak.Installed.Reading.{
  name_lacks-quote, name_lacks_bracket, clean-section_line, valid_name-chars, section_line,
}
use packages_repo_main.Neupak.Files.Items.{parse_file_array-array_text}
use packages_repo_main.Neupak.Arrays.{comma, collect_array_value}
use packages_repo_main.Neupak.Files.Reading.{
  collect_lines-items, file_line, item_text, ArePaths, items,
}
use packages_repo_main.Neupak.Lines.{
  open_bracket, close_bracket, split_key_value, parse_section_header, clean,
}
use packages_repo_main.Prelude.Outcome.{failed, done, Outcome}
use packages_repo_main.Text.{newline, codes, quote, append_char, starts_with, Bytes}
use packages_repo_main.Neupak.Packages.{valid_name}
use packages_repo_main.Neupak.Files.{parse_files, files_text_size, files_line}
use packages_repo_main.Neupak.{max_files, max_name, PackageFiles}
use packages_repo_main.Prelude.{
  refl, inr, inl, Bool-cases, suc, ◌++◌, map, ◌≤◌, length-append, [], arith, ◌<◌, ltb, ◌+◌, true,
  if◌then◌else◌, length, ◌∷◌, ◌≡◌, List, ℕ,
}

-- A record that the text format can hold.
pub record IsStorable (p : PackageFiles) : Type 0 where
  pub name_valid : valid_name p.name ≡ true
  pub name_fits : length p.name < max_name
  pub paths : ArePaths p.files
  pub few : length p.files ≤ max_files

-- The bytes that the array takes in the buffer: four for each path beside it, and three.
abbrev pub array_size : List Bytes → ℕ
array_size [] = 3
array_size (p ∷ ps) = length p + 4 + array_size ps

length-items-array_size : (ps : List Bytes) → length (items ps) + 3 ≡ array_size ps
length-items-array_size [] = omega arith
length-items-array_size (p ∷ ps) = omega (
  arith,
  length-items-array_size ps,
  length-append (item_text p) (items ps),
  length-append p (quote ∷ comma ∷ []),
)

-- The outcome of reading the array of a record back.
abbrev pub reloaded : PackageFiles → Outcome (List PackageFiles)
reloaded p = if ltb (array_size p.files) files_text_size then done (p ∷ []) else failed

files_line-array :
    (p : PackageFiles) (rest : List Bytes)
    → IsStorable p
    → files_line
        (record { name = p.name; files = [] } ∷ [])
        (codes "files = [")
        (map file_line p.files ++ (close_bracket ∷ []) ∷ rest)
      ≡ (if ltb (array_size p.files) files_text_size then done (p ∷ [], rest) else failed)
unfolding files_line clean parse_section_header starts_with split_key_value collect_array_value
    append_char
files_line-array p rest s = ground (
  arith,
  collect_lines-items files_text_size (open_bracket ∷ []) p.files rest s.paths,
  length-items-array_size p.files,
  parse_file_array-array_text p.files s.paths s.few,
)

files_line-section :
    (name : Bytes) (lines : List Bytes)
    → valid_name name ≡ true
    → length name < max_name
    → files_line [] (section_line name) lines
      ≡ done (record { name = name; files = [] } ∷ [], lines)
unfolding files_line valid_name
files_line-section [] lines v f = cc v
files_line-section (c ∷ cs) lines v f =
    let (chars, _) = valid_name-chars (c ∷ cs) v in
    ground (
      arith,
      v,
      clean-section_line (c ∷ cs) chars,
      plain_section-name max_name c cs [] (name_lacks_bracket (c ∷ cs) chars)
          (name_lacks-quote (c ∷ cs) chars) f,
      strlcpy_fits max_name (c ∷ cs) f,
    )

files_line_blank :
    (db : List PackageFiles) (lines : List Bytes) → files_line db [] lines ≡ done (db, lines)
unfolding files_line clean
files_line_blank db lines = refl

-- The lines of a record, and the text that they make.
abbrev pub record_lines : PackageFiles → List Bytes
record_lines p =
    section_line p.name
    ∷ codes "files = ["
    ∷ (map file_line p.files ++ (close_bracket ∷ []) ∷ [] ∷ [])

abbrev pub lines_text : List Bytes → Bytes → Bytes
lines_text [] rest = rest
lines_text (l ∷ ls) rest = l ++ newline ∷ lines_text ls rest

abbrev pub text_of : PackageFiles → Bytes
text_of p =
    section_line p.name
    ++ newline
      ∷ (codes "files = ["
          ++ newline ∷ lines_text (map file_line p.files) (close_bracket ∷ newline ∷ newline ∷ []))

pub parse_files-record :
    (f : ℕ) (p : PackageFiles)
    → IsStorable p
    → parse_files (suc (suc (suc (suc f)))) [] (record_lines p) ≡ reloaded p
unfolding parse_files
parse_files-record f p s =
    rw
      (files_line-section p.name
        (codes "files = [" ∷ (map file_line p.files ++ (close_bracket ∷ []) ∷ [] ∷ [])) s.name_valid
        s.name_fits)
      (rw (files_line-array p ([] ∷ []) s)
        (elim (Bool-cases (ltb (array_size p.files) files_text_size)) [
          | inl e ↦ rw e blank
          | inr e ↦ rw e
        ]))
  where
    blank : parse_files (suc (suc f)) (p ∷ []) ([] ∷ []) ≡ done (p ∷ [])
    blank = rw (files_line_blank (p ∷ []) [])
