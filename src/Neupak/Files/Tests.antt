-- ===== src/Neupak/Files/Tests.antt =====
-- Runs of the file database, and the theorems at them.
use packages_repo_main.Neupak.Files.Stuck.{parse_files_stuck}
use packages_repo_main.Prelude.Outcome.{failed, done, running}
use packages_repo_main.Neupak.Files.{load_files_db, parse_files, files_text_size}
use packages_repo_main.Neupak.Files.Reload.{load-render_files}
use packages_repo_main.Neupak.Files.Records.{array_size, IsStorable}
use packages_repo_main.Neupak.Files.Render.{render_files}
use packages_repo_main.Neupak.Lines.{split_key_value, clean}
use packages_repo_main.Text.{is_space, starts_with, codes, Bytes}
use packages_repo_main.Neupak.Packages.{valid_name}
use packages_repo_main.Neupak.{PackageFiles}
use packages_repo_main.Prelude.{
  if◌then◌else◌, ◌+◌, refl, false, some, ◌≡◌, replicate, [], arith, ◌∷◌, ltb,
}

abbrev ui_files : PackageFiles
ui_files = record {
  name = codes "ui";
  files = codes "/binary/ui.elf" ∷ codes "/config/ui.cfg#1" ∷ [];
}

ui_files-IsStorable : IsStorable ui_files
unfolding valid_name
ui_files-IsStorable = record {
  name_valid = refl;
  name_fits = omega arith;
  paths = (
    record { plain = refl; unbracketed = refl; fits = omega arith },
    (record { plain = refl; unbracketed = refl; fits = omega arith }, tt),
  );
  few = omega arith;
}

load-render_files_example :
    (text : Bytes) × (render_files [] (ui_files ∷ []) ≡ some text)
    × (load_files_db (4 + 6) (some text) ≡ (
        if ltb (array_size ui_files.files) files_text_size then done (ui_files ∷ []) else failed))
load-render_files_example = load-render_files 6 ui_files ui_files-IsStorable

-- 200 paths of 40 bytes are too many for the buffer.
many_paths : ltb (array_size (replicate 200 (replicate 40 b'a'))) files_text_size ≡ false
many_paths = refl

parse_files_stuck_example :
    parse_files 25 (ui_files ∷ []) (codes "files # none" ∷ codes "[other]" ∷ []) ≡ running
unfolding clean starts_with split_key_value is_space
parse_files_stuck_example =
    parse_files_stuck 25 ui_files [] (codes "files # none") (codes "files") (codes "[other]" ∷ [])
      refl refl refl
