-- ===== src/Neupak/Archives/Tests.antt =====
-- Runs of the planning of an archive, and the theorem at one.
use packages_repo_main.Text.{append_char, append_text}
use packages_repo_main.Neupak.Paths.{is_bad_component}
use packages_repo_main.Prelude.Outcome.{failed, done}
use packages_repo_main.Neupak.Lines.{c_string}
use packages_repo_main.Neupak.Paths.{archive_path_to_final}
use packages_repo_main.Neupak.Archives.Planned.{plan_zip-Planned, Planned}
use packages_repo_main.Neupak.Archives.{
  skip_bytes, plan_entry, load_le32, entry_behind, signed_entry, read_exact, read_local_zip_entry,
  plan_from, plan_zip, ZipEntry,
}
use packages_repo_main.Text.{streq, codes, Bytes}
use packages_repo_main.Prelude.{refl, ◌≡◌, length, replicate, ◌++◌, false, [], ◌∷◌, some}

-- A local header for a stored entry, the name and the payload.
abbrev entry_bytes : Bytes → Bytes → Bytes
entry_bytes name payload =
    (80 ∷ 75 ∷ 3 ∷ 4 ∷ 20 ∷ 0 ∷ 0 ∷ 0 ∷ 0 ∷ 0 ∷ [])
    ++ replicate 8 0
    ++ (length payload ∷ 0 ∷ 0 ∷ 0 ∷ length payload ∷ 0 ∷ 0 ∷ 0 ∷ [])
    ++ (length name ∷ 0 ∷ 0 ∷ 0 ∷ [])
    ++ name
    ++ payload

abbrev central_directory : Bytes
central_directory = 80 ∷ 75 ∷ 1 ∷ 2 ∷ 7 ∷ []

abbrev one_file : Bytes
one_file =
    entry_bytes (codes "manifest.toml") (codes "[ui]")
    ++ entry_bytes (codes "binary/") []
    ++ entry_bytes (codes "binary/ui.elf") (codes "ELF")
    ++ central_directory

abbrev ui_entry : ZipEntry
ui_entry = record {
  archive_path = codes "binary/ui.elf";
  final_path = codes "/binary/ui.elf";
  compressed_size = 3;
  uncompressed_size = 3;
  method = 0;
  is_dir = false;
}

plan_one : plan_zip (some one_file) ≡ done (ui_entry ∷ [])
unfolding plan_zip plan_from read_local_zip_entry read_exact signed_entry entry_behind load_le32
    plan_entry skip_bytes archive_path_to_final streq c_string append_char is_bad_component
    append_text
plan_one = refl

-- One final path twice, a path that leads out, and a file that ends too soon.
plan_refused :
    (plan_zip (some (entry_bytes (codes "a\\b") [] ++ entry_bytes (codes "a/b") [])) ≡ failed)
    × (plan_zip (some (entry_bytes (codes "a/../b") [])) ≡ failed)
    × (plan_zip (some (80 ∷ 75 ∷ [])) ≡ failed)
unfolding plan_zip plan_from read_local_zip_entry read_exact signed_entry entry_behind load_le32
    plan_entry skip_bytes archive_path_to_final streq c_string append_char is_bad_component
    append_text
plan_refused = (refl, refl, refl)

plan_zip-Planned_example : Planned (plan_zip (some one_file))
plan_zip-Planned_example = plan_zip-Planned (some one_file)
