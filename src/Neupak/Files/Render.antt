-- ===== src/Neupak/Files/Render.antt =====
-- The text that `write_files_db` hands to `replace_file`.
use packages_repo_main.Neupak.Lines.{open_bracket}
use packages_repo_main.Neupak.{max_text, PackageFiles}
use packages_repo_main.Text.{codes, append_char, append_text, Bytes}
use packages_repo_main.Prelude.Fallible.{◌>>=◌}
use packages_repo_main.Prelude.{[], ◌∷◌, some, List, Option}

unfoldable pub append_file : Bytes → Bytes → Option Bytes
append_file out path = do
  a ← append_text max_text out (codes "    \"")
  b ← append_text max_text a path
  append_text max_text b (codes "\",\n")

unfoldable pub append_all_files : Bytes → List Bytes → Option Bytes
append_all_files out [] = some out
append_all_files out (path ∷ paths) = do out' ← append_file out path; append_all_files out' paths

unfoldable pub append_files_record : Bytes → PackageFiles → Option Bytes
append_files_record out p = do
  a ← append_char max_text out open_bracket
  b ← append_text max_text a p.name
  c ← append_text max_text b (codes "]\nfiles = [\n")
  d ← append_all_files c p.files
  append_text max_text d (codes "]\n\n")

unfoldable pub render_files : Bytes → List PackageFiles → Option Bytes
render_files out [] = some out
render_files out (p ∷ ps) = do out' ← append_files_record out p; render_files out' ps
