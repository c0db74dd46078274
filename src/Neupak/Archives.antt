-- ===== src/Neupak/Archives.antt =====
-- neupak/src/neupak.cpp: package archives (ZIP files whose entries are stored without compression)
-- and the plan of their extraction, `plan_zip`. An open file is what is left of it to be read; a
-- read gives all the bytes that it asks for while the file has them.

pub mod Shorter
pub mod Planned
pub mod Tests
use packages_repo_main.Prelude.Fallible.{◌>>=◌}
use packages_repo_main.Neupak.{PackageFiles, max_path, max_files}
use packages_repo_main.Neupak.Lines.{c_string}
use packages_repo_main.Neupak.Paths.{archive_path_to_final, slash}
use packages_repo_main.Prelude.Outcome.{done, failed, running, Outcome}
use packages_repo_main.Text.{Bytes, codes, strlcpy, streq}
use packages_repo_main.Prelude.{
  zero, ◌++◌, ◌||◌, ◌%◌, ◌==◌, ◌*◌, length, not, leb, ◌/◌, ◌∷◌, none, [], suc, if◌then◌else◌, drop,
  false, some, ◌+◌, List, Option, get_or, Bool, ℕ,
}

pub record ZipEntry : Type 0 where
  pub archive_path : Bytes
  pub final_path : Bytes
  pub compressed_size : ℕ
  pub uncompressed_size : ℕ
  pub method : ℕ
  pub is_dir : Bool

-- The bytes of a little-endian number do not overlap, so `|` is a sum.
unfoldable pub load_le16 : Bytes → ℕ
load_le16 p = get_or p 0 0 + get_or p 1 0 * 256

unfoldable pub load_le32 : Bytes → ℕ
load_le32 p = get_or p 0 0 + get_or p 1 0 * 256 + get_or p 2 0 * 65536 + get_or p 3 0 * 16777216

-- The bytes that are read, and what is left of the file.
unfoldable pub read_exact : Bytes → ℕ → Option (Bytes × Bytes)
read_exact file zero = some ([], file)
read_exact [] (suc len) = none
read_exact (c ∷ cs) (suc len) = do (bytes, rest) ← read_exact cs len; some (c ∷ bytes, rest)

-- The loop of `skip_bytes` reads the same bytes in chunks.
unfoldable pub skip_bytes : Bytes → ℕ → Option Bytes
skip_bytes file zero = some file
skip_bytes [] (suc count) = none
skip_bytes (c ∷ cs) (suc count) = skip_bytes cs count

unfoldable pub ends_in_slash : Bytes → Bool
ends_in_slash [] = false
ends_in_slash (c ∷ []) = c == slash
ends_in_slash (c ∷ d ∷ ds) = ends_in_slash (d ∷ ds)

-- What stands behind the header of 30 bytes: the name and the extra field.
unfoldable pub entry_behind : Bytes → Bytes → Option (ZipEntry × Bytes)
unfolding load_le16 load_le32 ends_in_slash
entry_behind header file =
    let name_len = load_le16 (drop 26 header) in
    if load_le16 (drop 6 header) / 8 % 2 == 1 || name_len == 0 || leb max_path name_len
    then none
    else (do
      (name, after_name) ← read_exact file name_len
      rest ← skip_bytes after_name (load_le16 (drop 28 header))
      let archive_path = strlcpy max_path (c_string name)
      final ← archive_path_to_final max_path archive_path
      some (
        record {
          archive_path = archive_path;
          final_path = final;
          compressed_size = load_le32 (drop 18 header);
          uncompressed_size = load_le32 (drop 22 header);
          method = load_le16 (drop 8 header);
          is_dir = ends_in_slash archive_path;
        },
        rest,
      ))

-- What stands behind the four bytes of the signature `first`: `some none` is the end of the
-- entries, the start of the central directory.
unfoldable pub signed_entry : Bytes → Bytes → Option (Option (ZipEntry × Bytes))
unfolding entry_behind load_le32
signed_entry first file =
    let sig = load_le32 first in
    if sig == 33639248 || sig == 101010256
    then some none
    else if not (sig == 67324752)
    then none
    else (do
      (header, rest) ← read_exact file 26
      read ← entry_behind (first ++ header) rest
      some (some read))

-- An entry and the rest of the file, or `some none` at the end.
unfoldable pub read_local_zip_entry : Bytes → Option (Option (ZipEntry × Bytes))
unfolding signed_entry
read_local_zip_entry [] = some none
read_local_zip_entry (c ∷ cs) = do (first, file) ← read_exact (c ∷ cs) 4; signed_entry first file

unfoldable pub is_planned : List ZipEntry → Bytes → Bool
is_planned [] path = false
is_planned (e ∷ es) path = streq e.final_path path || is_planned es path

unfoldable pub add_zip_entry : List ZipEntry → ZipEntry → Option (List ZipEntry)
unfolding is_planned
add_zip_entry plan entry =
    if entry.is_dir
    then some plan
    else if streq entry.archive_path (codes "manifest.toml")
    then some plan
    else if leb max_files (length plan)
    then none
    else if is_planned plan entry.final_path
    then none
    else some (plan ++ entry ∷ [])

-- What `plan_zip` does with an entry: the plan and the rest of the file.
unfoldable pub plan_entry : List ZipEntry → ZipEntry → Bytes → Option (List ZipEntry × Bytes)
unfolding add_zip_entry skip_bytes
plan_entry plan entry file = if not (entry.method == 0) then none else (do
  plan' ← add_zip_entry plan entry
  rest ← skip_bytes file entry.compressed_size
  some (plan', rest))

-- The loop of `plan_zip`.
unfoldable pub plan_from : ℕ → List ZipEntry → Bytes → Outcome (List ZipEntry)
unfolding read_local_zip_entry plan_entry
plan_from zero plan file = running
plan_from (suc fuel) plan file = elim (read_local_zip_entry file) [
  | none ↦ failed
  | some none ↦ done plan
  | some (some (entry, behind)) ↦ elim (plan_entry plan entry behind) [
    | none ↦ failed
    | some (plan', rest) ↦ plan_from fuel plan' rest
  ]
]

-- Every entry takes bytes from the file, so one unit of fuel more than its length is enough.
unfoldable pub plan_zip : Option Bytes → Outcome (List ZipEntry)
unfolding plan_from
plan_zip none = failed
plan_zip (some file) = plan_from (suc (length file)) [] file
