-- ===== src/Neupak/Paths/Tests.antt =====
-- Runs of the path routines, and the theorems at them.
use packages_repo_main.Neupak.Paths.Caches.{all_hex, package_cache_path-hash, read_hex}
use packages_repo_main.Neupak.Paths.Safe.{
  archive_path_to_final-if, to_slash, destination_path-IsUnder, IsUnder, is_safe_path,
}
use packages_repo_main.Neupak.{over_root, max_path}
use packages_repo_main.Text.{streq, append_char, codes, append_text, Bytes}
use packages_repo_main.Neupak.Paths.{
  fnv1a32, slash, destination_path, package_cache_path, is_bad_component, valid_offline_root,
  archive_path_to_final,
}
use packages_repo_main.Prelude.{
  map, ◌+◌, arith, length, ◌∷◌, ltb, ◌&&◌, ◌⊎◌, refl, ◌++◌, false, if◌then◌else◌, true, none, some,
  ◌≡◌,
}

final_of_backslashes :
    archive_path_to_final max_path (codes "binary\\tools/a.elf")
    ≡ some (codes "/binary/tools/a.elf")
unfolding archive_path_to_final append_text append_char is_bad_component
final_of_backslashes = refl

final_of_parent : archive_path_to_final max_path (codes "a/../../boot") ≡ none
unfolding archive_path_to_final append_text append_char is_bad_component
final_of_parent = refl

offline_roots :
    (valid_offline_root (codes "/mnt/disk/") ≡ true)
    × (valid_offline_root (codes "/mnt//disk") ≡ false)
    × (valid_offline_root (codes "/mnt/../disk") ≡ false)
    × (valid_offline_root (codes "/") ≡ false)
unfolding valid_offline_root is_bad_component streq
offline_roots = (refl, refl, refl, refl)

archive_path_to_final-if_example : archive_path_to_final 8 (codes "a/b.elf") ≡ (
    if is_safe_path (codes "a/b.elf") && ltb (length (codes "a/b.elf") + 1) 8
    then some (slash ∷ map to_slash (codes "a/b.elf"))
    else none)
archive_path_to_final-if_example = archive_path_to_final-if 8 (codes "a/b.elf")

destination_path-IsUnder_example :
    IsUnder (codes "@sys") (codes "@sys/binary/a.elf")
    ⊎ ((root : Bytes) × (none ≡ some root) × IsUnder root (codes "@sys/binary/a.elf"))
unfolding archive_path_to_final append_text append_char is_bad_component destination_path streq
destination_path-IsUnder_example =
    destination_path-IsUnder (codes "@sys") none over_root (codes "binary/a.elf")
      (codes "/binary/a.elf") (codes "@sys/binary/a.elf") max_path (omega arith) refl refl

package_cache_path-hash_example :
    (hex : Bytes) × (package_cache_path (codes "@sys/cache") (codes "ui") max_path
      ≡ some (codes "@sys/cache" ++ slash ∷ (hex ++ codes ".zip")))
    × (length hex ≡ 8)
    × (all_hex hex ≡ true)
    × (read_hex 0 hex ≡ fnv1a32 (codes "ui"))
package_cache_path-hash_example =
    package_cache_path-hash (codes "@sys/cache") (codes "ui") max_path (omega arith)
