-- ===== src/Neupak/Paths.antt =====
-- neupak/src/neupak.cpp: the paths of a package's files and of the caches. `boot_root` and `sysroot`
-- stand for the globals g_boot_root and kSysrootPrefix.
pub mod Safe
pub mod Caches
pub mod Tests
use Prim.Native.Nat.{bit_xor}
use packages_repo_main.Neupak.{over_boot, over_root}
use packages_repo_main.Neupak.Lines.{is_empty, extend_first}
use packages_repo_main.Text.{codes, streq, append_text, append_char, Bytes}
use packages_repo_main.Prelude.Fallible.{◌>>=◌}
use packages_repo_main.Prelude.{
  zero, ◌-◌, ◌+◌, ◌^◌, ◌/◌, ◌%◌, ◌*◌, suc, ltb, not, List, ◌++◌, none, if◌then◌else◌, some, [],
  ◌&&◌, false, Option, ◌||◌, ◌∷◌, ◌==◌, true, Bool, ℕ,
}

abbrev pub slash : ℕ
slash = 47

abbrev pub backslash : ℕ
backslash = 92

abbrev pub dot : ℕ
dot = 46

-- The components that are refused: none, `..` and `...`.
unfoldable pub is_bad_component : Bytes → Bool
is_bad_component [] = true
is_bad_component (a ∷ []) = false
is_bad_component (a ∷ b ∷ []) = a == dot && b == dot
is_bad_component (a ∷ b ∷ c ∷ []) = a == dot && b == dot && c == dot
is_bad_component (a ∷ b ∷ c ∷ d ∷ rest) = false

-- A separator of an archive path.
unfoldable pub is_separator : ℕ → Bool
is_separator c = c == slash || c == backslash

-- The components of a path, between separators. There is always one.
unfoldable pub split_on : (ℕ → Bool) → Bytes → List Bytes
split_on separates [] = [] ∷ []
split_on separates (c ∷ cs) =
    if separates c then [] ∷ split_on separates cs else extend_first c (split_on separates cs)

-- The loop of `archive_path_to_final`: behind the last separator there may be nothing.
unfoldable pub final_components : ℕ → Bytes → List Bytes → Option Bytes
final_components size out [] = some out
final_components size out (component ∷ []) =
    if is_empty component
    then some out
    else if is_bad_component component
    then none
    else append_text size out component
final_components size out (component ∷ d ∷ ds) = if is_bad_component component then none else (do
  copied ← append_text size out component
  out' ← append_char size copied slash
  final_components size out' (d ∷ ds))

unfoldable pub archive_path_to_final : ℕ → Bytes → Option Bytes
unfolding final_components split_on is_separator
archive_path_to_final size [] = none
archive_path_to_final size (c ∷ cs) = if is_separator c then none else (do
  out ← append_char size [] slash
  final_components size out (split_on is_separator (c ∷ cs)))

-- Whether the components of an offline root pass: `.`, `..`, `...` and an empty one do not, but
-- for an empty one at the end.
unfoldable pub root_components : List Bytes → Bool
root_components [] = true
root_components (component ∷ []) =
    is_empty component || not (is_bad_component component || streq component (dot ∷ []))
root_components (component ∷ d ∷ ds) =
    not (is_bad_component component || streq component (dot ∷ [])) && root_components (d ∷ ds)

unfoldable pub valid_offline_root : Bytes → Bool
unfolding root_components split_on
valid_offline_root [] = false
valid_offline_root (c ∷ []) = false
valid_offline_root (c ∷ d ∷ ds) =
    c == slash && root_components (split_on (λ x. x == slash) (d ∷ ds))

-- A prefix and a logical path: `sysroot_path_for_logical`, `append_boot_path`.
unfoldable pub prefixed_path : Bytes → Bytes → ℕ → Option Bytes
unfolding append_text
prefixed_path root [] size = none
prefixed_path root (c ∷ cs) size =
    if c == slash then (do out ← append_text size [] root; append_text size out (c ∷ cs)) else none

-- `boot_root` is `none` where `find_boot_root` finds no boot partition.
unfoldable pub destination_path : Bytes → Option Bytes → Bytes → Bytes → ℕ → Option Bytes
unfolding prefixed_path
destination_path sysroot boot_root strategy logical_path size =
    if streq strategy over_root
    then prefixed_path sysroot logical_path size
    else if streq strategy over_boot
    then (boot_root >>= λ root. prefixed_path root logical_path size)
    else none

-- The 32-bit hash of a package's name, from `hash` on.
unfoldable pub fnv1a32_from : ℕ → Bytes → ℕ
fnv1a32_from hash [] = hash
fnv1a32_from hash (c ∷ cs) = fnv1a32_from (bit_xor hash c * 16777619 % 2 ^ 32) cs

abbrev pub fnv1a32 : Bytes → ℕ
fnv1a32 text = fnv1a32_from 2166136261 text

unfoldable pub hex_nibble : ℕ → ℕ
hex_nibble value = if ltb (value % 16) 10 then b'0' + value % 16 else b'A' + value % 16 - 10

-- `append_hex8` from the digit at `shift` = 4 * `digits` - 4 down.
unfoldable pub append_hex : ℕ → ℕ → Bytes → ℕ → Option Bytes
unfolding append_char hex_nibble
append_hex zero size out value = some out
append_hex (suc digits) size out value = do
  out' ← append_char size out (hex_nibble (value / 16 ^ digits))
  append_hex digits size out' value

abbrev pub append_hex8 : ℕ → Bytes → ℕ → Option Bytes
append_hex8 = append_hex 8

unfoldable pub repo_cache_path : Bytes → Bytes → ℕ → Option Bytes
unfolding append_text append_char
repo_cache_path cache_dir repo size = do
  a ← append_text size [] cache_dir
  b ← append_char size a slash
  c ← append_text size b repo
  append_text size c (codes ".idx")

unfoldable pub package_cache_path : Bytes → Bytes → ℕ → Option Bytes
unfolding append_text append_char append_hex
package_cache_path cache_dir package_name size = do
  a ← append_text size [] cache_dir
  b ← append_char size a slash
  c ← append_hex8 size b (fnv1a32 package_name)
  append_text size c (codes ".zip")

unfoldable pub temp_payload_path : Bytes → Bytes → Bytes → ℕ → Option Bytes
unfolding append_text append_char append_hex
temp_payload_path extract_dir package_name final_path size = do
  a ← append_text size [] extract_dir
  b ← append_char size a slash
  c ← append_hex8 size b (fnv1a32 package_name)
  append_text size c final_path
