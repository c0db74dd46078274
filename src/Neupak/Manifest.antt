-- ===== src/Neupak/Manifest.antt =====
-- neupak/src/neupak.cpp: package indexes and manifests, `parse_package_toml`, and their validation.
-- The messages that name a line are not modelled.
pub mod Fields
pub mod Bounds
pub mod Parsed
pub mod Tests
use packages_repo_main.Neupak.Installed.{update_last, read_file_limited}
use packages_repo_main.Neupak.Arrays.{parse_string_list_line, collect_array_value}
use packages_repo_main.Neupak.{
  max_description, max_strategy, max_name, over_boot, max_version, over_root, Package,
}
use packages_repo_main.Neupak.Lines.{
  split_lines, parse_section_header, clean, parse_u64, parse_quoted, split_key_value, expect,
}
use packages_repo_main.Text.{codes, streq, Bytes}
use packages_repo_main.Neupak.Packages.{add_package, valid_name, is_alpha, is_digit}
use mathlib.Core.Option
use packages_repo_main.Prelude.Fallible
use packages_repo_main.Prelude.Outcome.{running, done, failed, Outcome, ◌>>=◌}
use packages_repo_main.Prelude.{
  zero, suc, not, [], false, some, ◌==◌, ◌&&◌, leb, none, if◌then◌else◌, length, true, ◌||◌, Option,
  ◌∷◌, Bool, List, ℕ,
}

-- `char sha256[65]`
abbrev pub sha256_size : ℕ
sha256_size = 65

-- `char array_text[1024]`
abbrev pub depends_text_size : ℕ
depends_text_size = 1024

unfoldable pub is_hex_char : ℕ → Bool
unfolding is_digit
is_hex_char c = is_digit c || (leb b'a' c && leb c b'f') || (leb b'A' c && leb c b'F')

unfoldable pub all_hex_chars : Bytes → Bool
unfolding is_hex_char
all_hex_chars [] = true
all_hex_chars (c ∷ cs) = is_hex_char c && all_hex_chars cs

unfoldable pub valid_sha256_hex : Bytes → Bool
unfolding all_hex_chars
valid_sha256_hex text = length text == 64 && all_hex_chars text

-- The inner loop of `valid_semver`: the text behind the digits of a part.
unfoldable pub skip_digits : Bytes → Bytes
unfolding is_digit
skip_digits [] = []
skip_digits (c ∷ cs) = if is_digit c then skip_digits cs else c ∷ cs

-- One part: at least one digit.
unfoldable pub version_part : Bytes → Option Bytes
unfolding skip_digits
version_part [] = none
version_part (c ∷ cs) = if is_digit c then some (skip_digits (c ∷ cs)) else none

unfoldable pub all_suffix_chars : Bytes → Bool
unfolding is_digit is_alpha
all_suffix_chars [] = true
all_suffix_chars (c ∷ cs) =
    (is_digit c || is_alpha c || c == b'-' || c == b'+' || c == b'.') && all_suffix_chars cs

-- What may stand behind the three parts.
unfoldable pub version_suffix : Bytes → Bool
unfolding all_suffix_chars
version_suffix [] = true
version_suffix (c ∷ cs) = (c == b'-' || c == b'+') && all_suffix_chars (c ∷ cs)

unfoldable pub version_parts : Bytes → Option Bytes
unfolding version_part expect
version_parts version = Fallible.◌>>=◌ (version_part version) λ a.
    Fallible.◌>>=◌ (expect b'.' a)
      λ b. Fallible.◌>>=◌ (version_part b) λ c. Fallible.◌>>=◌ (expect b'.' c) λ d. version_part d

unfoldable pub valid_semver : Bytes → Bool
unfolding version_parts version_suffix
valid_semver version = elim (version_parts version) [
  | none ↦ false
  | some rest ↦ version_suffix rest
]

unfoldable pub all_valid_names : List Bytes → Bool
all_valid_names [] = true
all_valid_names (n ∷ ns) = valid_name n && all_valid_names ns

unfoldable pub validate_package : Package → Bool → Bool
unfolding all_valid_names valid_semver valid_sha256_hex
validate_package pkg require_hash =
    valid_name pkg.name
    && (valid_semver pkg.version
        && ((not require_hash || valid_name pkg.filename)
            && ((streq pkg.strategy over_root || streq pkg.strategy over_boot)
                && ((not require_hash || valid_sha256_hex pkg.sha256)
                    && all_valid_names pkg.depends))))

unfoldable pub same_deps : List Bytes → List Bytes → Bool
same_deps [] [] = true
same_deps [] (b ∷ bs) = false
same_deps (a ∷ as') [] = false
same_deps (a ∷ as') (b ∷ bs) = streq a b && same_deps as' bs

unfoldable pub same_manifest_package : Package → Package → Bool
unfolding same_deps
same_manifest_package index_pkg manifest_pkg =
    streq index_pkg.version manifest_pkg.version
    && (streq index_pkg.strategy manifest_pkg.strategy
        && (streq index_pkg.description manifest_pkg.description
            && same_deps index_pkg.depends manifest_pkg.depends))

-- The value of a key other than `depends`, for the current package.
unfoldable pub package_value : Bytes → Bytes → Package → Option Package
package_value key value p =
    if streq key (codes "version")
    then Option.map (λ v. record p { version = v }) (parse_quoted max_version value)
    else if streq key (codes "package")
    then Option.map (λ v. record p { filename = v }) (parse_quoted max_name value)
    else if streq key (codes "sha256")
    then Option.map (λ v. record p { sha256 = v }) (parse_quoted sha256_size value)
    else if streq key (codes "size")
    then Option.map (λ v. record p { size = v }) (parse_u64 value)
    else if streq key (codes "strategy")
    then Option.map (λ v. record p { strategy = v }) (parse_quoted max_strategy value)
    else if streq key (codes "description")
    then Option.map (λ v. record p { description = v }) (parse_quoted max_description value)
    else some p

-- A `depends` line: the array may go on over the next lines.
unfoldable pub depends_value : Bytes → List Bytes → Package → Outcome (Package × List Bytes)
depends_value value lines p = elim (collect_array_value depends_text_size value lines) [
  | none ↦ failed
  | some (text, rest) ↦ do
    depends ← parse_string_list_line text
    done (record p { depends = depends }, rest)
]

unfoldable pub package_field : Bytes → List Bytes → Package → Outcome (Package × List Bytes)
unfolding package_value depends_value
package_field cleaned lines p = elim (split_key_value cleaned) [
  | none ↦ failed
  | some (key, value) ↦
      if streq key (codes "depends")
      then depends_value value lines p
      else elim (package_value key value p) [ none ↦ failed | some p' ↦ done (p', lines) ]
]

-- `current`, which points to the last package; the callers start with an empty set.
unfoldable pub last_package : List Package → Option Package
last_package [] = none
last_package (p ∷ []) = some p
last_package (p ∷ q ∷ qs) = last_package (q ∷ qs)

-- One round of the loop of `parse_package_toml`: the set and the lines that are left.
unfoldable pub toml_line : List Package → Bytes → List Bytes → Outcome (List Package × List Bytes)
toml_line set line lines = elim (clean line) [
  | [] ↦ done (set, lines)
  | c ∷ cs ↦ elim (parse_section_header max_name (c ∷ cs)) [
    | some section ↦ elim (add_package set section) [
      | none ↦ failed
      | some set' ↦ done (set', lines)
    ]
    | none ↦ elim (last_package set) [
      | none ↦ done (set, lines)
      | some p ↦ do
        (p', rest) ← package_field (c ∷ cs) lines p
        done (update_last (λ _. p') set, rest)
    ]
  ]
]

unfoldable pub toml_lines : ℕ → List Package → List Bytes → Outcome (List Package)
toml_lines zero set lines = running
toml_lines (suc fuel) set [] = done set
toml_lines (suc fuel) set (line ∷ lines) = do
  (set', rest) ← toml_line set line lines
  toml_lines fuel set' rest

unfoldable pub validate_all : List Package → Bool → Bool
validate_all [] require_hash = true
validate_all (p ∷ ps) require_hash = validate_package p require_hash && validate_all ps require_hash

-- Every round takes a line, so one unit of fuel more than there are lines is enough.
unfoldable pub parse_package_toml : Option Bytes → Bool → Outcome (List Package)
parse_package_toml file require_hash = elim (read_file_limited file) [
  | none ↦ failed
  | some text ↦ do
    set ← toml_lines (suc (length (split_lines text))) [] (split_lines text)
    if validate_all set require_hash then done set else failed
]
