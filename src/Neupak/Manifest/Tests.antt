-- ===== src/Neupak/Manifest/Tests.antt =====
-- Runs of the index parser, and the theorems at them.
use packages_repo_main.Prelude.Outcome.{done}
use packages_repo_main.Neupak.Arrays.{parse_string_list_line, collect_array_value}
use packages_repo_main.Neupak.Lines.{
  parse_quoted, split_key_value, parse_section_header, clean, split_lines,
}
use packages_repo_main.Neupak.Packages.{valid_name, find_package, add_package, new_package}
use packages_repo_main.Neupak.Installed.{read_file_limited}
use packages_repo_main.Neupak.Manifest.Parsed.{parse_package_toml-Parsed, Parsed}
use packages_repo_main.Neupak.Manifest.{
  validate_package, validate_all, depends_value, package_value, package_field, last_package,
  toml_line, toml_lines, valid_semver, parse_package_toml,
}
use packages_repo_main.Neupak.{over_root, Package}
use packages_repo_main.Text.{streq, codes, Bytes}
use packages_repo_main.Prelude.{refl, [], ◌∷◌, true, some, ◌≡◌, false}

abbrev index_text : Bytes
index_text =
    codes
      "# index\n[ui]\nversion = \"0.2.0\"\npackage = \"ui.zip\"\nstrategy = \"over_root\"\ndepends = [\n \"libc\", # C\n \"base\"\n]\n"

abbrev ui_package : Package
ui_package = record (new_package (codes "ui")) {
  filename = codes "ui.zip";
  version = codes "0.2.0";
  strategy = over_root;
  depends = codes "libc" ∷ codes "base" ∷ [];
}

parse_index : parse_package_toml (some index_text) false ≡ done (ui_package ∷ [])
unfolding parse_package_toml read_file_limited toml_lines toml_line split_lines clean
    parse_section_header add_package find_package valid_name last_package package_field
    split_key_value streq package_value parse_quoted depends_value collect_array_value
    parse_string_list_line validate_all validate_package
parse_index = refl

semver :
    (valid_semver (codes "1.20.3") ≡ true)
    × (valid_semver (codes "1.20.3-rc.1+x") ≡ true)
    × (valid_semver (codes "1.20") ≡ false)
    × (valid_semver (codes "1..3") ≡ false)
    × (valid_semver (codes "1.2.3 ") ≡ false)
unfolding valid_semver
semver = (refl, refl, refl, refl, refl)

parse_package_toml-Parsed_example : Parsed false (parse_package_toml (some index_text) false)
parse_package_toml-Parsed_example = parse_package_toml-Parsed (some index_text) false
