-- ===== src/Neupak/Indexes/Tests.antt =====
-- Runs of the loading of indexes, and the theorems at them.
use packages_repo_main.Neupak.Installed.{read_file_limited}
use packages_repo_main.Neupak.Indexes.{repo_line}
use packages_repo_main.Neupak.Lines.{
  split_lines, clean, parse_section_header, split_key_value, parse_quoted,
}
use packages_repo_main.Neupak.Packages.{valid_name}
use packages_repo_main.Neupak.Manifest.{valid_sha256_hex}
use packages_repo_main.Text.{contains}
use packages_repo_main.Text.{streq, starts_with, append_char}
use packages_repo_main.Neupak.Indexes.Loaded.{
  load_indexes-Loaded, load_each-Loaded, IsIndex, Loaded,
}
use packages_repo_main.Neupak.Manifest.{validate_package}
use packages_repo_main.Neupak.Indexes.{load_indexes, load_each, derive_package_url, parse_repos_cfg}
use packages_repo_main.Neupak.Packages.{new_package}
use packages_repo_main.Text.{streq, codes, Bytes}
use packages_repo_main.Prelude.{
  refl, if◌then◌else◌, arith, none, ◌∷◌, ◌++◌, [], ◌≡◌, some, Option, replicate,
}
use packages_repo_main.Neupak.{over_root, Repo, Package}

abbrev config_text : Bytes
config_text = codes "[main]\nindexurl = \"https://n.org/r/main.idx\" # first\n"

abbrev no_hash : Bytes
no_hash = replicate 64 b'0'

abbrev index_text : Bytes
index_text =
    codes "[ui]\nversion = \"0.2.0\"\npackage = \"ui.zip\"\nstrategy = \"over_root\"\nsha256 = \""
    ++ no_hash
    ++ codes "\"\n"

abbrev cached : Bytes → Option Bytes
cached path = if streq path (codes "cache/main.idx") then some index_text else none

abbrev ui_package : Package
ui_package = record (new_package (codes "ui")) {
  filename = codes "ui.zip";
  version = codes "0.2.0";
  strategy = over_root;
  sha256 = no_hash;
}

abbrev old_ui : Package
old_ui = record ui_package { version = codes "0.1.0" }

abbrev main_repo : Repo
main_repo = record { name = codes "main"; indexurl = codes "https://n.org/r/main.idx" }

parse_config : parse_repos_cfg (some config_text) ≡ some (main_repo ∷ [])
unfolding parse_repos_cfg read_file_limited split_lines repo_line clean parse_section_header
    valid_name split_key_value streq parse_quoted
parse_config = refl

urls :
    (derive_package_url 512 (codes "file://r/main.idx") (codes "ui.zip") no_hash
      ≡ some (codes "file://r/ui.zip"))
    × (derive_package_url 512 (codes "main.idx") (codes "ui.zip") no_hash ≡ none)
    × (derive_package_url 512 (codes "http://n/i") (codes "ui.zip") no_hash
        ≡ some (codes "http://n/package/ui.zip?sha256=" ++ no_hash))
unfolding derive_package_url valid_name valid_sha256_hex starts_with append_char
urls = (refl, refl, refl)

old_ui-IsIndex : IsIndex (old_ui ∷ [])
unfolding validate_package contains valid_name streq
old_ui-IsIndex = record {
  packages = record {
    bounded = omega arith;
    distinct = (refl, tt);
    fits = (
      record {
        name = omega arith;
        filename = omega arith;
        version = omega arith;
        sha256 = omega arith;
        strategy = omega arith;
        package_url = omega arith;
        description = omega arith;
        few = omega arith;
        depends = tt;
      },
      tt,
    );
  };
  valid = (refl, tt);
}

load_each-Loaded_example :
    Loaded (old_ui ∷ []) (load_each (codes "cache") cached (old_ui ∷ []) (main_repo ∷ []))
load_each-Loaded_example =
    load_each-Loaded (codes "cache") cached (old_ui ∷ []) (main_repo ∷ []) old_ui-IsIndex

load_indexes-Loaded_example : Loaded [] (load_indexes (codes "cache") cached (some config_text))
load_indexes-Loaded_example = load_indexes-Loaded (codes "cache") cached (some config_text)
