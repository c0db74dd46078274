-- ===== src/Neupak/Installed/Tests.antt =====
-- Runs of the database of installed packages, and the theorems at them.
use packages_repo_main.Neupak.Installed.Records.{find_installed-remove}
use packages_repo_main.Neupak.Installed.RoundTrip.{load-render}
use packages_repo_main.Neupak.Lines.{
  split_lines, parse_quoted, split_key_value, parse_section_header, clean,
}
use packages_repo_main.Neupak.Installed.Reading.{IsStorable, AllStorable}
use packages_repo_main.Neupak.Packages.{valid_name}
use packages_repo_main.Neupak.Installed.{
  default_strategy, installed_line, remove_installed_record, find_installed, parse_installed,
  append_installed, load_installed, render_installed,
}
use packages_repo_main.Text.{append_char, append_text, codes, streq, Bytes}
use packages_repo_main.Neupak.{over_boot, over_root, InstalledPackage}
use packages_repo_main.Prelude.{arith, refl, none, if◌then◌else◌, some, ◌≡◌, ◌∷◌, [], List}

abbrev shell : InstalledPackage
shell = record { name = codes "base-system"; version = codes "1.4.0#rc"; strategy = over_root }

abbrev kernel : InstalledPackage
kernel = record { name = codes "neutrino-kernel"; version = codes "0.9.1"; strategy = over_boot }

abbrev stored : List InstalledPackage
stored = shell ∷ kernel ∷ []

abbrev stored_text : Bytes
stored_text =
    codes
      "[base-system]\nversion = \"1.4.0#rc\"\nstrategy = \"over_root\"\n\n[neutrino-kernel]\nversion = \"0.9.1\"\nstrategy = \"over_boot\"\n\n"

render_stored : render_installed [] stored ≡ some stored_text
unfolding render_installed append_installed append_text append_char
render_stored = refl

-- Comments, spaces, unknown keys and a missing strategy.
load_by_hand :
    load_installed (some (codes "# packages\n  [ui]  \nversion=\"1.0.0\" # new\nnote = 1\n"))
    ≡ some (record { name = codes "ui"; version = codes "1.0.0"; strategy = over_root } ∷ [])
unfolding load_installed parse_installed clean installed_line parse_section_header split_key_value
    parse_quoted default_strategy split_lines streq valid_name
load_by_hand = refl

shell-IsStorable : IsStorable shell
unfolding valid_name
shell-IsStorable = record {
  name_valid = refl;
  name_fits = omega arith;
  version_plain = refl;
  version_fits = omega arith;
  strategy_plain = refl;
  strategy_fits = omega arith;
  strategy_there = refl;
}

kernel-IsStorable : IsStorable kernel
unfolding valid_name
kernel-IsStorable = record {
  name_valid = refl;
  name_fits = omega arith;
  version_plain = refl;
  version_fits = omega arith;
  strategy_plain = refl;
  strategy_fits = omega arith;
  strategy_there = refl;
}

stored-AllStorable : AllStorable stored
stored-AllStorable = (shell-IsStorable, (kernel-IsStorable, tt))

load-render_example :
    (text : Bytes) × (render_installed [] stored ≡ some text)
    × (load_installed (some text) ≡ some stored)
load-render_example = load-render stored stored-AllStorable (omega arith)

find_installed-remove_example :
    find_installed (remove_installed_record stored (codes "base-system")) (codes "base-system") ≡ (
      if streq (codes "base-system") (codes "base-system")
      then none
      else find_installed stored (codes "base-system"))
unfolding streq
find_installed-remove_example =
    find_installed-remove stored (codes "base-system") (codes "base-system") (omega arith)
