-- ===== src/Neupak/Packages.antt =====
-- neupak/src/neupak.cpp: names, versions and digests, and the set of packages of an index.
pub mod Laws
use packages_repo_main.Neupak.{Package, max_packages, max_name}
use packages_repo_main.Prelude.Fallible.{◌>>=◌, ◌>>◌, guard}
use packages_repo_main.Prelude.{
  ℕ, Bool, true, false, ◌&&◌, ◌||◌, not, List, [], ◌∷◌, ◌++◌, Option, none, some, ◌==◌, leb,
  if◌then◌else◌, length, ltb,
}
use packages_repo_main.Text.{Bytes, streq, strlcpy}

unfoldable pub is_digit : ℕ → Bool
is_digit c = leb b'0' c && leb c b'9'

unfoldable pub is_alpha : ℕ → Bool
is_alpha c = (leb b'a' c && leb c b'z') || (leb b'A' c && leb c b'Z')

-- The test in the loop of `valid_name`.
unfoldable pub is_name_char : ℕ → Bool
unfolding is_digit is_alpha
is_name_char c = is_alpha c || is_digit c || c == b'.' || c == b'_' || c == b'+' || c == b'-'

unfoldable pub all_name_chars : Bytes → Bool
unfolding is_name_char
all_name_chars [] = true
all_name_chars (c ∷ cs) = is_name_char c && all_name_chars cs

unfoldable pub valid_name : Bytes → Bool
unfolding all_name_chars
valid_name [] = false
valid_name (c ∷ cs) = all_name_chars (c ∷ cs)

unfoldable pub find_package : List Package → Bytes → Option Package
find_package [] name = none
find_package (p ∷ ps) name = if streq p.name name then some p else find_package ps name

-- A record cleared by `memset`, with its name.
abbrev pub new_package : Bytes → Package
new_package name = record {
  name = strlcpy max_name name;
  filename = [];
  package_url = [];
  version = [];
  sha256 = [];
  size = 0;
  strategy = [];
  description = [];
  depends = [];
  present = true;
}

-- The set with the new package at its end: the pointer that the source returns is the last element.
unfoldable pub add_package : List Package → Bytes → Option (List Package)
add_package set name =
    if leb max_packages (length set) || not (valid_name name)
    then none
    else elim (find_package set name) [ some _ ↦ none | none ↦ some (set ++ new_package name ∷ []) ]
