-- ===== src/Neupak/Indexes.antt =====
-- neupak/src/neupak.cpp: the list of repositories, repos.cfg, and `load_indexes`, which makes one set
-- of packages of the cached indexes of the repositories.
pub mod Loaded
pub mod Tests
use packages_repo_main.Neupak.Manifest.{parse_package_toml, valid_sha256_hex}
use packages_repo_main.Neupak.Paths.{slash, repo_cache_path}
use packages_repo_main.Neupak.Packages.{valid_name, find_package}
use packages_repo_main.Neupak.Installed.{update_last, read_file_limited}
use packages_repo_main.Neupak.Lines.{
  parse_quoted, split_lines, is_empty, clean, parse_section_header, split_key_value,
}
use packages_repo_main.Text.{starts_with, codes, strlcpy, streq, append_text, Bytes}
use packages_repo_main.Prelude.Outcome.{done, failed, running, Outcome}
use packages_repo_main.Prelude.Outcome
use packages_repo_main.Prelude.Fallible.{◌>>=◌}
use packages_repo_main.Neupak.{max_packages, max_name, max_path, max_repos, max_url, Repo, Package}
use packages_repo_main.Prelude.{
  ◌-◌, take, none, ◌++◌, ◌==◌, ◌&&◌, ◌||◌, length, not, [], true, leb, false, ◌∷◌, some,
  if◌then◌else◌, Bool, Option, List, ℕ,
}

unfoldable pub has_repo : List Repo → Bytes → Bool
has_repo [] name = false
has_repo (r ∷ rs) name = streq r.name name || has_repo rs name

unfoldable pub add_repo : List Repo → Bytes → Option (List Repo)
unfolding has_repo
add_repo repos name =
    if leb max_repos (length repos) || not (valid_name name)
    then none
    else if has_repo repos name
    then none
    else some (repos ++ record { name = strlcpy max_name name; indexurl = [] } ∷ [])

-- A line that is no section header, behind the first section.
unfoldable pub repo_value : List Repo → Bytes → Option (List Repo)
repo_value repos cleaned = elim (split_key_value cleaned) [
  | none ↦ some repos
  | some (key, value) ↦
      if streq key (codes "indexurl")
      then (do
        url ← parse_quoted max_url value
        some (update_last (λ r. record r { indexurl = url }) repos))
      else some repos
]

-- One round of the loop of `parse_repos_cfg`, on a line that has been cleaned.
unfoldable pub repo_line : List Repo → Bytes → Option (List Repo)
unfolding add_repo repo_value
repo_line repos [] = some repos
repo_line repos (c ∷ cs) = elim (parse_section_header max_name (c ∷ cs)) [
  | some section ↦ add_repo repos section
  | none ↦ if leb 1 (length repos) then repo_value repos (c ∷ cs) else some repos
]

unfoldable pub repo_lines : List Repo → List Bytes → Option (List Repo)
repo_lines repos [] = some repos
repo_lines repos (line ∷ lines) = do repos' ← repo_line repos (clean line); repo_lines repos' lines

unfoldable pub all_have_url : List Repo → Bool
all_have_url [] = true
all_have_url (r ∷ rs) = not (is_empty r.indexurl) && all_have_url rs

unfoldable pub parse_repos_cfg : Option Bytes → Option (List Repo)
unfolding repo_lines all_have_url
parse_repos_cfg file = do
  text ← read_file_limited file
  repos ← repo_lines [] (split_lines text)
  if all_have_url repos && leb 1 (length repos) then some repos else none

-- The URL of an index up to its last slash, which is kept; empty if there is none.
unfoldable pub url_base : Bytes → Bytes
url_base [] = []
url_base (c ∷ cs) =
    let base = url_base cs in
    if not (is_empty base) then c ∷ base else if c == slash then c ∷ [] else []

-- The loops append the bytes of the base one at a time.
unfoldable pub derive_package_url : ℕ → Bytes → Bytes → Bytes → Option Bytes
unfolding url_base append_text
derive_package_url size indexurl filename sha256 =
    let base = url_base indexurl in
    if not (valid_name filename) || not (valid_sha256_hex sha256) || is_empty base
    then none
    else if starts_with indexurl (codes "file://")
    then (do out ← append_text size [] base; append_text size out filename)
    else (do
      a ← append_text size [] (take (length base - 1) base)
      b ← append_text size a (codes "/package/")
      c ← append_text size b filename
      d ← append_text size c (codes "?sha256=")
      append_text size d sha256)

-- A package of the index of one repository joins the set, unless an earlier one has its name.
unfoldable pub merge_package : Bytes → List Package → Package → Option (List Package)
merge_package indexurl set pkg = elim (find_package set pkg.name) [
  | some _ ↦ some set
  | none ↦ if leb max_packages (length set) then none else (do
    url ← derive_package_url max_url indexurl pkg.filename pkg.sha256
    some (set ++ record pkg { package_url = url } ∷ []))
]

unfoldable pub merge_packages : Bytes → List Package → List Package → Option (List Package)
unfolding merge_package
merge_packages indexurl set [] = some set
merge_packages indexurl set (p ∷ ps) = do
  set' ← merge_package indexurl set p
  merge_packages indexurl set' ps

-- The files are given as a function from their path to their content; the directory of the caches
-- is `kRepoCacheDir`.
module _ (cache_dir : Bytes) (file : Bytes → Option Bytes) where
  -- What `load_indexes` does for one repository.
  unfoldable pub load_index : List Package → Repo → Outcome (List Package)
  unfolding merge_packages
  load_index set repo = elim (repo_cache_path cache_dir repo.name max_path) [
    | none ↦ failed
    | some path ↦ Outcome.◌>>=◌ (parse_package_toml (file path) true) λ index.
        elim (merge_packages repo.indexurl set index) [ none ↦ failed | some set' ↦ done set' ]
  ]

  unfoldable pub load_each : List Package → List Repo → Outcome (List Package)
  unfolding load_index
  load_each set [] = done set
  load_each set (r ∷ rs) = Outcome.◌>>=◌ (load_index set r) λ set'. load_each set' rs

  -- `config` is the content of repos.cfg.
  unfoldable pub load_indexes : Option Bytes → Outcome (List Package)
  unfolding load_each
  load_indexes config = elim (parse_repos_cfg config) [
    | none ↦ failed
    | some repos ↦ load_each [] repos
  ]
