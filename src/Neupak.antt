-- ===== src/Neupak.antt =====
-- neupak/src/neupak.cpp: the package manager's constants and records. An array with a count is a
-- list, and a fixed character array is the string that it holds; the sizes are kept as bounds.
pub mod Manifest
pub mod Packages
pub mod Archives
pub mod Arrays
pub mod Files
pub mod Indexes
pub mod Installed
pub mod Lines
pub mod Paths
pub mod Resolve
use packages_repo_main.Prelude.{ℕ, Bool, List, ◌*◌}
use packages_repo_main.Text.{Bytes, codes}

abbrev pub max_text : ℕ
max_text = 256 * 1024

abbrev pub max_path : ℕ
max_path = 256

abbrev pub max_name : ℕ
max_name = 64

abbrev pub max_url : ℕ
max_url = 512

abbrev pub max_version : ℕ
max_version = 32

abbrev pub max_strategy : ℕ
max_strategy = 32

abbrev pub max_description : ℕ
max_description = 160

abbrev pub max_repos : ℕ
max_repos = 12

abbrev pub max_packages : ℕ
max_packages = 96

abbrev pub max_deps : ℕ
max_deps = 16

abbrev pub max_files : ℕ
max_files = 256

abbrev pub max_install_queue : ℕ
max_install_queue = 96

pub record Repo : Type 0 where
  pub name : Bytes
  pub indexurl : Bytes

-- `filename` is the field `package` of the source.
pub record Package : Type 0 where
  pub name : Bytes
  pub filename : Bytes
  pub package_url : Bytes
  pub version : Bytes
  pub sha256 : Bytes
  pub size : ℕ
  pub strategy : Bytes
  pub description : Bytes
  pub depends : List Bytes
  pub present : Bool

pub record InstalledPackage : Type 0 where
  pub name : Bytes
  pub version : Bytes
  pub strategy : Bytes

pub record PackageFiles : Type 0 where
  pub name : Bytes
  pub files : List Bytes

abbrev pub over_root : Bytes
over_root = codes "over_root"

abbrev pub over_boot : Bytes
over_boot = codes "over_boot"
