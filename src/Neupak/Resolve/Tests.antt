-- ===== src/Neupak/Resolve/Tests.antt =====
-- Runs of the dependency resolution, and the theorems at them.
use packages_repo_main.Neupak.Resolve.Cycle.{cycle_runs, OnCycle}
use packages_repo_main.Text.Laws.{streq_iff}
use Prim.Native.String.{String}
use packages_repo_main.Prelude.Outcome.{running, failed, done}
use packages_repo_main.Neupak.Resolve.Complete.{resolve-succeeds, IsClosed}
use packages_repo_main.Neupak.Resolve.Terminates.{resolve_terminates, Distinct, Ranked}
use packages_repo_main.Neupak.Resolve.Order.{resolve-IsOrdered, IsOrdered}
use packages_repo_main.Neupak.Packages.{new_package, find_package}
use packages_repo_main.Text.{streq, contains, codes, Bytes}
use packages_repo_main.Neupak.Resolve.{installed_version_matches, add_each, add_install_with_deps}
use packages_repo_main.Neupak.{over_root, max_install_queue, InstalledPackage, Package}
use packages_repo_main.Prelude.{
  ◌||◌, inr, ◌⊎◌, true, Bool, inl, some, refl, arith, ◌++◌, ◌≡◌, false, ◌≤◌, if◌then◌else◌, ◌∷◌,
  length, [], List, ℕ,
}

abbrev pkg : String → String → List Bytes → Package
pkg name version depends = record (new_package (codes name)) {
  version = codes version;
  depends = depends;
}

abbrev libc : Package
libc = pkg "libc" "1.0.0" []

abbrev ui : Package
ui = pkg "ui" "0.2.0" (codes "libc" ∷ [])

abbrev desktop : Package
desktop = pkg "desktop" "0.1.0" (codes "ui" ∷ codes "libc" ∷ [])

abbrev repository : List Package
repository = desktop ∷ libc ∷ ui ∷ []

abbrev no_packages : List InstalledPackage
no_packages = []

abbrev desktop_queue : List Bytes
desktop_queue = codes "libc" ∷ codes "ui" ∷ codes "desktop" ∷ []

-- Dependencies come first, and one that two packages share is queued once.
resolve_desktop :
    add_install_with_deps repository no_packages 3 false (codes "desktop") [] ≡ done desktop_queue
unfolding add_install_with_deps add_each find_package contains streq installed_version_matches
resolve_desktop = refl

-- A dependency that is installed in the version of the index is left out.
resolve_with_libc :
    add_install_with_deps repository
      (record { name = codes "libc"; version = codes "1.0.0"; strategy = over_root } ∷ [])
      3
      false
      (codes "desktop")
      []
    ≡ done (codes "ui" ∷ codes "desktop" ∷ [])
unfolding add_install_with_deps add_each find_package contains streq installed_version_matches
resolve_with_libc = refl

abbrev level : Bytes → ℕ
level n = if streq n (codes "desktop") then 2 else if streq n (codes "ui") then 1 else 0

repository-Ranked : Ranked repository level
unfolding find_package contains
repository-Ranked name p d found c = ground (
  arith,
  found,
  c,
  streq_iff (codes "desktop") name,
  streq_iff (codes "ui") name,
  streq_iff (codes "libc") name,
  streq_iff name (codes "desktop"),
  streq_iff name (codes "ui"),
  streq_iff d (codes "desktop"),
  streq_iff d (codes "ui"),
  streq_iff (codes "ui") d,
  streq_iff (codes "libc") d,
)

dependency_cases :
    (name : Bytes) (p : Package) (d : Bytes)
    → find_package repository name ≡ some p
    → contains p.depends d ≡ true
    → (d ≡ codes "ui") ⊎ (d ≡ codes "libc")
unfolding find_package contains
dependency_cases name p d found c =
    ground (arith, found, c, streq_iff (codes "ui") d, streq_iff (codes "libc") d)

repository-IsClosed : IsClosed repository
unfolding find_package streq
repository-IsClosed name p d found c = elim (dependency_cases name p d found c) [
  | inl e ↦ (ui, rw e)
  | inr e ↦ (libc, rw e)
]

resolve-IsOrdered_example :
    IsOrdered repository no_packages desktop_queue
    × (length desktop_queue ≤ max_install_queue)
    × ((before : List Bytes) × (desktop_queue ≡ before ++ codes "desktop" ∷ []))
resolve-IsOrdered_example =
    resolve-IsOrdered repository no_packages 3 (codes "desktop") desktop_queue (omega arith)
      resolve_desktop

resolve_terminates_example :
    (add_install_with_deps repository no_packages 3 false (codes "desktop") [] ≡ failed)
    ⊎ ((q : List Bytes) × (add_install_with_deps repository no_packages 3 false (codes "desktop") []
          ≡ done q)
        × Distinct q)
unfolding streq
resolve_terminates_example =
    resolve_terminates repository no_packages level repository-Ranked 3 (codes "desktop")
      (omega arith) (omega arith)

resolve-succeeds_example :
    (q : List Bytes) × (add_install_with_deps repository no_packages 3 false (codes "desktop") []
      ≡ done q)
    × IsOrdered repository no_packages q
    × Distinct q
    × ((before : List Bytes) × (q ≡ before ++ codes "desktop" ∷ []))
unfolding find_package streq
resolve-succeeds_example =
    resolve-succeeds repository no_packages level repository-Ranked repository-IsClosed
      (omega arith) (omega arith) 3 (codes "desktop") desktop (omega arith) refl

abbrev hen : Package
hen = pkg "hen" "1.0.0" (codes "egg" ∷ [])

abbrev egg : Package
egg = pkg "egg" "1.0.0" (codes "hen" ∷ [])

abbrev on_hen_cycle : Bytes → Bool
on_hen_cycle n = streq n (codes "hen") || streq n (codes "egg")

hen_or_egg : (n : Bytes) → on_hen_cycle n ≡ true → (n ≡ codes "hen") ⊎ (n ≡ codes "egg")
hen_or_egg n c = ground (arith, streq_iff n (codes "hen"), streq_iff n (codes "egg"))

hen_cycle_members :
    (name : Bytes)
    → on_hen_cycle name ≡ true
    → OnCycle (hen ∷ egg ∷ []) no_packages on_hen_cycle name
unfolding find_package streq installed_version_matches
hen_cycle_members name c = elim (hen_or_egg name c) [
  | inl e ↦ rw e (record {
    pkg = hen;
    found = refl;
    missing = refl;
    first = codes "egg";
    others = [];
    depends_on = refl;
    first_cyclic = refl;
  })
  | inr e ↦ rw e (record {
    pkg = egg;
    found = refl;
    missing = refl;
    first = codes "hen";
    others = [];
    depends_on = refl;
    first_cyclic = refl;
  })
]

cycle_runs_example :
    add_install_with_deps (hen ∷ egg ∷ []) no_packages 40 false (codes "hen") [] ≡ running
unfolding streq contains
cycle_runs_example =
    cycle_runs (hen ∷ egg ∷ []) no_packages on_hen_cycle hen_cycle_members 40 false (codes "hen") []
      refl (λ m c. cc c)
