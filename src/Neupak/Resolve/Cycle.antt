-- ===== src/Neupak/Resolve/Cycle.antt =====
-- `add_install_with_deps` puts a package in the queue only after its dependencies, and looks at
-- nothing else to see that it is already at work on it: on a cycle it calls itself for ever.
use packages_repo_main.Prelude.Outcome.{running}
use packages_repo_main.Neupak.Resolve.{installed_version_matches, add_each, add_install_with_deps}
use packages_repo_main.Neupak.Packages.{find_package}
use packages_repo_main.Text.{contains, Bytes}
use packages_repo_main.Neupak.{InstalledPackage, Package}
use packages_repo_main.Prelude.{refl, zero, arith, suc, ◌∷◌, false, true, some, ◌≡◌, Bool, List, ℕ}

module _ (index : List Package) (installed : List InstalledPackage) (cyclic : Bytes → Bool) where
  -- A package of the cycle is in the index, is not installed in that version, and its first
  -- dependency is on the cycle too.
  pub record OnCycle (name : Bytes) : Type 0 where
    pub pkg : Package
    pub found : find_package index name ≡ some pkg
    pub missing : installed_version_matches installed pkg ≡ false
    pub first : Bytes
    pub others : List Bytes
    pub depends_on : pkg.depends ≡ first ∷ others
    pub first_cyclic : cyclic first ≡ true

  -- Let the packages of a set be in the index, not installed in its version, and each have a member
  -- of the set as its first dependency. A call on a member, with no member in the queue, is still
  -- running when the fuel is used up, however much it was given.
  pub cycle_runs :
      (members : (name : Bytes) → cyclic name ≡ true → OnCycle name)
      → (f : ℕ) (dep : Bool) (name : Bytes) (q : List Bytes) → cyclic name ≡ true
      → ((m : Bytes) → contains q m ≡ true → cyclic m ≡ false)
      → add_install_with_deps index installed f dep name q ≡ running
  unfolding add_install_with_deps add_each
  cycle_runs members zero dep name q c free = refl
  cycle_runs members (suc f) dep name q c free =
      let o = members name c in
      ground (
        arith,
        o.found,
        o.missing,
        o.depends_on,
        free name,
        cycle_runs members f true o.first q o.first_cyclic free,
      )
