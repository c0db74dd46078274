-- ===== src/Neupak/Resolve.antt =====
-- neupak/src/neupak.cpp, `add_install_with_deps`: the order in which a package and what it depends
-- on are installed. The recursion of the source has no bound of its own, so it runs on fuel here,
-- one unit for each level of the recursion.
pub mod Order
pub mod Terminates
pub mod Complete
pub mod Cycle
pub mod Tests
use packages_repo_main.Neupak.Packages.{find_package}
use packages_repo_main.Neupak.{Package, InstalledPackage, max_name, max_install_queue}
use packages_repo_main.Prelude.Outcome.{Outcome, done, failed, running, ◌>>=◌}
use packages_repo_main.Prelude.{
  ℕ, zero, suc, Bool, true, false, ◌&&◌, List, [], ◌∷◌, ◌++◌, none, some, leb, if◌then◌else◌,
  length,
}
use packages_repo_main.Text.{Bytes, streq, contains, strlcpy}

unfoldable pub installed_version_matches : List InstalledPackage → Package → Bool
installed_version_matches [] pkg = false
installed_version_matches (i ∷ is) pkg =
    if streq i.name pkg.name then streq i.version pkg.version else installed_version_matches is pkg

-- The push onto the queue at the end of the routine.
unfoldable pub enqueue : Bytes → List Bytes → Outcome (List Bytes)
enqueue name queue =
    if leb max_install_queue (length queue)
    then failed
    else done (queue ++ strlcpy max_name name ∷ [])

-- The loop over `pkg->depends`, with the recursive call as a parameter.
unfoldable pub add_each :
    (Bytes → List Bytes → Outcome (List Bytes)) → List Bytes → List Bytes → Outcome (List Bytes)
add_each call [] queue = done queue
add_each call (d ∷ ds) queue = do queue' ← call d queue; add_each call ds queue'

module _ (index : List Package) (installed : List InstalledPackage) where
  unfoldable pub add_install_with_deps : ℕ → Bool → Bytes → List Bytes → Outcome (List Bytes)
  unfolding enqueue
  add_install_with_deps zero is_dependency name queue = running
  add_install_with_deps (suc fuel) is_dependency name queue = elim (find_package index name) [
    | none ↦ failed
    | some pkg ↦
        if is_dependency && installed_version_matches installed pkg
        then done queue
        else if contains queue name
        then done queue
        else do
          queue' ← add_each (add_install_with_deps fuel true) pkg.depends queue
          enqueue name queue'
  ]
