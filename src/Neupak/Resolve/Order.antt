-- ===== src/Neupak/Resolve/Order.antt =====
-- The queue that `add_install_with_deps` builds is in installation order.
use packages_repo_main.Neupak.Packages.Laws.{find_package_fits, NamesFit}
use packages_repo_main.Neupak.Packages.{find_package}
use packages_repo_main.Neupak.Resolve.{
  add_each, add_install_with_deps, enqueue, installed_version_matches,
}
use packages_repo_main.Neupak.{Package, InstalledPackage, max_name, max_install_queue}
use packages_repo_main.Prelude.Outcome.{Outcome, done, bind-eq-done}
use packages_repo_main.Prelude.{
  ℕ, zero, suc, ◌≤◌, ◌≡◌, refl, sym, Bool, true, false, ◌&&◌, List, [], ◌∷◌, ◌++◌, some, arith,
  append-nil, append_assoc, length, length-append, Bool-cases, Option-cases, ◌⊎◌, inl, inr, ◌<◌,
  subst,
}
use packages_repo_main.Text.Laws.{contains_append_left, contains_append_self, strlcpy_fits}
use packages_repo_main.Text.{Bytes, contains}

-- What a push leaves: the queue was not full, and the whole name is its last entry.
pub enqueue-eq-done :
    (name : Bytes) (q r : List Bytes)
    → length name < max_name
    → enqueue name q ≡ done r
    → (r ≡ q ++ name ∷ []) × (length r ≤ max_install_queue)
unfolding enqueue
enqueue-eq-done name q r fits e =
    ground (arith, strlcpy_fits max_name name, length-append q (name ∷ []))

not_in_empty : (name : Bytes) → contains [] name ≡ true → ⊥
unfolding contains
not_in_empty name c = cc c

module _ (index : List Package) (installed : List InstalledPackage) where
  -- The ways in which the routine returns true.
  pub data Added (call : Bytes → List Bytes → Outcome (List Bytes)) (dep : Bool) (name : Bytes)
      (q r : List Bytes) : Type 0 where
    already_installed :
        (pkg : Package)
        → find_package index name ≡ some pkg
        → dep ≡ true
        → installed_version_matches installed pkg ≡ true
        → r ≡ q
        → Added call dep name q r
    already_queued :
        (pkg : Package)
        → find_package index name ≡ some pkg
        → contains q name ≡ true
        → r ≡ q
        → Added call dep name q r
    pushed :
        (pkg : Package) (q' : List Bytes)
        → find_package index name ≡ some pkg
        → contains q name ≡ false
        → add_each call pkg.depends q ≡ done q'
        → enqueue name q' ≡ done r
        → Added call dep name q r

  pub add_install_zero :
      (dep : Bool) (name : Bytes) (q r : List Bytes)
      → add_install_with_deps index installed zero dep name q ≡ done r
      → ⊥
  unfolding add_install_with_deps
  add_install_zero dep name q r e = cc e

  pub add_install-Added :
      (f : ℕ) (dep : Bool) (name : Bytes) (q r : List Bytes)
      → add_install_with_deps index installed (suc f) dep name q ≡ done r
      → Added (add_install_with_deps index installed f true) dep name q r
  unfolding add_install_with_deps
  add_install-Added f dep name q r e = elim (Option-cases (find_package index name)) [
    | inl none_found ↦ absurd (ground (arith, e))
    | inr (pkg, found) ↦ elim (Bool-cases (dep && installed_version_matches installed pkg)) [
      | inl m ↦ already_installed pkg found (ground arith) (ground arith) (ground (arith, e))
      | inr m ↦ elim (Bool-cases (contains q name)) [
        | inl c ↦ already_queued pkg found c (ground (arith, e))
        | inr c ↦
            let (q', each, last) =
              bind-eq-done (add_each (add_install_with_deps index installed f true) pkg.depends q)
                (enqueue name) (rw (found, m, c, add_install_with_deps) at e) in
            pushed pkg q' found c each last
      ]
    ]
  ]

  -- The dependency is queued, or installed in the version of the index.
  abbrev pub Met : List Bytes → Bytes → Type 0
  Met q d =
      (contains q d ≡ true)
      ⊎ ((pkg : Package) × (find_package index d ≡ some pkg)
          × (installed_version_matches installed pkg ≡ true))

  abbrev pub AllMet : List Bytes → List Bytes → Type 0
  AllMet q [] = Unit {0}
  AllMet q (d ∷ ds) = Met q d × AllMet q ds

  -- Every entry names a package of the index, and what that depends on is met by the entries
  -- before it.
  pub data IsOrdered : List Bytes → Type 0 where
    empty : {q : List Bytes} → q ≡ [] → IsOrdered q
    snoc :
        {q before : List Bytes} (name : Bytes) (pkg : Package)
        → IsOrdered before
        → find_package index name ≡ some pkg
        → AllMet before pkg.depends
        → q ≡ before ++ name ∷ []
        → IsOrdered q

  Met-append : (q s : List Bytes) (d : Bytes) → Met q d → Met (q ++ s) d
  Met-append q s d (inl h) = inl (contains_append_left q s d h)
  Met-append q s d (inr h) = inr h

  AllMet-append : (q s ds : List Bytes) → AllMet q ds → AllMet (q ++ s) ds
  AllMet-append q s [] h = tt
  AllMet-append q s (d ∷ ds) h = (Met-append q s d h.0, AllMet-append q s ds h.1)

  -- What a successful call guarantees of the queue it was given and the one it leaves.
  pub record Good (q r : List Bytes) : Type 0 where
    pub ordered : IsOrdered r
    pub bounded : length r ≤ max_install_queue
    pub added : List Bytes
    pub extends : r ≡ q ++ added

  Good-refl : (q : List Bytes) → IsOrdered q → length q ≤ max_install_queue → Good q q
  Good-refl q o b = record { ordered = o; bounded = b; added = []; extends = sym (append-nil q) }

  Good-trans : (q r s : List Bytes) → Good q r → Good r s → Good q s
  Good-trans q r s g h = record {
    ordered = h.ordered;
    bounded = h.bounded;
    added = g.added ++ h.added;
    extends = rw (h.extends, g.extends) (append_assoc q g.added h.added);
  }

  abbrev pub Sound : (Bytes → List Bytes → Outcome (List Bytes)) → Type 0
  Sound call =
      (d : Bytes) (q r : List Bytes)
      → IsOrdered q
      → length q ≤ max_install_queue
      → call d q ≡ done r
      → Good q r × Met r d

  pub add_each-Good :
      (call : Bytes → List Bytes → Outcome (List Bytes))
      → Sound call
      → (ds q r : List Bytes) → IsOrdered q
      → length q ≤ max_install_queue
      → add_each call ds q ≡ done r
      → Good q r × AllMet r ds
  unfolding add_each
  add_each-Good call sound [] q r o b e =
      (subst (λ s. Good q s) (ground arith) (Good-refl q o b), tt)
  add_each-Good call sound (d ∷ ds) q r o b e =
      let (q', first, rest) = bind-eq-done (call d q) (add_each call ds) e in
      let (g, met) = sound d q q' o b first in
      let (h, all) = add_each-Good call sound ds q' r g.ordered g.bounded rest in
      (
        Good-trans q q' r g h,
        (subst (λ s. Met s d) (sym h.extends) (Met-append q' h.added d met), all),
      )

  pub add_install-Sound :
      NamesFit index → (f : ℕ) (dep : Bool) → Sound (add_install_with_deps index installed f dep)
  add_install-Sound fit zero dep d q r o b e = absurd (add_install_zero dep d q r e)
  add_install-Sound fit (suc f) dep d q r o b e = elim (add_install-Added f dep d q r e) [
    | already_installed pkg found _ m same ↦ rw same (Good-refl q o b, inr (pkg, found, m))
    | already_queued pkg found c same ↦ rw same (Good-refl q o b, inl c)
    | pushed pkg q' found c each last ↦
        let (g, all) = add_each-Good _ (add_install-Sound fit f true) pkg.depends q q' o b each in
        let (end, room) = enqueue-eq-done d q' r (find_package_fits index d pkg fit found) last in
        (
          Good-trans q q' r g (record {
            ordered = snoc d pkg g.ordered found all end;
            bounded = room;
            added = d ∷ [];
            extends = end;
          }),
          inl (rw end (contains_append_self q' d)),
        )
  ]

  -- When a package of the index is resolved from an empty queue, the resulting queue ends with that
  -- package, has no more than the permitted number of entries, and stands in installation order:
  -- each entry is in the index, and each of its dependencies is an earlier entry or is installed in
  -- the version of the index. The names in the index fit their buffers.
  pub resolve-IsOrdered :
      (f : ℕ) (name : Bytes) (q : List Bytes)
      → NamesFit index
      → add_install_with_deps index installed f false name [] ≡ done q
      → IsOrdered q
        × (length q ≤ max_install_queue)
        × ((before : List Bytes) × (q ≡ before ++ name ∷ []))
  resolve-IsOrdered zero name q fit e = absurd (add_install_zero false name [] q e)
  resolve-IsOrdered (suc f) name q fit e =
      let (g, _) = add_install-Sound fit (suc f) false name [] q (empty refl) (omega arith) e in
      (g.ordered, g.bounded, ends (add_install-Added f false name [] q e))
    where
      ends :
          Added (add_install_with_deps index installed f true) false name [] q
          → (before : List Bytes) × (q ≡ before ++ name ∷ [])
      ends (already_installed pkg found dep m same) = absurd (cc dep)
      ends (already_queued pkg found c same) = absurd (not_in_empty name c)
      ends (pushed pkg q' found c each last) =
          (q', (enqueue-eq-done name q' q (find_package_fits index name pkg fit found) last).0)
