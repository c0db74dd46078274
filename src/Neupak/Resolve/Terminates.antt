-- ===== src/Neupak/Resolve/Terminates.antt =====
-- On an index without cycles the recursion of `add_install_with_deps` ends, and no package is
-- queued twice.
use packages_repo_main.Neupak.Packages.Laws.{find_package_fits, NamesFit}
use packages_repo_main.Neupak.Packages.{find_package}
use packages_repo_main.Neupak.Resolve.Order.{
  already_installed, already_queued, pushed, add_install-Added, add_install_zero, enqueue-eq-done,
}
use packages_repo_main.Neupak.Resolve.{add_each, add_install_with_deps}
use packages_repo_main.Neupak.{Package, InstalledPackage}
use packages_repo_main.Prelude.Outcome.{
  Outcome, done, failed, running, ◌>>=◌, bind-eq-done, Outcome-cases,
}
use packages_repo_main.Prelude.{
  ℕ, zero, suc, ◌<◌, ◌≡◌, ◌≢◌, Bool, true, false, List, [], ◌∷◌, ◌++◌, some, arith, Option-cases,
  ◌⊎◌, inl, inr, subst,
}
use packages_repo_main.Text.Laws.{streq_iff, contains-append, streq_refl}
use packages_repo_main.Text.{Bytes, contains}

-- No name stands twice in the list.
abbrev pub Distinct : List Bytes → Type 0
Distinct [] = Unit {0}
Distinct (x ∷ xs) = (contains xs x ≡ false) × Distinct xs

pub contains_snoc :
    (q : List Bytes) (n m : Bytes)
    → contains (q ++ n ∷ []) m ≡ true
    → (contains q m ≡ true) ⊎ (m ≡ n)
unfolding contains
contains_snoc [] n m h = ground (arith, streq_iff n m)
contains_snoc (x ∷ xs) n m h = ground (arith, contains_snoc xs n m)

pub Distinct-snoc :
    (q : List Bytes) (n : Bytes) → Distinct q → contains q n ≡ false → Distinct (q ++ n ∷ [])
unfolding contains
Distinct-snoc [] n d h = ground arith
Distinct-snoc (x ∷ xs) n d h = (
  ground (arith, contains-append xs (n ∷ []) x, streq_iff n x, streq_iff x n),
  Distinct-snoc xs n d.1 (ground arith),
)

-- A rank that falls from each package of the index to what it depends on: there is no cycle.
abbrev pub Ranked : List Package → (Bytes → ℕ) → Type 0
Ranked index rank =
    (name : Bytes) (pkg : Package) (d : Bytes)
    → find_package index name ≡ some pkg
    → contains pkg.depends d ≡ true
    → rank d < rank name

module _ (index : List Package) (installed : List InstalledPackage) (rank : Bytes → ℕ)
    (ranked : Ranked index rank) where
  add_each-ends :
      (call : Bytes → List Bytes → Outcome (List Bytes)) (ds q : List Bytes)
      → ((d : Bytes) (q' : List Bytes) → contains ds d ≡ true → call d q' ≢ running)
      → add_each call ds q ≢ running
  unfolding add_each contains
  add_each-ends call [] q h e = cc e
  add_each-ends call (d ∷ ds) q h e = elim (Outcome-cases (call d q)) [
    | inl c ↦ absurd (ground (arith, e))
    | inr (inl c) ↦ h d q (ground (arith, streq_refl d)) c
    | inr (inr (q', c)) ↦
        add_each-ends call ds q' (λ d' s k. h d' s (ground arith)) (rw (c, ◌>>=◌) at e)
  ]

  pub add_install-ends :
      (f : ℕ) (dep : Bool) (name : Bytes) (q : List Bytes)
      → rank name < f
      → add_install_with_deps index installed f dep name q ≢ running
  unfolding add_install_with_deps
  add_install-ends zero dep name q h e = elim h [ ]
  add_install-ends (suc f) dep name q h e = elim (Option-cases (find_package index name)) [
    | inl missing ↦ absurd (ground (arith, e))
    | inr (pkg, found) ↦ ground (
      arith,
      e,
      add_each-ends (add_install_with_deps index installed f true) pkg.depends q
          (λ d q' c. add_install-ends f true d q' (omega (arith, ranked name pkg d found c))),
    )
  ]

  -- The entries of `r` were in `q` or have a rank below `k`, and none is there twice.
  pub record Below (k : ℕ) (q r : List Bytes) : Type 0 where
    pub distinct : Distinct r
    pub below : (m : Bytes) → contains r m ≡ true → (contains q m ≡ true) ⊎ (rank m < k)

  abbrev pub KeepsBelow : (Bytes → List Bytes → Outcome (List Bytes)) → Bytes → Type 0
  KeepsBelow call d = (q r : List Bytes) → Distinct q → call d q ≡ done r → Below (suc (rank d)) q r

  pub add_each-Below :
      (call : Bytes → List Bytes → Outcome (List Bytes)) (k : ℕ) (ds q r : List Bytes)
      → ((d : Bytes) → contains ds d ≡ true → KeepsBelow call d × (rank d < k))
      → Distinct q
      → add_each call ds q ≡ done r
      → Below k q r
  unfolding add_each contains
  add_each-Below call k [] q r h dis e = record {
    distinct = subst Distinct (ground arith) dis;
    below = λ m c. inl (ground (arith, e));
  }
  add_each-Below call k (d ∷ ds) q r h dis e =
      let (q', first, rest) = bind-eq-done (call d q) (add_each call ds) e in
      let (keeps, low) = h d (ground (arith, streq_refl d)) in
      let b = keeps q q' dis first in
      let c = add_each-Below call k ds q' r (λ d' s. h d' (ground arith)) b.distinct rest in
      record { distinct = c.distinct; below = λ m s. ground (arith, c.below m s, b.below m) }

  pushed-Below :
      (name : Bytes) (q q' r : List Bytes)
      → Below (rank name) q q'
      → contains q name ≡ false
      → r ≡ q' ++ name ∷ []
      → Below (suc (rank name)) q r
  pushed-Below name q q' r b fresh end = record {
    distinct = rw end (Distinct-snoc q' name b.distinct (ground (arith, b.below name)));
    below = λ m c. elim (contains_snoc q' name m (rw end at c)) [
      | inl old ↦ elim (b.below m old) [ inl h ↦ inl h | inr h ↦ inr (omega arith) ]
      | inr same ↦ inr (rw same (omega arith))
    ];
  }

  pub add_install-Below :
      NamesFit index
      → (f : ℕ) (dep : Bool) (name : Bytes)
      → KeepsBelow (add_install_with_deps index installed f dep) name
  add_install-Below fit zero dep name q r dis e =
      absurd (add_install_zero index installed dep name q r e)
  add_install-Below fit (suc f) dep name q r dis e =
      elim (add_install-Added index installed f dep name q r e) [
        | already_installed pkg found _ _ same ↦ record {
          distinct = rw same dis;
          below = λ m c. inl (rw same at c);
        }
        | already_queued pkg found _ same ↦ record {
          distinct = rw same dis;
          below = λ m c. inl (rw same at c);
        }
        | pushed pkg q' found fresh each last ↦
            let b =
              add_each-Below (add_install_with_deps index installed f true) (rank name) pkg.depends
                q q' (λ d c. (add_install-Below fit f true d, ranked name pkg d found c)) dis
                each in
            let (end, _) =
              enqueue-eq-done name q' r (find_package_fits index name pkg fit found) last in
            pushed-Below name q q' r b fresh end
      ]

  -- On an index whose names fit their buffers and whose dependencies fall in rank, so that there is
  -- no cycle, a fuel above the package's rank is enough: the resolution of a package ends, and if
  -- it succeeds then no name stands twice in the queue.
  pub resolve_terminates :
      (f : ℕ) (name : Bytes)
      → NamesFit index
      → rank name < f
      → (add_install_with_deps index installed f false name [] ≡ failed)
        ⊎ ((q : List Bytes) × (add_install_with_deps index installed f false name [] ≡ done q)
            × Distinct q)
  resolve_terminates f name fit h =
      elim (Outcome-cases (add_install_with_deps index installed f false name [])) [
        | inl e ↦ inl e
        | inr (inl e) ↦ absurd (add_install-ends f false name [] h e)
        | inr (inr (q, e)) ↦ inr (q, e, (add_install-Below fit f false name [] q tt e).distinct)
      ]
