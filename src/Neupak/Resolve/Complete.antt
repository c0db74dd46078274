-- ===== src/Neupak/Resolve/Complete.antt =====
-- The resolution succeeds where the index gives it no reason to fail.
use packages_repo_main.Neupak.Resolve.{
  done, ◌>>=◌, add_install_with_deps, failed, enqueue, add_each,
}
use packages_repo_main.Prelude.Outcome.{Outcome-cases, Outcome}
use packages_repo_main.Neupak.Resolve.Order.{
  resolve-IsOrdered, add_each-Good, add_install-Sound, snoc, Sound, empty, IsOrdered,
}
use packages_repo_main.Neupak.Packages.Laws.{NamesFit}
use packages_repo_main.Neupak.Packages.{find_package}
use packages_repo_main.Neupak.Resolve.Terminates.{
  resolve_terminates, add_each-Below, Distinct-snoc, add_install-Below, contains_snoc, KeepsBelow,
  Ranked, Distinct,
}
use packages_repo_main.Neupak.{Bool, max_install_queue, ℕ, InstalledPackage, Package}
use packages_repo_main.Prelude.{
  refl, zero, ◌++◌, Bool-cases, inr, inl, length-map, length-append, ◌≢◌, ◌<◌, suc, ◌≤◌, ◌≡◌, true,
  false, List, [], ◌∷◌, some, arith, map, if◌then◌else◌, length,
}
use packages_repo_main.Text.Laws.{streq_iff, streq_refl}
use packages_repo_main.Text.{Bytes, streq, contains}

remove_one : Bytes → List Bytes → List Bytes
remove_one n [] = []
remove_one n (x ∷ xs) = if streq x n then xs else x ∷ remove_one n xs

length-remove_one :
    (n : Bytes) (xs : List Bytes)
    → contains xs n ≡ true
    → length xs ≡ suc (length (remove_one n xs))
unfolding contains remove_one
length-remove_one n [] h = cc
length-remove_one n (x ∷ xs) h = ground (arith, length-remove_one n xs)

contains-remove_one :
    (n m : Bytes) (xs : List Bytes)
    → contains xs m ≡ true
    → streq n m ≡ false
    → contains (remove_one n xs) m ≡ true
unfolding contains remove_one
contains-remove_one n m [] h ne = cc
contains-remove_one n m (x ∷ xs) h ne =
    ground (arith, contains-remove_one n m xs, streq_iff x n, streq_iff x m, streq_iff n m)

-- A list without repetition whose entries all stand in another is no longer than that.
pigeonhole :
    (q names : List Bytes)
    → Distinct q
    → ((m : Bytes) → contains q m ≡ true → contains names m ≡ true)
    → length q ≤ length names
unfolding contains
pigeonhole [] names d h = omega arith
pigeonhole (x ∷ xs) names d h = omega (
  arith,
  length-remove_one x names (h x (ground (arith, streq_refl x))),
  pigeonhole xs (remove_one x names) d.1 (λ m c.
      contains-remove_one x m names (h m (ground (arith, c)))
        (ground (arith, streq_iff x m, c, d.0))),
)

abbrev pub names : List Package → List Bytes
names = map (λ (p : Package). p.name)

find_package-contains :
    (set : List Package) (n : Bytes) (p : Package)
    → find_package set n ≡ some p
    → contains (names set) n ≡ true
unfolding find_package contains
find_package-contains [] n p e = cc
find_package-contains (x ∷ xs) n p e = ground (arith, find_package-contains xs n p)

-- What a package of the index depends on is in the index.
abbrev pub IsClosed : List Package → Type 0
IsClosed index =
    (name : Bytes) (pkg : Package) (d : Bytes)
    → find_package index name ≡ some pkg
    → contains pkg.depends d ≡ true
    → (other : Package) × (find_package index d ≡ some other)

module _ (index : List Package) (installed : List InstalledPackage) (rank : Bytes → ℕ)
    (ranked : Ranked index rank) (closed : IsClosed index) (fit : NamesFit index)
    (small : length index ≤ max_install_queue) where
  IsOrdered-indexed :
      {q : List Bytes} (m : Bytes)
      → IsOrdered index installed q
      → contains q m ≡ true
      → contains (names index) m ≡ true
  unfolding contains
  IsOrdered-indexed m (empty e) c = cc (rw e at c)
  IsOrdered-indexed m (snoc name pkg o found met e) c = elim (contains_snoc _ name m (rw e at c)) [
    | inl old ↦ IsOrdered-indexed m o old
    | inr same ↦ rw same (find_package-contains index name pkg found)
  ]

  -- A queue in order has room for one more package that it does not hold.
  queue_room :
      (q : List Bytes) (name : Bytes) (pkg : Package)
      → IsOrdered index installed q
      → Distinct q
      → contains q name ≡ false
      → find_package index name ≡ some pkg
      → length q < max_install_queue
  queue_room q name pkg o dis fresh found = omega (
    arith,
    length-append q (name ∷ []),
    length-map index (λ (p : Package). p.name),
    pigeonhole (q ++ name ∷ []) (names index) (Distinct-snoc q name dis fresh) (λ m c.
        elim (contains_snoc q name m c) [
          | inl old ↦ IsOrdered-indexed m o old
          | inr same ↦ rw same (find_package-contains index name pkg found)
        ]),
  )

  abbrev Succeeds : (Bytes → List Bytes → Outcome (List Bytes)) → Bytes → Type 0
  Succeeds call d =
      (q : List Bytes)
      → IsOrdered index installed q
      → Distinct q
      → length q ≤ max_install_queue
      → call d q ≢ failed

  add_each-Succeeds :
      (call : Bytes → List Bytes → Outcome (List Bytes)) (ds q : List Bytes)
      → Sound index installed call
      → ((d : Bytes)
          → contains ds d ≡ true
          → KeepsBelow index installed rank ranked call d × Succeeds call d)
      → IsOrdered index installed q
      → Distinct q
      → length q ≤ max_install_queue
      → add_each call ds q ≢ failed
  unfolding add_each contains
  add_each-Succeeds call [] q sound h o dis b e = cc e
  add_each-Succeeds call (d ∷ ds) q sound h o dis b e =
      let (keeps, succ) = h d (ground (arith, streq_refl d)) in
      elim (Outcome-cases (call d q)) [
        | inl c ↦ succ q o dis b c
        | inr (inl c) ↦ cc (rw (c, ◌>>=◌) at e)
        | inr (inr (q', c)) ↦
            let (g, _) = sound d q q' o b c in
            add_each-Succeeds call ds q' sound (λ d' s. h d' (ground arith)) g.ordered
              (keeps q q' dis c).distinct g.bounded (rw (c, ◌>>=◌) at e)
      ]

  enqueue-succeeds :
      (name : Bytes) (q : List Bytes) → length q < max_install_queue → enqueue name q ≢ failed
  unfolding enqueue
  enqueue-succeeds name q h e = ground (arith, e)

  add_install-Succeeds :
      (f : ℕ) (dep : Bool) (name : Bytes) (pkg : Package)
      → rank name < f
      → find_package index name ≡ some pkg
      → Succeeds (add_install_with_deps index installed f dep) name
  unfolding add_install_with_deps
  add_install-Succeeds zero dep name pkg h found q o dis b e = elim h [ ]
  add_install-Succeeds (suc f) dep name pkg h found q o dis b e =
      elim (Bool-cases (contains q name)) [
        | inl c ↦ ground (arith, e)
        | inr fresh ↦ elim (Outcome-cases (add_each call pkg.depends q)) [
          | inl c ↦
              add_each-Succeeds call pkg.depends q sound (each (add_install-Succeeds f true)) o dis
                b c
          | inr (inl c) ↦ ground (arith, e)
          | inr (inr (q', c)) ↦
              let (g, _) = add_each-Good index installed call sound pkg.depends q q' o b c in
              let low =
                add_each-Below index installed rank ranked call (rank name) pkg.depends q q'
                  (λ d k. ((each (add_install-Succeeds f true) d k).0, ranked name pkg d found k))
                  dis c in
              enqueue-succeeds name q'
                (queue_room q' name pkg g.ordered low.distinct (ground (arith, low.below name))
                  found)
                (ground (arith, e))
        ]
      ]
    where
      call : Bytes → List Bytes → Outcome (List Bytes)
      call = add_install_with_deps index installed f true

      sound : Sound index installed call
      sound = add_install-Sound index installed fit f true

      each :
          ((d : Bytes) (other : Package)
            → rank d < f
            → find_package index d ≡ some other
            → Succeeds call d)
          → (d : Bytes) → contains pkg.depends d ≡ true
          → KeepsBelow index installed rank ranked call d × Succeeds call d
      each below d c =
          let (other, there) = closed name pkg d found c in
          (
            add_install-Below index installed rank ranked fit f true d,
            below d other (omega (arith, ranked name pkg d found c)) there,
          )

  -- An index without cycles that holds every dependency it names, with names that fit their
  -- buffers and no more packages than the queue has places, resolves each of its packages: with a
  -- fuel above the package's rank there is a queue, and it is in installation order, without
  -- repetition, and ends with the package.
  pub resolve-succeeds :
      (f : ℕ) (name : Bytes) (pkg : Package)
      → rank name < f
      → find_package index name ≡ some pkg
      → (q : List Bytes) × (add_install_with_deps index installed f false name [] ≡ done q)
        × IsOrdered index installed q
        × Distinct q
        × ((before : List Bytes) × (q ≡ before ++ name ∷ []))
  resolve-succeeds f name pkg h found =
      elim (resolve_terminates index installed rank ranked f name fit h) [
        | inl e ↦
            absurd
              (add_install-Succeeds f false name pkg h found [] (empty refl) tt (omega arith) e)
        | inr (q, e, distinct) ↦
            let (ordered, _, ends) = resolve-IsOrdered index installed f name q fit e in
            (q, e, ordered, distinct, ends)
      ]
