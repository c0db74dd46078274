-- ===== src/Neupak/Indexes/Loaded.antt =====
-- What `load_indexes` guarantees of the set that it makes.
use packages_repo_main.Prelude.Fallible.{bind-eq-some}
use packages_repo_main.Neupak.Lines.{is_empty}
use packages_repo_main.Text.Laws.{append_text-eq-some}
use packages_repo_main.Neupak.Resolve.Complete.{names}
use packages_repo_main.Neupak.Resolve.Terminates.{Distinct-snoc}
use mathlib.Core.List.{map-append}
use packages_repo_main.Neupak.Paths.{repo_cache_path}
use packages_repo_main.Neupak.Manifest.Fields.{PackageFits}
use packages_repo_main.Neupak.Manifest.Bounds.{
  AllFits-snoc, find_package-none, AllFits, IsPackageSet,
}
use packages_repo_main.Neupak.Manifest.Parsed.{parse_package_toml-Parsed, AllValid}
use packages_repo_main.Prelude.Outcome.{running, Outcome-cases, failed, done, Outcome}
use packages_repo_main.Text.{codes, starts_with, append_text, Bytes}
use packages_repo_main.Neupak.Indexes.{
  url_base, parse_repos_cfg, load_indexes, derive_package_url, load_each, load_index,
  merge_packages, merge_package,
}
use packages_repo_main.Neupak.Packages.{valid_name, find_package}
use packages_repo_main.Neupak.{max_url, max_packages, max_path, Repo, Package}
use packages_repo_main.Neupak.Manifest.{valid_sha256_hex, parse_package_toml, validate_package}
use packages_repo_main.Prelude.{
  ◌-◌, take, ◌||◌, not, ◌<◌, ℕ, length-append, length, leb, Bool-cases, inl, inr, subst,
  Option-cases, [], refl, ◌∷◌, arith, some, ◌++◌, Option, ◌≡◌, true, List,
}

AllValid-snoc :
    (set : List Package) (p : Package)
    → AllValid true set
    → validate_package p true ≡ true
    → AllValid true (set ++ p ∷ [])
AllValid-snoc [] p a v = (v, tt)
AllValid-snoc (x ∷ xs) p a v = (a.0, AllValid-snoc xs p a.1 v)

-- A set of packages that all pass the validation with hashes.
pub record IsIndex (set : List Package) : Type 0 where
  pub packages : IsPackageSet set
  pub valid : AllValid true set

validate_package-url :
    (p : Package) (url : Bytes)
    → validate_package (record p { package_url = url }) true ≡ validate_package p true
unfolding validate_package
validate_package-url p url = refl

append_within :
    (size : ℕ) (out text r : Bytes)
    → length out < size
    → append_text size out text ≡ some r
    → length r < size
append_within size out text r h e = (append_text-eq-some size out text r e h).1

-- An address that is derived fits its buffer.
derive_package_url-fits :
    (size : ℕ) (indexurl filename sha256 url : Bytes)
    → 0 < size
    → derive_package_url size indexurl filename sha256 ≡ some url
    → length url < size
unfolding derive_package_url
derive_package_url-fits size indexurl filename sha256 url pos e =
    let base = url_base indexurl in
    elim (Bool-cases
      (not (valid_name filename) || not (valid_sha256_hex sha256) || is_empty base)) [
        | inl g ↦ absurd (ground (arith, rw g at e))
        | inr g ↦ elim (Bool-cases (starts_with indexurl (codes "file://"))) [
          | inl k ↦
              let (out, e1, e2) = bind-eq-some (append_text size [] base) _ (rw (g, k) at e) in
              append_within size out filename url (append_within size [] base out pos e1) e2
          | inr k ↦
              let host = take (length base - 1) base in
              let (a, ea, e1) = bind-eq-some (append_text size [] host) _ (rw (g, k) at e) in
              let (b, eb, e2) = bind-eq-some (append_text size a (codes "/package/")) _ e1 in
              let (c, ec, e3) = bind-eq-some (append_text size b filename) _ e2 in
              let (d, ed, e4) = bind-eq-some (append_text size c (codes "?sha256=")) _ e3 in
              append_within size d sha256 url
                (append_within size c (codes "?sha256=") d
                  (append_within size b filename c
                    (append_within size a (codes "/package/") b
                      (append_within size [] host a pos ea) eb)
                    ec)
                  ed)
                e4
        ]
      ]

PackageFits-url :
    (p : Package) (url : Bytes)
    → PackageFits p
    → length url < max_url
    → PackageFits (record p { package_url = url })
PackageFits-url p url f short = record {
  name = f.name;
  filename = f.filename;
  package_url = short;
  version = f.version;
  sha256 = f.sha256;
  strategy = f.strategy;
  description = f.description;
  few = f.few;
  depends = f.depends;
}

-- The packages that are there stay what they are: the first repository wins.
abbrev pub Keeps : List Package → List Package → Type 0
Keeps set set' =
    (name : Bytes) (p : Package) → find_package set name ≡ some p → find_package set' name ≡ some p

find_package-append : (set more : List Package) → Keeps set (set ++ more)
unfolding find_package
find_package-append [] more name p e = absurd (ground (arith, e))
find_package-append (x ∷ xs) more name p e = ground (arith, e, find_package-append xs more name p)

merge_package-IsIndex :
    (indexurl : Bytes) (set : List Package) (pkg : Package) (set' : List Package)
    → IsIndex set
    → PackageFits pkg
    → validate_package pkg true ≡ true
    → merge_package indexurl set pkg ≡ some set'
    → IsIndex set' × Keeps set set'
unfolding merge_package
merge_package-IsIndex indexurl set pkg set' s f v e =
    elim (Option-cases (find_package set pkg.name)) [
      | inr (p, k) ↦
          let same : set ≡ set' = ground (arith, e, k) in
          (subst IsIndex same s, subst (Keeps set) same (λ n q h. h))
      | inl k ↦ elim (Bool-cases (leb max_packages (length set))) [
        | inl b ↦ absurd (ground (arith, e, k, b))
        | inr b ↦
            elim (Option-cases (derive_package_url max_url indexurl pkg.filename pkg.sha256)) [
              | inl u ↦ absurd (ground (arith, e, k, b, u))
              | inr (url, u) ↦
                  let added = record pkg { package_url = url } in
                  let grown : set ++ added ∷ [] ≡ set' = ground (arith, e, k, b, u) in
                  (
                    subst IsIndex grown (record {
                      packages = record {
                        bounded = ground (arith, b, length-append set (added ∷ []));
                        distinct = rw map-append (
                            Distinct-snoc (names set) pkg.name s.packages.distinct
                              (find_package-none set pkg.name k));
                        fits = AllFits-snoc set added s.packages.fits (
                            PackageFits-url pkg url f (
                              derive_package_url-fits max_url indexurl pkg.filename pkg.sha256 url
                                (omega arith) u));
                      };
                      valid = AllValid-snoc set added s.valid (rw (validate_package-url pkg url) v);
                    }),
                    subst (Keeps set) grown (find_package-append set (added ∷ [])),
                  )
            ]
      ]
    ]

merge_packages-IsIndex :
    (indexurl : Bytes) (set ps set' : List Package)
    → IsIndex set
    → AllFits ps
    → AllValid true ps
    → merge_packages indexurl set ps ≡ some set'
    → IsIndex set' × Keeps set set'
unfolding merge_packages
merge_packages-IsIndex indexurl set [] set' s f v e =
    let same : set ≡ set' = ground (arith, e) in
    (subst IsIndex same s, subst (Keeps set) same (λ n q h. h))
merge_packages-IsIndex indexurl set (p ∷ ps) set' s f v e =
    elim (Option-cases (merge_package indexurl set p)) [
      | inl m ↦ absurd (ground (arith, e, m))
      | inr (middle, m) ↦
          let (good, keeps) = merge_package-IsIndex indexurl set p middle s f.0 v.0 m in
          let (all, later) =
            merge_packages-IsIndex indexurl middle ps set' good f.1 v.1 (rw m at e) in
          (all, λ n q h. later n q (keeps n q h))
    ]

-- What a result of the loading of indexes into `set` stands for.
abbrev pub Loaded : List Package → Outcome (List Package) → Type 0
Loaded set (done set') = IsIndex set' × Keeps set set'
Loaded set failed = Unit
Loaded set running = ⊥

module _ (cache_dir : Bytes) (file : Bytes → Option Bytes) where
  load_index-Loaded :
      (set : List Package) (repo : Repo)
      → IsIndex set
      → Loaded set (load_index cache_dir file set repo)
  unfolding load_index
  load_index-Loaded set repo s =
      elim (Option-cases (repo_cache_path cache_dir repo.name max_path)) [
        | inl c ↦ rw (c, load_index) tt
        | inr (path, c) ↦
            let parsed = parse_package_toml-Parsed (file path) true in
            elim (Outcome-cases (parse_package_toml (file path) true)) [
              | inl p ↦ rw (c, load_index) (rw p tt)
              | inr (inl p) ↦ absurd (rw p at parsed)
              | inr (inr (index, p)) ↦
                  let (good, valid) = rw p at parsed in
                  elim (Option-cases (merge_packages repo.indexurl set index)) [
                    | inl m ↦ rw (c, load_index) (rw p (rw (m, Loaded) tt))
                    | inr (set', m) ↦
                        rw (c, load_index)
                          (rw p (
                            rw (m, Loaded)
                              (merge_packages-IsIndex repo.indexurl set index set' s good.fits valid
                                m)))
                  ]
            ]
      ]

  -- The loading of the remaining indexes into a valid set ends. If it succeeds the set is still
  -- valid, and every package that was in it is found unchanged: the first repository wins.
  pub load_each-Loaded :
      (set : List Package) (repos : List Repo)
      → IsIndex set
      → Loaded set (load_each cache_dir file set repos)
  unfolding load_each
  load_each-Loaded set [] s = (s, λ n q h. h)
  load_each-Loaded set (r ∷ rs) s =
      let first = load_index-Loaded set r s in
      elim (Outcome-cases (load_index cache_dir file set r)) [
        | inl e ↦ rw (e, load_each) tt
        | inr (inl e) ↦ absurd (rw e at first)
        | inr (inr (middle, e)) ↦
            let (good, keeps) = rw e at first in
            let later = load_each-Loaded middle rs good in
            elim (Outcome-cases (load_each cache_dir file middle rs)) [
              | inl l ↦ rw (e, load_each) (rw l tt)
              | inr (inl l) ↦ absurd (rw l at later)
              | inr (inr (set', l)) ↦
                  let (all, still) = rw l at later in
                  rw (e, load_each) (rw l (all, λ n q h. still n q (keeps n q h)))
            ]
      ]

  -- The loading of the indexes ends, whatever the files hold. If it succeeds there are at most 96
  -- packages, no two with one name, every field fits its buffer, and each package passes the
  -- validation with its hash.
  pub load_indexes-Loaded : (config : Option Bytes) → Loaded [] (load_indexes cache_dir file config)
  unfolding load_indexes
  load_indexes-Loaded config = elim (Option-cases (parse_repos_cfg config)) [
    | inl e ↦ rw (e, load_indexes) tt
    | inr (repos, e) ↦
        rw (e, load_indexes)
          (load_each-Loaded [] repos (record {
            packages = record { bounded = omega arith; distinct = tt; fits = tt };
            valid = tt;
          }))
  ]
