-- ===== src/Neupak/Manifest/Bounds.antt =====
-- What `parse_package_toml` guarantees of the packages that it returns.
use packages_repo_main.Neupak.Lines.Values.{parse_section_header-fits}
use packages_repo_main.Neupak.Lines.{parse_section_header, clean}
use mathlib.Core.List.{map-append}
use packages_repo_main.Prelude.Outcome.{running, failed, ◌>>=◌, done, Outcome}
use packages_repo_main.Text.Laws.{strlcpy_fits}
use packages_repo_main.Neupak.Resolve.Terminates.{Distinct-snoc, Distinct}
use packages_repo_main.Neupak.Resolve.Complete.{names}
use packages_repo_main.Neupak.Manifest.Fields.{package_field-FieldFits, FieldFits, PackageFits}
use packages_repo_main.Neupak.Installed.{update_last}
use packages_repo_main.Text.{Bytes, contains}
use packages_repo_main.Neupak.{max_name, max_packages, Package}
use packages_repo_main.Neupak.Manifest.{package_field, toml_line, last_package}
use packages_repo_main.Neupak.Packages.{new_package, valid_name, add_package, find_package}
use packages_repo_main.Prelude.{
  length-append, Option-cases, inr, inl, not, ◌||◌, refl, leb, suc, arith, Bool-cases, false, [],
  ap, subst, ◌++◌, some, ◌<◌, none, ◌≤◌, ◌≡◌, length, ◌∷◌, List,
}

abbrev pub AllFits : List Package → Type 0
AllFits [] = Unit {0}
AllFits (p ∷ ps) = PackageFits p × AllFits ps

-- A set of packages: no more than the array has places, no name twice, every field in its buffer.
pub record IsPackageSet (set : List Package) : Type 0 where
  pub bounded : length set ≤ max_packages
  pub distinct : Distinct (names set)
  pub fits : AllFits set

pub AllFits-snoc :
    (set : List Package) (p : Package) → AllFits set → PackageFits p → AllFits (set ++ p ∷ [])
AllFits-snoc [] p a f = (f, tt)
AllFits-snoc (x ∷ xs) p a f = (a.0, AllFits-snoc xs p a.1 f)

pub find_package-none :
    (set : List Package) (n : Bytes) → find_package set n ≡ none → contains (names set) n ≡ false
unfolding find_package contains
find_package-none [] n e = refl
find_package-none (p ∷ ps) n e = ground (arith, e, find_package-none ps n)

add_package-IsPackageSet :
    (set : List Package) (section : Bytes) (set' : List Package)
    → IsPackageSet set
    → length section < max_name
    → add_package set section ≡ some set'
    → IsPackageSet set'
unfolding add_package
add_package-IsPackageSet set section set' s h e =
    elim (Bool-cases (leb max_packages (length set) || not (valid_name section))) [
      | inl c ↦ absurd (ground (arith, e, c))
      | inr c ↦ elim (Option-cases (find_package set section)) [
        | inr (p, f) ↦ absurd (ground (arith, e, c, f))
        | inl f ↦
            let grown : set' ≡ set ++ new_package section ∷ [] = ground (arith, e, c, f) in
            let whole = strlcpy_fits max_name section h in
            rw grown (record {
              bounded = ground (arith, c, length-append set (new_package section ∷ []));
              distinct =
                  rw (map-append, whole)
                    (Distinct-snoc (names set) section s.distinct
                      (find_package-none set section f));
              fits = AllFits-snoc set (new_package section) s.fits (record {
                name = rw whole h;
                filename = omega arith;
                version = omega arith;
                sha256 = omega arith;
                strategy = omega arith;
                package_url = omega arith;
                description = omega arith;
                few = omega arith;
                depends = tt;
              });
            })
      ]
    ]

last_package-fits :
    (set : List Package) (p : Package) → AllFits set → last_package set ≡ some p → PackageFits p
unfolding last_package
last_package-fits [] p a e = cc e
last_package-fits (x ∷ []) p a e = subst PackageFits (ground (arith, e)) a.0
last_package-fits (x ∷ y ∷ ys) p a e = last_package-fits (y ∷ ys) p a.1 e

update_last-AllFits :
    (set : List Package) (p' : Package)
    → AllFits set
    → PackageFits p'
    → AllFits (update_last (λ _. p') set)
update_last-AllFits [] p' a f = tt
update_last-AllFits (x ∷ []) p' a f = (f, tt)
update_last-AllFits (x ∷ y ∷ ys) p' a f = (a.0, update_last-AllFits (y ∷ ys) p' a.1 f)

names-update_last :
    (set : List Package) (p p' : Package)
    → last_package set ≡ some p
    → p'.name ≡ p.name
    → names (update_last (λ _. p') set) ≡ names set
unfolding last_package
names-update_last [] p p' e n = cc
names-update_last (x ∷ []) p p' e n = ground (arith, e, n)
names-update_last (x ∷ y ∷ ys) p p' e n = ap (◌∷◌ x.name) (names-update_last (y ∷ ys) p p' e n)

length-update_last :
    (set : List Package) (p' : Package) → length (update_last (λ _. p') set) ≡ length set
length-update_last [] p' = refl
length-update_last (x ∷ []) p' = refl
length-update_last (x ∷ y ∷ ys) p' = ap suc (length-update_last (y ∷ ys) p')

-- What one round leaves, if it accepts the line; it never runs out of fuel.
abbrev pub RoundFits : List Bytes → Outcome (List Package × List Bytes) → Type 0
RoundFits lines (done (set, rest)) = IsPackageSet set × (length rest ≤ length lines)
RoundFits lines failed = Unit
RoundFits lines running = ⊥

field_round :
    (set : List Package) (p : Package) (lines : List Bytes) (o : Outcome (Package × List Bytes))
    → IsPackageSet set
    → last_package set ≡ some p
    → FieldFits p lines o
    → RoundFits lines (o >>= λ (p', rest). done (update_last (λ _. p') set, rest))
field_round set p lines (done (p', rest)) s e (f, n, h) = (
  record {
    bounded = rw (length-update_last set p') s.bounded;
    distinct = rw (names-update_last set p p' e n) s.distinct;
    fits = update_last-AllFits set p' s.fits f;
  },
  h,
)
field_round set p lines failed s e f = tt
field_round set p lines running s e f = absurd f

pub toml_line-RoundFits :
    (set : List Package) (line : Bytes) (lines : List Bytes)
    → IsPackageSet set
    → RoundFits lines (toml_line set line lines)
unfolding toml_line
toml_line-RoundFits set line lines s = go (clean line) refl
  where
    go : (l : Bytes) → clean line ≡ l → RoundFits lines (toml_line set line lines)
    go [] e = rw (e, toml_line) (s, omega arith)
    go (c ∷ cs) e = elim (Option-cases (parse_section_header max_name (c ∷ cs))) [
      | inr (section, h) ↦ elim (Option-cases (add_package set section)) [
        | inl a ↦ rw (e, toml_line) (rw (h, a) tt)
        | inr (set', a) ↦
            let (short, _) = parse_section_header-fits max_name (c ∷ cs) section (omega arith) h in
            rw (e, toml_line)
              (rw (h, a) (add_package-IsPackageSet set section set' s short a, omega arith))
      ]
      | inl h ↦ elim (Option-cases (last_package set)) [
        | inl a ↦ rw (e, toml_line) (rw (h, a) (s, omega arith))
        | inr (p, a) ↦
            rw (e, toml_line)
              (rw (h, a)
                (field_round set p lines (package_field (c ∷ cs) lines p) s a
                  (package_field-FieldFits (c ∷ cs) lines p (last_package-fits set p s.fits a))))
      ]
    ]
