-- ===== src/Neupak/Manifest/Parsed.antt =====
-- The reading of an index or a manifest as a whole.
use packages_repo_main.Neupak.Lines.{split_lines}
use packages_repo_main.Neupak.Installed.{read_file_limited}
use packages_repo_main.Neupak.Manifest.Bounds.{toml_line-RoundFits, IsPackageSet}
use packages_repo_main.Text.{Bytes}
use packages_repo_main.Prelude.Outcome.{Outcome-cases, running, failed, done, Outcome}
use packages_repo_main.Neupak.{Package}
use packages_repo_main.Neupak.Manifest.{
  validate_package, toml_line, validate_all, parse_package_toml, toml_lines,
}
use packages_repo_main.Prelude.{
  refl, zero, Bool-cases, arith, suc, ◌⊎◌, inr, true, [], inl, ◌≡◌, ◌∷◌, ◌<◌, Option-cases, length,
  Option, List, Bool, ℕ,
}

toml_lines-ends :
    (f : ℕ) (set : List Package) (lines : List Bytes)
    → length lines < f
    → IsPackageSet set
    → (toml_lines f set lines ≡ failed)
      ⊎ ((set' : List Package) × (toml_lines f set lines ≡ done set') × IsPackageSet set')
unfolding toml_lines
toml_lines-ends zero set lines h s = elim h [ ]
toml_lines-ends (suc f) set [] h s = inr (set, refl, s)
toml_lines-ends (suc f) set (l ∷ ls) h s =
    let round = toml_line-RoundFits set l ls s in
    elim (Outcome-cases (toml_line set l ls)) [
      | inl e ↦ inl (rw e)
      | inr (inl e) ↦ absurd (rw e at round)
      | inr (inr ((set', rest), e)) ↦
          let (good, fewer) = rw e at round in rw e (toml_lines-ends f set' rest (omega arith) good)
    ]

-- Each package passes the validation.
abbrev pub AllValid : Bool → List Package → Type 0
AllValid require_hash [] = Unit
AllValid require_hash (p ∷ ps) = (validate_package p require_hash ≡ true) × AllValid require_hash ps

validate_all-AllValid :
    (set : List Package) (require_hash : Bool)
    → validate_all set require_hash ≡ true
    → AllValid require_hash set
unfolding validate_all
validate_all-AllValid [] require_hash v = tt
validate_all-AllValid (p ∷ ps) require_hash v =
    elim (Bool-cases (validate_package p require_hash)) [
      | inl e ↦ (e, validate_all-AllValid ps require_hash (ground (arith, v, e)))
      | inr e ↦ absurd (ground (arith, v, e))
    ]

-- What a result of `parse_package_toml` stands for.
abbrev pub Parsed : Bool → Outcome (List Package) → Type 0
Parsed require_hash (done set) = IsPackageSet set × AllValid require_hash set
Parsed require_hash failed = Unit
Parsed require_hash running = ⊥

-- The reading of an index or a manifest ends on every file, whatever it holds. If it succeeds there
-- are at most 96 packages, no two with one name, with every field in its buffer and the
-- dependencies in their array, and each package passed the validation.
pub parse_package_toml-Parsed :
    (file : Option Bytes) (require_hash : Bool)
    → Parsed require_hash (parse_package_toml file require_hash)
unfolding parse_package_toml
parse_package_toml-Parsed file require_hash = elim (Option-cases (read_file_limited file)) [
  | inl e ↦ rw (e, parse_package_toml) tt
  | inr (text, e) ↦
      elim (toml_lines-ends (suc (length (split_lines text))) [] (split_lines text) (omega arith)
        (record { bounded = omega arith; distinct = tt; fits = tt })) [
          | inl t ↦ rw (e, parse_package_toml) (rw t tt)
          | inr (set, t, good) ↦ elim (Bool-cases (validate_all set require_hash)) [
            | inl v ↦
                rw (e, parse_package_toml)
                  (rw (t) (rw v (good, validate_all-AllValid set require_hash v)))
            | inr v ↦ rw (e, parse_package_toml) (rw (t) (rw v tt))
          ]
        ]
]
