-- ===== src/Neupak/Archives/Planned.antt =====
-- What `plan_zip` guarantees of the entries that it plans.
use mathlib.Core.List.{map-append}
use packages_repo_main.Neupak.Archives.Shorter.{skip_bytes-shorter, read_local_zip_entry-IsRead}
use packages_repo_main.Neupak.Resolve.Terminates.{Distinct-snoc, Distinct}
use packages_repo_main.Neupak.{max_path, max_files}
use packages_repo_main.Neupak.Paths.Safe.{final_path-IsUnder, IsUnder}
use packages_repo_main.Text.{codes, streq, contains, Bytes}
use packages_repo_main.Prelude.Outcome.{running, failed, done, Outcome}
use packages_repo_main.Neupak.Archives.{
  skip_bytes, read_local_zip_entry, plan_zip, plan_from, plan_entry, add_zip_entry, ZipEntry,
  is_planned,
}
use packages_repo_main.Prelude.{
  zero, length-append, leb, inr, none, ◌==◌, subst, Option-cases, not, inl, refl, suc, Bool-cases,
  some, ◌<◌, ◌≤◌, [], false, arith, map, ◌++◌, Option, length, ◌∷◌, ◌≡◌, List, ℕ,
}

abbrev pub finals : List ZipEntry → List Bytes
finals plan = map (λ e. e.final_path) plan

is_planned-contains :
    (plan : List ZipEntry) (path : Bytes) → is_planned plan path ≡ contains (finals plan) path
unfolding is_planned contains
is_planned-contains [] path = refl
is_planned-contains (e ∷ es) path = ground (arith, is_planned-contains es path)

-- A planned entry is a file whose bytes are stored as they are, with a path under the root.
pub record IsPayload (entry : ZipEntry) : Type 0 where
  pub stored : entry.method ≡ 0
  pub not_dir : entry.is_dir ≡ false
  pub not_manifest : streq entry.archive_path (codes "manifest.toml") ≡ false
  pub inside : IsUnder [] entry.final_path

abbrev pub AllPayload : List ZipEntry → Type 0
AllPayload [] = Unit {0}
AllPayload (e ∷ es) = IsPayload e × AllPayload es

AllPayload-snoc :
    (plan : List ZipEntry) (e : ZipEntry)
    → AllPayload plan
    → IsPayload e
    → AllPayload (plan ++ e ∷ [])
AllPayload-snoc [] e a p = (p, tt)
AllPayload-snoc (x ∷ xs) e a p = (a.0, AllPayload-snoc xs e a.1 p)

-- A plan: no more than the array has places, no final path twice, payload only.
pub record IsPlan (plan : List ZipEntry) : Type 0 where
  pub bounded : length plan ≤ max_files
  pub distinct : Distinct (finals plan)
  pub payload : AllPayload plan

add_zip_entry-IsPlan :
    (plan : List ZipEntry) (entry : ZipEntry) (plan' : List ZipEntry)
    → IsPlan plan
    → entry.method ≡ 0
    → IsUnder [] entry.final_path
    → add_zip_entry plan entry ≡ some plan'
    → IsPlan plan'
unfolding add_zip_entry
add_zip_entry-IsPlan plan entry plan' p m u e = elim (Bool-cases entry.is_dir) [
  | inl d ↦ subst IsPlan (ground (arith, e, d)) p
  | inr d ↦ elim (Bool-cases (streq entry.archive_path (codes "manifest.toml"))) [
    | inl n ↦ subst IsPlan (ground (arith, e, d, n)) p
    | inr n ↦ elim (Bool-cases (leb max_files (length plan))) [
      | inl f ↦ absurd (ground (arith, e, d, n, f))
      | inr f ↦ elim (Bool-cases (is_planned plan entry.final_path)) [
        | inl i ↦ absurd (ground (arith, e, d, n, f, i))
        | inr i ↦
            let grown : plan' ≡ plan ++ entry ∷ [] = ground (arith, e, d, n, f, i) in
            rw grown (record {
              bounded = ground (arith, f, length-append plan (entry ∷ []));
              distinct = rw map-append (
                  Distinct-snoc (finals plan) entry.final_path p.distinct
                    (ground (i, arith, is_planned-contains plan entry.final_path)));
              payload =
                  AllPayload-snoc plan entry p.payload
                    (record { stored = m; not_dir = d; not_manifest = n; inside = u });
            })
      ]
    ]
  ]
]

plan_entry-IsPlan :
    (plan : List ZipEntry) (entry : ZipEntry) (file : Bytes) (plan' : List ZipEntry) (rest : Bytes)
    → IsPlan plan
    → IsUnder [] entry.final_path
    → plan_entry plan entry file ≡ some (plan', rest)
    → IsPlan plan' × (length rest ≤ length file)
unfolding plan_entry
plan_entry-IsPlan plan entry file plan' rest p u e = elim (Bool-cases (not (entry.method == 0))) [
  | inl m ↦ absurd (ground (arith, e, m))
  | inr m ↦ elim (Option-cases (add_zip_entry plan entry)) [
    | inl a ↦ absurd (ground (arith, e, m, a))
    | inr (added, a) ↦ elim (Option-cases (skip_bytes file entry.compressed_size)) [
      | inl s ↦ absurd (ground (arith, e, m, a, s))
      | inr (left, s) ↦
          let same : added ≡ plan' = ground (arith, e, m, a, s) in
          let end : left ≡ rest = ground (arith, e, m, a, s) in
          (
            add_zip_entry-IsPlan plan entry plan' p (ground (arith, m)) u (rw same at a),
            ground (arith, end, skip_bytes-shorter file entry.compressed_size left s),
          )
    ]
  ]
]

-- What a result of `plan_zip` stands for.
abbrev pub Planned : Outcome (List ZipEntry) → Type 0
Planned (done plan) = IsPlan plan
Planned failed = Unit
Planned running = ⊥

plan_from-Planned :
    (f : ℕ) (plan : List ZipEntry) (file : Bytes)
    → length file < f
    → IsPlan plan
    → Planned (plan_from f plan file)
unfolding plan_from
plan_from-Planned zero plan file h p = elim h [ ]
plan_from-Planned (suc f) plan file h p = elim (Option-cases (read_local_zip_entry file)) [
  | inl r ↦ rw (r, plan_from) tt
  | inr (none, r) ↦ rw (r, plan_from) p
  | inr (some (entry, behind), r) ↦
      let (accepted, shorter) = read_local_zip_entry-IsRead file entry behind r in
      let inside = final_path-IsUnder max_path entry.archive_path entry.final_path accepted in
      elim (Option-cases (plan_entry plan entry behind)) [
        | inl a ↦ rw (r, plan_from) (rw a tt)
        | inr ((plan', rest), a) ↦
            let (good, fewer) = plan_entry-IsPlan plan entry behind plan' rest p inside a in
            rw (r, plan_from) (rw a (plan_from-Planned f plan' rest (omega arith) good))
      ]
]

-- The planning of an archive ends on every file, whatever it holds. If it succeeds the plan has at
-- most 256 entries, no two with one final path, and each entry is a file that is stored without
-- compression, is not the manifest, and has a path that does not lead out of the root.
pub plan_zip-Planned : (file : Option Bytes) → Planned (plan_zip file)
unfolding plan_zip
plan_zip-Planned none = tt
plan_zip-Planned (some file) =
    plan_from-Planned (suc (length file)) [] file (omega arith)
      (record { bounded = omega arith; distinct = tt; payload = tt })
