-- ===== src/Neupak/Manifest/Fields.antt =====
-- The fields of a package fit their buffers after every line of its section.
use packages_repo_main.Prelude.Outcome.{running, failed, ◌>>=◌, done, Outcome}
use packages_repo_main.Neupak.Arrays.{
  parse_string_list_line, contains_char, collect_array_value, collect_lines,
}
use packages_repo_main.Neupak.Lines.Values.{parse_quoted-fits}
use packages_repo_main.Neupak.Lines.{clean, close_bracket, split_key_value, parse_u64, parse_quoted}
use mathlib.Core.Option
use packages_repo_main.Neupak.Arrays.Ends.{parse_string_list_line-Within, Within, AllFit}
use packages_repo_main.Text.{append_char, append_text, codes, streq, Bytes}
use packages_repo_main.Neupak.Manifest.{
  depends_text_size, package_field, depends_value, sha256_size, package_value,
}
use packages_repo_main.Neupak.{
  max_deps, max_description, max_strategy, max_version, max_name, max_url, Package,
}
use packages_repo_main.Prelude.{
  [], ◌∷◌, List, refl, inr, arith, inl, Option-cases, Bool-cases, ◌≤◌, some, ◌≡◌, ◌<◌, length, ℕ,
}

-- The strings fit their buffers and the list of dependencies its array.
pub record PackageFits (p : Package) : Type 0 where
  pub name : length p.name < max_name
  pub filename : length p.filename < max_name
  pub version : length p.version < max_version
  pub sha256 : length p.sha256 < sha256_size
  pub strategy : length p.strategy < max_strategy
  pub package_url : length p.package_url < max_url
  pub description : length p.description < max_description
  pub few : length p.depends ≤ max_deps
  pub depends : AllFit max_name p.depends

quoted_field :
    (size : ℕ) (value : Bytes) (make : Bytes → Package) (p' : Package)
    → 0 < size
    → Option.map make (parse_quoted size value) ≡ some p'
    → (v : Bytes) × (p' ≡ make v) × (length v < size)
quoted_field size value make p' z e = elim (Option-cases (parse_quoted size value)) [
  | inl n ↦ absurd (ground (arith, e, n))
  | inr (v, n) ↦ (v, ground (arith, e, n), (parse_quoted-fits size value v z n).0)
]

number_field :
    (value : Bytes) (p p' : Package)
    → Option.map (λ (v : ℕ). record p { size = v }) (parse_u64 value) ≡ some p'
    → (v : ℕ) × (p' ≡ record p { size = v })
number_field value p p' e = elim (Option-cases (parse_u64 value)) [
  | inl n ↦ absurd (ground (arith, e, n))
  | inr (v, n) ↦ (v, ground (arith, e, n))
]

pub package_value-fits :
    (key value : Bytes) (p p' : Package)
    → package_value key value p ≡ some p'
    → PackageFits p
    → PackageFits p' × (p'.name ≡ p.name)
unfolding package_value
package_value-fits key value p p' e f = elim (Bool-cases (streq key (codes "version"))) [
  | inl k0 ↦
      let (v, made, short) =
        quoted_field max_version value (λ v. record p { version = v }) p' (omega arith)
          (ground (arith, e, k0)) in
      rw made (
        record {
          name = f.name;
          filename = f.filename;
          version = short;
          sha256 = f.sha256;
          strategy = f.strategy;
          package_url = f.package_url;
          description = f.description;
          few = f.few;
          depends = f.depends;
        },
        refl,
      )
  | inr k0 ↦ elim (Bool-cases (streq key (codes "package"))) [
    | inl k1 ↦
        let (v, made, short) =
          quoted_field max_name value (λ v. record p { filename = v }) p' (omega arith)
            (ground (arith, e, k0, k1)) in
        rw made (
          record {
            name = f.name;
            filename = short;
            version = f.version;
            sha256 = f.sha256;
            strategy = f.strategy;
            package_url = f.package_url;
            description = f.description;
            few = f.few;
            depends = f.depends;
          },
          refl,
        )
    | inr k1 ↦ elim (Bool-cases (streq key (codes "sha256"))) [
      | inl k2 ↦
          let (v, made, short) =
            quoted_field sha256_size value (λ v. record p { sha256 = v }) p' (omega arith)
              (ground (arith, e, k0, k1, k2)) in
          rw made (
            record {
              name = f.name;
              filename = f.filename;
              version = f.version;
              sha256 = short;
              strategy = f.strategy;
              package_url = f.package_url;
              description = f.description;
              few = f.few;
              depends = f.depends;
            },
            refl,
          )
      | inr k2 ↦ elim (Bool-cases (streq key (codes "size"))) [
        | inl k3 ↦
            let (v, made) = number_field value p p' (ground (arith, e, k0, k1, k2, k3)) in
            rw made (
              record {
                name = f.name;
                filename = f.filename;
                version = f.version;
                sha256 = f.sha256;
                strategy = f.strategy;
                package_url = f.package_url;
                description = f.description;
                few = f.few;
                depends = f.depends;
              },
              refl,
            )
        | inr k3 ↦ elim (Bool-cases (streq key (codes "strategy"))) [
          | inl k4 ↦
              let (v, made, short) =
                quoted_field max_strategy value (λ v. record p { strategy = v }) p' (omega arith)
                  (ground (arith, e, k0, k1, k2, k3, k4)) in
              rw made (
                record {
                  name = f.name;
                  filename = f.filename;
                  version = f.version;
                  sha256 = f.sha256;
                  strategy = short;
                  package_url = f.package_url;
                  description = f.description;
                  few = f.few;
                  depends = f.depends;
                },
                refl,
              )
          | inr k4 ↦ elim (Bool-cases (streq key (codes "description"))) [
            | inl k5 ↦
                let (v, made, short) =
                  quoted_field max_description value (λ v. record p { description = v }) p'
                    (omega arith) (ground (arith, e, k0, k1, k2, k3, k4, k5)) in
                rw made (
                  record {
                    name = f.name;
                    filename = f.filename;
                    version = f.version;
                    sha256 = f.sha256;
                    strategy = f.strategy;
                    package_url = f.package_url;
                    description = short;
                    few = f.few;
                    depends = f.depends;
                  },
                  refl,
                )
            | inr k5 ↦
                let same : p' ≡ p = ground (arith, e, k0, k1, k2, k3, k4, k5) in rw same (f, refl)
          ]
        ]
      ]
    ]
  ]
]

collect_lines-le :
    (size : ℕ) (out : Bytes) (lines : List Bytes) (text : Bytes) (rest : List Bytes)
    → collect_lines size out lines ≡ some (text, rest)
    → length rest ≤ length lines
unfolding collect_lines
collect_lines-le size out [] text rest e = ground (arith, e)
collect_lines-le size out (l ∷ ls) text rest e =
    elim (Bool-cases (contains_char out close_bracket)) [
      | inl c ↦ ground (arith, e, c)
      | inr c ↦ elim (Option-cases (append_char size out 32)) [
        | inl a ↦ absurd (ground (arith, e, c, a))
        | inr (x, a) ↦ elim (Option-cases (append_text size x (clean l))) [
          | inl b ↦ absurd (ground (arith, e, c, a, b))
          | inr (y, b) ↦
              let more : collect_lines size y ls ≡ some (text, rest) = ground (arith, e, c, a, b) in
              omega (arith, collect_lines-le size y ls text rest more)
        ]
      ]
    ]

-- What a field line leaves, if it is accepted; it never runs out of fuel.
abbrev pub FieldFits : Package → List Bytes → Outcome (Package × List Bytes) → Type 0
FieldFits p lines (done (p', rest)) =
    PackageFits p' × (p'.name ≡ p.name) × (length rest ≤ length lines)
FieldFits p lines failed = Unit
FieldFits p lines running = ⊥

with_depends :
    (p : Package) (lines rest : List Bytes) (o : Outcome (List Bytes))
    → PackageFits p
    → length rest ≤ length lines
    → Within max_name max_deps o
    → FieldFits p lines (o >>= λ depends. done (record p { depends = depends }, rest))
with_depends p lines rest (done ds) f h w = (
  record {
    name = f.name;
    filename = f.filename;
    version = f.version;
    sha256 = f.sha256;
    strategy = f.strategy;
    package_url = f.package_url;
    description = f.description;
    few = w.0;
    depends = w.1;
  },
  refl,
  h,
)
with_depends p lines rest failed f h w = tt
with_depends p lines rest running f h w = absurd w

depends_value-FieldFits :
    (value : Bytes) (lines : List Bytes) (p : Package)
    → PackageFits p
    → FieldFits p lines (depends_value value lines p)
unfolding depends_value collect_array_value
depends_value-FieldFits value lines p f =
    elim (Option-cases (collect_array_value depends_text_size value lines)) [
      | inl e ↦ rw (e, depends_value) tt
      | inr ((text, rest), e) ↦ elim (Option-cases (append_text depends_text_size [] value)) [
        | inl a ↦ absurd (ground (arith, e, a))
        | inr (out, a) ↦
            rw (e, depends_value)
              (with_depends p lines rest (parse_string_list_line text) f
                (collect_lines-le depends_text_size out lines text rest (ground (arith, e, a)))
                (parse_string_list_line-Within text))
      ]
    ]

pub package_field-FieldFits :
    (cleaned : Bytes) (lines : List Bytes) (p : Package)
    → PackageFits p
    → FieldFits p lines (package_field cleaned lines p)
unfolding package_field
package_field-FieldFits cleaned lines p f = elim (Option-cases (split_key_value cleaned)) [
  | inl e ↦ rw (e, package_field) tt
  | inr ((key, value), e) ↦ elim (Bool-cases (streq key (codes "depends"))) [
    | inl k ↦ rw (e, package_field) (rw k (depends_value-FieldFits value lines p f))
    | inr k ↦ elim (Option-cases (package_value key value p)) [
      | inl v ↦ rw (e, package_field) (rw (k, v) tt)
      | inr (p', v) ↦
          let (fits, same) = package_value-fits key value p p' v f in
          rw (e, package_field) (rw (k, v) (fits, same, omega arith))
    ]
  ]
]
