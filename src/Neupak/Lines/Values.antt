-- ===== src/Neupak/Lines/Values.antt =====
-- The values that the line reader returns, and the lines that it reads back.
use packages_repo_main.Neupak.Lines.Laws.{copy_until-eq-some, copy_until-stops, lacks}
use packages_repo_main.Text.{skip_spaces, quote, Bytes}
use packages_repo_main.Neupak.Lines.{
  copy_until, expect, open_bracket, close_bracket, parse_section_header, parse_quoted,
}
use packages_repo_main.Prelude.{
  inr, inl, Option-cases, arith, ◌++◌, length, ◌∷◌, some, true, ◌≡◌, ◌<◌, ℕ,
}

-- A quoted value is accepted exactly when the text is a quotation, behind spaces, whose inside fits
-- the buffer; the value is the inside.
pub parse_quoted-quotes :
    (size : ℕ) (v rest : Bytes)
    → lacks quote v ≡ true
    → length v < size
    → parse_quoted size (quote ∷ (v ++ quote ∷ rest)) ≡ some v
unfolding parse_quoted
parse_quoted-quotes size v rest q h = ground (arith, copy_until-stops quote size 0 v rest)

pub parse_quoted-fits :
    (size : ℕ) (value v : Bytes)
    → 0 < size
    → parse_quoted size value ≡ some v
    → (length v < size) × (lacks quote v ≡ true)
unfolding parse_quoted
parse_quoted-fits size value v z e = elim (Option-cases (expect quote (skip_spaces value))) [
  | inl a ↦ absurd (ground (arith, e, a))
  | inr (text, a) ↦ elim (Option-cases (copy_until quote size 0 text)) [
    | inl b ↦ absurd (ground (arith, e, a, b))
    | inr ((out, rest), b) ↦ ground (arith, e, a, b, copy_until-eq-some quote size 0 text out rest)
  ]
]

pub plain_section-name :
    (size : ℕ) (c : ℕ) (cs rest : Bytes)
    → lacks close_bracket (c ∷ cs) ≡ true
    → lacks quote (c ∷ cs) ≡ true
    → length (c ∷ cs) < size
    → parse_section_header size (open_bracket ∷ (c ∷ cs) ++ close_bracket ∷ rest) ≡ some (c ∷ cs)
unfolding parse_section_header
plain_section-name size c cs rest b q h =
    ground (arith, copy_until-stops close_bracket size 0 (c ∷ cs) rest)

-- A section name fits its buffer and is not empty.
pub parse_section_header-fits :
    (size : ℕ) (line name : Bytes)
    → 0 < size
    → parse_section_header size line ≡ some name
    → (length name < size) × (0 < length name)
unfolding parse_section_header
parse_section_header-fits size line name z e =
    elim (Option-cases (expect open_bracket (skip_spaces line))) [
      | inl a ↦ absurd (ground (arith, e, a))
      | inr (body, a) ↦ elim (Option-cases (expect quote body)) [
        | inl b ↦ elim (Option-cases (copy_until close_bracket size 0 body)) [
          | inl d ↦ absurd (ground (arith, e, a, b, d))
          | inr ((out, rest), d) ↦
              ground (arith, e, a, b, d, copy_until-eq-some close_bracket size 0 body out rest)
        ]
        | inr (inner, b) ↦ elim (Option-cases (copy_until quote size 0 inner)) [
          | inl d ↦ absurd (ground (arith, e, a, b, d))
          | inr ((out, rest), d) ↦
              ground (arith, e, a, b, d, copy_until-eq-some quote size 0 inner out rest)
        ]
      ]
    ]
