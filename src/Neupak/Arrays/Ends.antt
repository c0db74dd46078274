-- ===== src/Neupak/Arrays/Ends.antt =====
-- The array loops end: every round takes bytes of the text.
use packages_repo_main.Neupak.{max_name, max_deps}
use packages_repo_main.Prelude.Outcome.{running, failed, done, Outcome}
use packages_repo_main.Neupak.Lines.{open_bracket, close_bracket, expect, copy_until}
use packages_repo_main.Neupak.Lines.Laws.{copy_until-eq-some, lacks}
use packages_repo_main.Neupak.Arrays.{
  parse_string_list_line, list_round, string_list_from, item_end, array_item,
}
use packages_repo_main.Text.{quote, Bytes, skip_spaces}
use packages_repo_main.Prelude.{
  leb, ◌||◌, not, ◌==◌, false, Bool-cases, refl, length-append, zero, ◌++◌, Bool, suc, List, inr,
  inl, Option-cases, true, [], ◌∷◌, some, arith, ◌≡◌, ◌≤◌, ◌<◌, length, ℕ,
}

pub skip_spaces-le : (l : Bytes) → length (skip_spaces l) ≤ length l
unfolding skip_spaces
skip_spaces-le [] = omega arith
skip_spaces-le (c ∷ cs) = ground (arith, skip_spaces-le cs)

expect_shorter :
    (c : ℕ) (text rest : Bytes) → expect c text ≡ some rest → length text ≡ suc (length rest)
unfolding expect
expect_shorter c [] rest e = cc
expect_shorter c (x ∷ xs) rest e = ground (arith, e)

pub array_item-shorter :
    (size : ℕ) (text item after : Bytes)
    → 0 < size
    → array_item size text ≡ some (item, after)
    → (length after < length text) × (length item < size) × (lacks quote item ≡ true)
unfolding array_item
array_item-shorter size text item after z e = elim (Option-cases (copy_until quote size 0 text)) [
  | inl c ↦ absurd (ground (arith, e, c))
  | inr ((out, rest), c) ↦ ground (
    arith,
    e,
    c,
    copy_until-eq-some quote size 0 text out rest c z,
    expect_shorter quote rest after,
    length-append out rest,
  )
]

item_end-le :
    (l : Bytes) (more : Bool) (rest : Bytes)
    → item_end l ≡ some (more, rest)
    → length rest ≤ length l
unfolding item_end
item_end-le [] more rest e = cc
item_end-le (c ∷ cs) more rest e = ground (arith, e)

-- The bounds of a list of strings: at most `count` of them, each shorter than `size` and free of
-- quotes.
abbrev pub AllFit : ℕ → List Bytes → Type 0
AllFit size [] = Unit {0}
AllFit size (s ∷ ss) = (length s < size) × (lacks quote s ≡ true) × AllFit size ss

pub AllFit-snoc :
    (size : ℕ) (ss : List Bytes) (s : Bytes)
    → AllFit size ss
    → length s < size
    → lacks quote s ≡ true
    → AllFit size (ss ++ s ∷ [])
AllFit-snoc size [] s a l q = (l, q, tt)
AllFit-snoc size (x ∷ xs) s a l q = (a.0, a.1, AllFit-snoc size xs s a.2 l q)

-- What the loop returns: never out of fuel, and within the bounds.
abbrev pub Within : ℕ → ℕ → Outcome (List Bytes) → Type 0
Within size count (done out) = (length out ≤ count) × AllFit size out
Within size count failed = Unit
Within size count running = ⊥

-- A round that goes on has taken bytes, and keeps the bounds.
list_round-shorter :
    (out : List Bytes) (value : Bytes) (more : Bool) (out' : List Bytes) (rest : Bytes)
    → list_round out value ≡ some (more, out', rest)
    → length out ≤ max_deps
    → AllFit max_name out
    → (length rest < length value) × (length out' ≤ max_deps) × AllFit max_name out'
unfolding list_round
list_round-shorter out value more out' rest e b a = go (skip_spaces value) refl
  where
    go :
        (l : Bytes)
        → skip_spaces value ≡ l
        → (length rest < length value) × (length out' ≤ max_deps) × AllFit max_name out'
    go [] s = absurd (ground (arith, e, s))
    go (c ∷ cs) s =
        let len : length (c ∷ cs) ≤ length value = rw s at (skip_spaces-le value) in
        elim (Bool-cases (c == close_bracket)) [
          | inl k ↦
              let same : out' ≡ out = ground (arith, e, s, k) in
              let left : rest ≡ cs = ground (arith, e, s, k) in (rw left len, rw same b, rw same a)
          | inr k ↦ elim (Bool-cases (not (c == quote) || leb max_deps (length out))) [
            | inl full ↦ absurd (ground (arith, e, s, k, full))
            | inr room ↦ elim (Option-cases (array_item max_name cs)) [
              | inl n ↦ absurd (ground (arith, e, s, k, room, n))
              | inr ((item, after), n) ↦ elim (Option-cases (item_end (skip_spaces after))) [
                | inl m ↦ absurd (ground (arith, e, s, k, room, n, m))
                | inr ((goes, left), m) ↦
                    let (short, fits, plain) =
                      array_item-shorter max_name cs item after (omega arith) n in
                    let grown : out' ≡ out ++ item ∷ [] = ground (arith, e, s, k, room, n, m) in
                    let remains : rest ≡ left = ground (arith, e, s, k, room, n, m) in
                    (
                      rw remains (
                          omega (
                            arith,
                            item_end-le (skip_spaces after) goes left m,
                            skip_spaces-le after,
                          )),
                      rw grown (ground (arith, room, length-append out (item ∷ []))),
                      rw grown (AllFit-snoc max_name out item a fits plain),
                    )
              ]
            ]
          ]
        ]

string_list_from-Within :
    (f : ℕ) (out : List Bytes) (value : Bytes)
    → length value < f
    → length out ≤ max_deps
    → AllFit max_name out
    → Within max_name max_deps (string_list_from f out value)
unfolding string_list_from
string_list_from-Within zero out value h b a = elim h [ ]
string_list_from-Within (suc f) out value h b a = elim (Option-cases (list_round out value)) [
  | inl e ↦ rw (e, string_list_from) tt
  | inr ((true, out', rest), e) ↦
      let (shorter, bound, all) = list_round-shorter out value true out' rest e b a in
      rw (e, string_list_from) (string_list_from-Within f out' rest (omega arith) bound all)
  | inr ((false, out', rest), e) ↦
      let (shorter, bound, all) = list_round-shorter out value false out' rest e b a in
      rw (e, string_list_from) (bound, all)
]

-- The reading of a dependency list ends on every text, and a list that it returns has at most 16
-- names, each shorter than its buffer and free of quotes.
pub parse_string_list_line-Within :
    (value : Bytes) → Within max_name max_deps (parse_string_list_line value)
unfolding parse_string_list_line
parse_string_list_line-Within value =
    elim (Option-cases (expect open_bracket (skip_spaces value))) [
      | inl e ↦ rw (e, parse_string_list_line) tt
      | inr (text, e) ↦
          rw (e, parse_string_list_line)
            (string_list_from-Within (suc (length text)) [] text (omega arith) (omega arith) tt)
    ]
