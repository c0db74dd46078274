-- ===== src/Neupak/Arrays/FileEnds.antt =====
-- The loop over the files of a package ends, and keeps the bounds.
use packages_repo_main.Neupak.Lines.{close_bracket, open_bracket, expect}
use packages_repo_main.Neupak.{max_files, max_path}
use packages_repo_main.Neupak.Arrays.Ends.{
  AllFit-snoc, array_item-shorter, skip_spaces-le, AllFit, Within,
}
use packages_repo_main.Text.{quote, skip_spaces, Bytes}
use packages_repo_main.Neupak.Arrays.{
  array_item, comma, parse_file_array, file_array_from, file_round,
}
use packages_repo_main.Prelude.{
  refl, length-append, ◌++◌, leb, not, ◌||◌, ◌==◌, false, true, Bool-cases, zero, [], inr, ◌∷◌, inl,
  arith, suc, Option-cases, ◌≤◌, some, ◌<◌, ◌≡◌, length, Bool, List, ℕ,
}

file_round-shorter :
    (out : List Bytes) (value : Bytes) (more : Bool) (out' : List Bytes) (rest : Bytes)
    → file_round out value ≡ some (more, out', rest)
    → length out ≤ max_files
    → AllFit max_path out
    → (length rest < length value) × (length out' ≤ max_files) × AllFit max_path out'
unfolding file_round
file_round-shorter out value more out' rest e b a = go (skip_spaces value) refl
  where
    go :
        (l : Bytes)
        → skip_spaces value ≡ l
        → (length rest < length value) × (length out' ≤ max_files) × AllFit max_path out'
    go [] s = absurd (ground (arith, e, s))
    go (c ∷ cs) s =
        let len : length (c ∷ cs) ≤ length value = rw s at (skip_spaces-le value) in
        elim (Bool-cases (c == close_bracket || c == comma)) [
          | inl k ↦
              let same : out' ≡ out = ground (arith, e, s, k) in
              let left : rest ≡ cs = ground (arith, e, s, k) in (rw left len, rw same b, rw same a)
          | inr k ↦ elim (Bool-cases (not (c == quote) || leb max_files (length out))) [
            | inl full ↦ absurd (ground (arith, e, s, k, full))
            | inr room ↦ elim (Option-cases (array_item max_path cs)) [
              | inl n ↦ absurd (ground (arith, e, s, k, room, n))
              | inr ((item, after), n) ↦
                  let (short, fits, plain) =
                    array_item-shorter max_path cs item after (omega arith) n in
                  let grown : out' ≡ out ++ item ∷ [] = ground (arith, e, s, k, room, n) in
                  let remains : rest ≡ after = ground (arith, e, s, k, room, n) in
                  (
                    rw remains (omega arith),
                    rw grown (ground (arith, room, length-append out (item ∷ []))),
                    rw grown (AllFit-snoc max_path out item a fits plain),
                  )
            ]
          ]
        ]

file_array_from-Within :
    (f : ℕ) (out : List Bytes) (value : Bytes)
    → length value < f
    → length out ≤ max_files
    → AllFit max_path out
    → Within max_path max_files (file_array_from f out value)
unfolding file_array_from
file_array_from-Within zero out value h b a = elim h [ ]
file_array_from-Within (suc f) out value h b a = elim (Option-cases (file_round out value)) [
  | inl e ↦ rw (e, file_array_from) tt
  | inr ((true, out', rest), e) ↦
      let (shorter, bound, all) = file_round-shorter out value true out' rest e b a in
      rw (e, file_array_from) (file_array_from-Within f out' rest (omega arith) bound all)
  | inr ((false, out', rest), e) ↦
      let (shorter, bound, all) = file_round-shorter out value false out' rest e b a in
      rw (e, file_array_from) (bound, all)
]

-- The reading of a list of files ends on every text, and a list that it returns has at most 256
-- paths, each shorter than its buffer and free of quotes.
pub parse_file_array-Within : (value : Bytes) → Within max_path max_files (parse_file_array value)
unfolding parse_file_array
parse_file_array-Within value = elim (Option-cases (expect open_bracket (skip_spaces value))) [
  | inl e ↦ rw (e, parse_file_array) tt
  | inr (text, e) ↦
      rw (e, parse_file_array)
        (file_array_from-Within (suc (length text)) [] text (omega arith) (omega arith) tt)
]
