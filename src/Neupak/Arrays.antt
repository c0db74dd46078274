-- ===== src/Neupak/Arrays.antt =====
-- neupak/src/neupak.cpp: arrays of strings in the text formats. The `while (true)` loops run on
-- fuel, one unit a round; the parsers give them one more than the text has bytes.
pub mod Ends
pub mod FileEnds
use packages_repo_main.Prelude.Fallible.{◌>>=◌}
use packages_repo_main.Neupak.{max_path, max_name, max_files, max_deps}
use packages_repo_main.Prelude.Outcome.{done, failed, running, Outcome}
use packages_repo_main.Text.{quote, append_text, append_char, skip_spaces, Bytes}
use packages_repo_main.Neupak.Lines.{clean, close_bracket, open_bracket, expect, copy_until}
use packages_repo_main.Prelude.{
  zero, ◌++◌, leb, not, [], ◌||◌, length, true, some, ◌==◌, suc, ◌∷◌, if◌then◌else◌, false, none,
  Bool, List, Option, ℕ,
}

abbrev pub comma : ℕ
comma = 44

-- A string behind its opening quote: the string, and the text behind the closing quote.
unfoldable pub array_item : ℕ → Bytes → Option (Bytes × Bytes)
unfolding copy_until expect
array_item size text = do
  (item, rest) ← copy_until quote size 0 text
  after ← expect quote rest
  some (item, after)

-- What stands behind an item of a dependency list: `true` goes on behind a comma.
unfoldable pub item_end : Bytes → Option (Bool × Bytes)
item_end [] = none
item_end (c ∷ cs) =
    if c == comma then some (true, cs) else if c == close_bracket then some (false, cs) else none

-- One round of the loop of `parse_string_list_line`: whether it goes on, the list and the text.
unfoldable pub list_round : List Bytes → Bytes → Option (Bool × List Bytes × Bytes)
unfolding array_item item_end skip_spaces
list_round out value = elim (skip_spaces value) [
  | [] ↦ none
  | c ∷ cs ↦
      if c == close_bracket
      then some (false, out, cs)
      else if not (c == quote) || leb max_deps (length out)
      then none
      else (do
        (item, after) ← array_item max_name cs
        (more, rest) ← item_end (skip_spaces after)
        some (more, out ++ item ∷ [], rest))
]

-- The loop of `parse_string_list_line`.
unfoldable pub string_list_from : ℕ → List Bytes → Bytes → Outcome (List Bytes)
unfolding list_round
string_list_from zero out value = running
string_list_from (suc fuel) out value = elim (list_round out value) [
  | none ↦ failed
  | some (more, out', rest) ↦ elim more [
    | true ↦ string_list_from fuel out' rest
    | false ↦ done out'
  ]
]

unfoldable pub parse_string_list_line : Bytes → Outcome (List Bytes)
unfolding string_list_from expect skip_spaces
parse_string_list_line value = elim (expect open_bracket (skip_spaces value)) [
  | none ↦ failed
  | some text ↦ string_list_from (suc (length text)) [] text
]

-- One round of the loop of `parse_file_array`, which takes commas anywhere between the items.
unfoldable pub file_round : List Bytes → Bytes → Option (Bool × List Bytes × Bytes)
unfolding array_item skip_spaces
file_round out value = elim (skip_spaces value) [
  | [] ↦ none
  | c ∷ cs ↦
      if c == close_bracket
      then some (false, out, cs)
      else if c == comma
      then some (true, out, cs)
      else if not (c == quote) || leb max_files (length out)
      then none
      else (do (item, after) ← array_item max_path cs; some (true, out ++ item ∷ [], after))
]

-- The loop of `parse_file_array`.
unfoldable pub file_array_from : ℕ → List Bytes → Bytes → Outcome (List Bytes)
unfolding file_round
file_array_from zero out value = running
file_array_from (suc fuel) out value = elim (file_round out value) [
  | none ↦ failed
  | some (more, out', rest) ↦ elim more [
    | true ↦ file_array_from fuel out' rest
    | false ↦ done out'
  ]
]

unfoldable pub parse_file_array : Bytes → Outcome (List Bytes)
unfolding file_array_from expect skip_spaces
parse_file_array value = elim (expect open_bracket (skip_spaces value)) [
  | none ↦ failed
  | some text ↦ file_array_from (suc (length text)) [] text
]

unfoldable pub contains_char : Bytes → ℕ → Bool
contains_char [] needle = false
contains_char (c ∷ cs) needle = c == needle || contains_char cs needle

-- The loop of `collect_array_value`: lines are added, behind a space each, until there is a `]`.
unfoldable pub collect_lines : ℕ → Bytes → List Bytes → Option (Bytes × List Bytes)
unfolding contains_char append_char append_text
collect_lines size out [] = if contains_char out close_bracket then some (out, []) else none
collect_lines size out (line ∷ lines) =
    if contains_char out close_bracket then some (out, line ∷ lines) else (do
      a ← append_char size out 32
      b ← append_text size a (clean line)
      collect_lines size b lines)

-- The text of the array, and the lines behind it.
unfoldable pub collect_array_value : ℕ → Bytes → List Bytes → Option (Bytes × List Bytes)
unfolding collect_lines append_text
collect_array_value size value lines = do
  out ← append_text size [] value
  collect_lines size out lines
